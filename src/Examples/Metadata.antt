-- ===== src/Examples/Metadata.antt =====
-- The placement driver's view of a store and of a region.
use gookv.Prelude.{ℕ, ◌≡◌, refl, none, some, List, [], ◌∷◌, true, false, arith}
use gookv.Pd.Maps.{lookup}
use gookv.Pd.Metadata.{
  MetadataStore, Region, RegionEpoch, up, tombstone, get_store_state, is_store_schedulable,
  get_region_by_id,
}
use gookv.Pd.Metadata.Runs.{Event, store_heartbeat, store_check, region_put, run}
use gookv.Pd.Metadata.States.{tombstone_stays}
use gookv.Pd.Metadata.Epochs.{IsFresh, BringsEpoch, HasEpoch, epochs_grow}

abbrev region : ℕ → ℕ → Region
region version conf_ver = record {
  id = 2;
  start_key = [];
  end_key = [];
  region_epoch = some (record { conf_ver = conf_ver; version = version });
  peers = [];
}

abbrev metadata : MetadataStore ℕ
metadata = record {
  bootstrapped = true;
  stores = (1, record { id = 1; address = [] }) ∷ (4, record { id = 4; address = [] }) ∷ [];
  regions = (2, region 5 3) ∷ [];
  leaders = [];
  store_stats = [];
  store_last_heartbeat = (1, 100) ∷ [];
  store_states = (1, up) ∷ (4, tombstone) ∷ [];
  disconnect_duration = 30;
  down_duration = 1800;
}

-- A tombstone sends a heartbeat; a region comes back with an older version.
abbrev events : List (Event ℕ)
events = store_heartbeat 4 0 160 ∷ store_check 170 ∷ region_put (some (region 4 9)) none ∷ []

tombstone_stays_example :
    (get_store_state (run metadata events) 4 ≡ tombstone)
    × (is_store_schedulable (run metadata events) 4 ≡ false)
unfolding get_store_state lookup
tombstone_stays_example = tombstone_stays metadata events 4 refl

abbrev epoch : RegionEpoch
epoch = record { conf_ver = 3; version = 5 }

epochs_grow_example : IsFresh epoch (get_region_by_id (run metadata events) 2).0
unfolding IsFresh get_region_by_id lookup BringsEpoch HasEpoch
epochs_grow_example =
    epochs_grow metadata epoch events 2 (tt, (tt, ((_, refl), tt)))
      (region 5 3, epoch, refl, refl, omega arith, omega arith)
