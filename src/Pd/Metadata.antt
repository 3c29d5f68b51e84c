-- ===== src/Pd/Metadata.antt =====
-- internal/pd/server.go: `MetadataStore`, the placement driver's view of stores and regions. Its maps are
-- association lists, times and durations are numbers, and the clock is an argument.
pub mod Runs
pub mod States
pub mod Epochs
use gookv.Prelude.{
  ℕ, ◌+◌, Option, none, some, List, [], ◌∷◌, leb, ltb, ◌==◌, if◌then◌else◌, Bool, true, false, ◌||◌,
  ◌&&◌, not, Ordering,
}
use gookv.Prelude.Order.{compare_bytes}
use gookv.Codec.Bytes.{encode_bytes}
use gookv.Pd.Maps.{lookup, put}
use gookv.Pd.Moves.{Peer}

-- `StoreState`; a store that is not in the map is up.
pub data StoreState : Type 0 where
  up disconnected down tombstone : StoreState

-- A store with the rest of its description, and the parts of a region that are read here.
pub record Store : Type 0 where
  pub id : ℕ
  pub address : List ℕ

pub record RegionEpoch : Type 0 where
  pub conf_ver : ℕ
  pub version : ℕ

pub record Region : Type 0 where
  pub id : ℕ
  pub start_key : List ℕ
  pub end_key : List ℕ
  pub region_epoch : Option RegionEpoch
  pub peers : List Peer

-- `MetadataStore`, for some type of the stores' statistics.
pub record MetadataStore {ℓ} (Stats : Type ℓ) : Type ℓ where
  pub bootstrapped : Bool
  pub stores : List (ℕ × Store)
  pub regions : List (ℕ × Region)
  pub leaders : List (ℕ × Peer)
  pub store_stats : List (ℕ × Stats)
  pub store_last_heartbeat : List (ℕ × ℕ)
  pub store_states : List (ℕ × StoreState)
  pub disconnect_duration : ℕ
  pub down_duration : ℕ

abbrev pub or_default : ℕ → ℕ → ℕ
or_default default duration = if duration == 0 then default else duration

abbrev pub state_of : Option StoreState → StoreState
state_of none = up
state_of (some s) = s

abbrev pub is_tombstone : StoreState → Bool
is_tombstone tombstone = true
is_tombstone up = false
is_tombstone disconnected = false
is_tombstone down = false

abbrev pub is_up : StoreState → Bool
is_up up = true
is_up disconnected = false
is_up down = false
is_up tombstone = false

-- The state of a store by the time of its last heartbeat: `elapsed >= d` without a subtraction.
unfoldable pub state_at : ℕ → ℕ → ℕ → ℕ → StoreState
state_at disconnect_duration down_duration now t =
    if leb (t + down_duration) now
    then down
    else if leb (t + disconnect_duration) now
    then disconnected
    else up

abbrev pub alive_by : ℕ → ℕ → Option ℕ → Option StoreState → Bool
alive_by disconnect_duration now t (some s) = elim s [
  | up ↦ true
  | disconnected ↦ true
  | down ↦ false
  | tombstone ↦ false
]
alive_by disconnect_duration now none none = false
alive_by disconnect_duration now (some t) none = ltb now (t + disconnect_duration)

-- What `updateStoreStates` makes of one store.
unfoldable pub aged : ℕ → ℕ → ℕ → Option ℕ → StoreState → StoreState
aged disconnect_duration down_duration now none s = if is_tombstone s then s else down
aged disconnect_duration down_duration now (some t) s =
    if is_tombstone s then s else state_at disconnect_duration down_duration now t

-- The loops of `GetDeadStores` and `GetRegionByKey`, in the order of the list.
unfoldable pub dead_in : List (ℕ × StoreState) → List ℕ
dead_in [] = []
dead_in ((id, s) ∷ rest) =
    let more = dead_in rest in
    elim s [ down ↦ id ∷ more | up ↦ more | disconnected ↦ more | tombstone ↦ more ]

abbrev pub is_empty : List ℕ → Bool
is_empty [] = true
is_empty (b ∷ bs) = false

abbrev pub is_below : List ℕ → List ℕ → Bool
is_below xs ys = elim (compare_bytes xs ys) [ Ordering.lt ↦ true | _ ↦ false ]

-- Whether an encoded key lies in a region; an empty bound is no bound.
unfoldable pub holds_key : List ℕ → Region → Bool
holds_key encoded_key region =
    (is_empty region.start_key || not (is_below encoded_key region.start_key))
    && (is_empty region.end_key || is_below encoded_key region.end_key)

unfoldable pub region_with : List ℕ → List (ℕ × Region) → Option (ℕ × Region)
region_with encoded_key [] = none
region_with encoded_key ((id, region) ∷ rest) =
    if holds_key encoded_key region then some (id, region) else region_with encoded_key rest

abbrev pub is_older : RegionEpoch → RegionEpoch → Bool
is_older incoming stored =
    ltb incoming.version stored.version || ltb incoming.conf_ver stored.conf_ver

-- `PutRegion` discards a region that is older than the stored one, where both have an epoch.
abbrev pub is_stale : Option RegionEpoch → Option RegionEpoch → Bool
is_stale none stored = false
is_stale (some incoming) none = false
is_stale (some incoming) (some stored) = is_older incoming stored

unfoldable pub is_stale_for : Region → Option Region → Bool
is_stale_for region none = false
is_stale_for region (some existing) = is_stale region.region_epoch existing.region_epoch

abbrev pub put_leader : ℕ → Option Peer → List (ℕ × Peer) → List (ℕ × Peer)
put_leader id none leaders = leaders
put_leader id (some leader) leaders = put id leader leaders

-- The loop of `updateStoreStates` over the ids of the stores; a state that stays is written again.
unfoldable pub age_loop :
    ℕ → ℕ → ℕ → List (ℕ × ℕ) → List (ℕ × Store) → List (ℕ × StoreState) → List (ℕ × StoreState)
age_loop disconnect_duration down_duration now heartbeats [] states = states
age_loop disconnect_duration down_duration now heartbeats ((id, store) ∷ rest) states =
    let s =
      aged disconnect_duration down_duration now (lookup id heartbeats)
        (state_of (lookup id states)) in
    age_loop disconnect_duration down_duration now heartbeats rest (put id s states)

module _ {ℓ} {Stats : Type ℓ} where
  unfoldable pub new_metadata_store : ℕ → ℕ → MetadataStore Stats
  new_metadata_store disconnect_duration down_duration = record {
    bootstrapped = false;
    stores = [];
    regions = [];
    leaders = [];
    store_stats = [];
    store_last_heartbeat = [];
    store_states = [];
    disconnect_duration = or_default 30000 disconnect_duration;
    down_duration = or_default 1800000 down_duration;
  }

  unfoldable pub set_bootstrapped : MetadataStore Stats → Bool → MetadataStore Stats
  set_bootstrapped m v = record m { bootstrapped = v }

  unfoldable pub put_store : MetadataStore Stats → Option Store → MetadataStore Stats
  put_store m none = m
  put_store m (some store) = record m { stores = put store.id store m.stores }

  unfoldable pub update_store_stats : MetadataStore Stats → ℕ → Stats → ℕ → MetadataStore Stats
  update_store_stats m store_id stats now =
      let state = state_of (lookup store_id m.store_states) in
      record m {
        store_stats = put store_id stats m.store_stats;
        store_last_heartbeat = put store_id now m.store_last_heartbeat;
        store_states =
            if is_tombstone state then m.store_states else put store_id up m.store_states;
      }

  unfoldable pub get_store_state : MetadataStore Stats → ℕ → StoreState
  get_store_state m store_id = state_of (lookup store_id m.store_states)

  unfoldable pub set_store_state : MetadataStore Stats → ℕ → StoreState → MetadataStore Stats
  set_store_state m store_id state = record m { store_states = put store_id state m.store_states }

  unfoldable pub is_store_alive : MetadataStore Stats → ℕ → ℕ → Bool
  is_store_alive m store_id now =
      alive_by m.disconnect_duration now (lookup store_id m.store_last_heartbeat)
        (lookup store_id m.store_states)

  unfoldable pub is_store_schedulable : MetadataStore Stats → ℕ → Bool
  is_store_schedulable m store_id = is_up (get_store_state m store_id)

  unfoldable pub update_store_states : MetadataStore Stats → ℕ → MetadataStore Stats
  update_store_states m now = record m {
    store_states =
        age_loop m.disconnect_duration m.down_duration now m.store_last_heartbeat m.stores
          m.store_states;
  }

  unfoldable pub put_region :
      MetadataStore Stats → Option Region → Option Peer → MetadataStore Stats
  put_region m none leader = m
  put_region m (some region) leader =
      if is_stale_for region (lookup region.id m.regions) then m else record m {
        regions = put region.id region m.regions;
        leaders = put_leader region.id leader m.leaders;
      }

  unfoldable pub get_region_by_id : MetadataStore Stats → ℕ → Option Region × Option Peer
  get_region_by_id m id = (lookup id m.regions, lookup id m.leaders)

  unfoldable pub get_store : MetadataStore Stats → ℕ → Option Store
  get_store m id = lookup id m.stores

  unfoldable pub get_dead_stores : MetadataStore Stats → List ℕ
  get_dead_stores m = dead_in m.store_states

  abbrev pub with_leader : MetadataStore Stats → Option (ℕ × Region) → Option Region × Option Peer
  with_leader m none = (none, none)
  with_leader m (some (id, region)) = (some region, lookup id m.leaders)

  unfoldable pub get_region_by_key : MetadataStore Stats → List ℕ → Option Region × Option Peer
  get_region_by_key m key = with_leader m (region_with (encode_bytes [] key) m.regions)
