-- ===== src/Pd/Metadata/Runs.antt =====
-- Runs of `MetadataStore` in internal/pd/server.go: what store and region heartbeats, and the worker that
-- looks for silent stores, do to it.
use gookv.Prelude.{ℕ, Option, List, [], ◌∷◌, Bool}
use gookv.Pd.Moves.{Peer}
use gookv.Pd.Metadata.{
  MetadataStore, Store, Region, set_bootstrapped, put_store, update_store_stats,
  update_store_states, put_region,
}

pub data Event {ℓ} (Stats : Type ℓ) : Type ℓ where
  bootstrap : Bool → Event Stats
  store_put : Option Store → Event Stats
  store_heartbeat : ℕ → Stats → ℕ → Event Stats
  store_check : ℕ → Event Stats
  region_put : Option Region → Option Peer → Event Stats

module _ {ℓ} {Stats : Type ℓ} where
  unfoldable pub step : MetadataStore Stats → Event Stats → MetadataStore Stats
  step m (bootstrap v) = set_bootstrapped m v
  step m (store_put store) = put_store m store
  step m (store_heartbeat store_id stats now) = update_store_stats m store_id stats now
  step m (store_check now) = update_store_states m now
  step m (region_put region leader) = put_region m region leader

  unfoldable pub run : MetadataStore Stats → List (Event Stats) → MetadataStore Stats
  run m [] = m
  run m (e ∷ events) = run (step m e) events
