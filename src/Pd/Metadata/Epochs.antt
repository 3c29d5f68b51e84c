-- ===== src/Pd/Metadata/Epochs.antt =====
-- The epochs of regions in `MetadataStore` of internal/pd/server.go.
use mathlib.Core.Path.{subst}
use gookv.Prelude.{
  ℕ, ◌≤◌, ◌≡◌, ◌≢◌, refl, Option, none, some, List, [], ◌∷◌, ◌==◌, false, Bool-cases, inl, inr,
  arith, ap, sym, ◌∙◌, ==_iff, All,
}
use gookv.Pd.Maps.{not_equal, lookup, lookup-put, lookup-put_other}
use gookv.Pd.Moves.{Peer}
use gookv.Pd.Metadata.{
  MetadataStore, Store, Region, RegionEpoch, is_older, is_stale, is_stale_for, put_region,
  get_region_by_id, put_store, update_store_stats, update_store_states, set_bootstrapped,
}
use gookv.Pd.Metadata.Runs.{
  Event, bootstrap, store_put, store_heartbeat, store_check, region_put, step, run,
}

-- A region at least as new as an epoch.
unfoldable pub IsFresh : RegionEpoch → Option Region → Type 0
IsFresh e o =
    (r : Region) × (e' : RegionEpoch) × (o ≡ some r)
    × (r.region_epoch ≡ some e')
    × (e.version ≤ e'.version)
    × (e.conf_ver ≤ e'.conf_ver)

-- A region has an epoch.
unfoldable pub HasEpoch : Option Region → Type 0
HasEpoch none = Unit
HasEpoch (some r) = (e : RegionEpoch) × (r.region_epoch ≡ some e)

-- The region that an event brings, if any, has an epoch.
unfoldable pub BringsEpoch {ℓ} : {Stats : Type ℓ} → Event Stats → Type 0
BringsEpoch (bootstrap v) = Unit
BringsEpoch (store_put store) = Unit
BringsEpoch (store_heartbeat k stats now) = Unit
BringsEpoch (store_check now) = Unit
BringsEpoch (region_put region leader) = HasEpoch region

-- A region that is not stale is at least as new as the stored one.
stale_or_newer :
    (e stored incoming : RegionEpoch)
    → e.version ≤ stored.version
    → e.conf_ver ≤ stored.conf_ver
    → is_older incoming stored ≡ false
    → (e.version ≤ incoming.version) × (e.conf_ver ≤ incoming.conf_ver)
stale_or_newer e stored incoming p q f = ground arith

module _ {ℓ} {Stats : Type ℓ} where
  put_region-other :
      (m : MetadataStore Stats) (r : Region) (leader : Option Peer) (id : ℕ)
      → id ≢ r.id
      → lookup id (put_region m (some r) leader).regions ≡ lookup id m.regions
  unfolding put_region
  put_region-other m r leader id p = elim (Bool-cases (is_stale_for r (lookup r.id m.regions))) [
    | inl e ↦ rw e refl
    | inr e ↦ rw e (lookup-put_other id r.id r m.regions p)
  ]

  put_region-own :
      (m : MetadataStore Stats) (e : RegionEpoch) (r : Region) (leader : Option Peer)
      (incoming : RegionEpoch)
      → r.region_epoch ≡ some incoming
      → IsFresh e (lookup r.id m.regions)
      → IsFresh e (lookup r.id (put_region m (some r) leader).regions)
  unfolding put_region IsFresh is_stale_for
  put_region-own m e r leader incoming i (stored, se, found_at, epoch_at, v, c) =
      let q : is_stale_for r (lookup r.id m.regions) ≡ is_older incoming se =
        ap (is_stale_for r) found_at
        ∙ (ap (λ x. is_stale x stored.region_epoch) i ∙ ap (is_stale (some incoming)) epoch_at) in
      elim (Bool-cases (is_older incoming se)) [
        | inl f ↦ rw (q ∙ f) (stored, se, found_at, epoch_at, v, c)
        | inr f ↦
            let (v', c') = stale_or_newer e se incoming v c f in
            rw (q ∙ f) (r, incoming, lookup-put r.id r m.regions, i, v', c')
      ]

  put_region-IsFresh :
      (m : MetadataStore Stats) (e : RegionEpoch) (o : Option Region) (leader : Option Peer)
      (id : ℕ)
      → HasEpoch o
      → IsFresh e (lookup id m.regions)
      → IsFresh e (lookup id (put_region m o leader).regions)
  unfolding put_region HasEpoch
  put_region-IsFresh m e none leader id h f = f
  put_region-IsFresh m e (some r) leader id (incoming, i) f = elim (Bool-cases (r.id == id)) [
    | inl g ↦
        let p = (==_iff r.id id).0 g in
        subst (λ k. IsFresh e (lookup k (put_region m (some r) leader).regions)) p
          (put_region-own m e r leader incoming i
            (subst (λ k. IsFresh e (lookup k m.regions)) (sym p) f))
    | inr g ↦ subst (IsFresh e) (sym (put_region-other m r leader id (not_equal r.id id g))) f
  ]

  put_store-regions :
      (m : MetadataStore Stats) (o : Option Store) (id : ℕ)
      → lookup id (put_store m o).regions ≡ lookup id m.regions
  unfolding put_store
  put_store-regions m none id = refl
  put_store-regions m (some store) id = refl

  step-IsFresh :
      (m : MetadataStore Stats) (e : RegionEpoch) (event : Event Stats) (id : ℕ)
      → BringsEpoch event
      → IsFresh e (lookup id m.regions)
      → IsFresh e (lookup id (step m event).regions)
  unfolding step set_bootstrapped BringsEpoch update_store_stats update_store_states
  step-IsFresh m e (bootstrap v) id h f = f
  step-IsFresh m e (store_put store) id h f =
      subst (IsFresh e) (sym (put_store-regions m store id)) f
  step-IsFresh m e (store_heartbeat k stats now) id h f = f
  step-IsFresh m e (store_check now) id h f = f
  step-IsFresh m e (region_put region leader) id h f = put_region-IsFresh m e region leader id h f

  -- The placement driver never goes back to an older description of a region: from where it has a region
  -- with an epoch, and as long as the regions that arrive have one, neither the version nor the
  -- configuration version of what `GetRegionByID` answers for it ever falls.
  pub epochs_grow :
      (m : MetadataStore Stats) (e : RegionEpoch) (events : List (Event Stats)) (id : ℕ)
      → All BringsEpoch events
      → IsFresh e (get_region_by_id m id).0
      → IsFresh e (get_region_by_id (run m events) id).0
  unfolding run get_region_by_id
  epochs_grow m e [] id h f = f
  epochs_grow m e (event ∷ events) id h f =
      epochs_grow (step m event) e events id h.1 (step-IsFresh m e event id h.0 f)
