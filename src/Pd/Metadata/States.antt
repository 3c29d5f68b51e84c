-- ===== src/Pd/Metadata/States.antt =====
-- The states of stores in `MetadataStore` of internal/pd/server.go.
use gookv.Prelude.{
  ℕ, ◌≡◌, ◌≢◌, refl, Option, none, some, List, [], ◌∷◌, leb, ◌==◌, if◌then◌else◌, Bool, true, false,
  Bool-cases, inl, inr, ap, sym, ◌∙◌, ==_iff, ◌+◌,
}
use gookv.Pd.Maps.{not_equal, lookup, put, lookup-put, lookup-put_other}
use gookv.Pd.Metadata.{
  MetadataStore, Store, Region, set_bootstrapped, StoreState, up, disconnected, down, tombstone,
  state_of, is_tombstone, is_up, state_at, aged, age_loop, update_store_stats, update_store_states,
  put_store, put_region, get_store_state, is_store_schedulable, is_stale_for,
}
use gookv.Pd.Moves.{Peer}
use gookv.Pd.Metadata.Runs.{
  Event, bootstrap, store_put, store_heartbeat, store_check, region_put, step, run,
}

-- A store that the placement driver knows.
unfoldable pub is_known : ℕ → List (ℕ × Store) → Bool
is_known id [] = false
is_known id ((k, store) ∷ rest) = if k == id then true else is_known id rest

state_at_stays : (d dd now t : ℕ) → is_tombstone (state_at d dd now t) ≡ false
unfolding state_at
state_at_stays d dd now t = elim (Bool-cases (leb (t + dd) now)) [
  | inl e ↦ rw e refl
  | inr e ↦ elim (Bool-cases (leb (t + d) now)) [ inl f ↦ rw (e, f) refl | inr f ↦ rw (e, f) refl ]
]

-- To look twice makes no difference.
aged-aged :
    (d dd now : ℕ) (o : Option ℕ) (s : StoreState)
    → aged d dd now o (aged d dd now o s) ≡ aged d dd now o s
unfolding aged
aged-aged d dd now none up = refl
aged-aged d dd now none disconnected = refl
aged-aged d dd now none down = refl
aged-aged d dd now none tombstone = refl
aged-aged d dd now (some t) tombstone = refl
aged-aged d dd now (some t) up = rw (state_at_stays d dd now t) refl
aged-aged d dd now (some t) disconnected = rw (state_at_stays d dd now t) refl
aged-aged d dd now (some t) down = rw (state_at_stays d dd now t) refl

-- The same state comes of both branches.
settled :
    (b : Bool) (f : StoreState → StoreState) (x y : StoreState)
    → x ≡ y
    → f y ≡ y
    → (if b then f x else x) ≡ y
settled true f x y p q = ap f p ∙ q
settled false f x y p q = p

age_loop_lem :
    (d dd now : ℕ) (hb : List (ℕ × ℕ)) (id : ℕ) (stores : List (ℕ × Store))
    (states : List (ℕ × StoreState))
    → state_of (lookup id (age_loop d dd now hb stores states)) ≡ (
        if is_known id stores
        then aged d dd now (lookup id hb) (state_of (lookup id states))
        else state_of (lookup id states))
unfolding age_loop is_known
age_loop_lem d dd now hb id [] states = refl
age_loop_lem d dd now hb id ((k, store) ∷ rest) states =
    let s = aged d dd now (lookup k hb) (state_of (lookup k states)) in
    let ih = age_loop_lem d dd now hb id rest (put k s states) in
    elim (Bool-cases (k == id)) [
      | inl e ↦
          let p = (==_iff k id).0 e in
          let f : StoreState → StoreState = aged d dd now (lookup id hb) in
          let x = state_of (lookup id (put k s states)) in
          let y = f (state_of (lookup id states)) in
          let q : x ≡ y =
            ap (λ i. state_of (lookup i (put k s states))) (sym p)
            ∙ (ap state_of (lookup-put k s states)
                ∙ ap (λ i. aged d dd now (lookup i hb) (state_of (lookup i states))) p) in
          rw e (
            ih
            ∙ settled (is_known id rest) f x y q
                (aged-aged d dd now (lookup id hb) (state_of (lookup id states))))
      | inr e ↦
          let f : StoreState → StoreState = aged d dd now (lookup id hb) in
          let q = ap state_of (lookup-put_other id k s states (not_equal k id e)) in
          rw e (ih ∙ ap (λ x. if is_known id rest then f x else x) q)
    ]

-- `updateStoreStates` gives every known store that is not a tombstone the state that the time of its
-- last heartbeat has: down, also without a heartbeat, disconnected or up. It leaves every other store
-- as it is.
pub update_store_states_lem {ℓ} :
    {Stats : Type ℓ} (m : MetadataStore Stats) (now id : ℕ)
    → get_store_state (update_store_states m now) id ≡ (
        if is_known id m.stores
        then aged m.disconnect_duration m.down_duration now
            (lookup id m.store_last_heartbeat)
            (get_store_state m id)
        else get_store_state m id)
unfolding get_store_state update_store_states
update_store_states_lem m now id =
    age_loop_lem m.disconnect_duration m.down_duration now m.store_last_heartbeat id m.stores
      m.store_states

aged-tombstone : (d dd now : ℕ) (o : Option ℕ) → aged d dd now o tombstone ≡ tombstone
unfolding aged
aged-tombstone d dd now none = refl
aged-tombstone d dd now (some t) = refl

if_same : (b : Bool) (x y : StoreState) → x ≡ y → (if b then x else y) ≡ y
if_same true x y p = p
if_same false x y p = refl

put_or_not :
    (b : Bool) (k id : ℕ) (states : List (ℕ × StoreState))
    → id ≢ k
    → state_of (lookup id (if b then states else put k up states)) ≡ state_of (lookup id states)
put_or_not true k id states p = refl
put_or_not false k id states p = ap state_of (lookup-put_other id k up states p)

module _ {ℓ} {Stats : Type ℓ} where
  update_store_states-tombstone :
      (m : MetadataStore Stats) (now id : ℕ)
      → get_store_state m id ≡ tombstone
      → get_store_state (update_store_states m now) id ≡ tombstone
  update_store_states-tombstone m now id e =
      update_store_states_lem m now id
      ∙ (ap
            (λ s.
              if is_known id m.stores
              then aged m.disconnect_duration m.down_duration now (lookup id m.store_last_heartbeat)
                  s
              else s)
            e
          ∙ if_same (is_known id m.stores) _ tombstone (
              aged-tombstone m.disconnect_duration m.down_duration now
                (lookup id m.store_last_heartbeat)))

  update_store_stats-tombstone :
      (m : MetadataStore Stats) (k : ℕ) (stats : Stats) (now id : ℕ)
      → get_store_state m id ≡ tombstone
      → get_store_state (update_store_stats m k stats now) id ≡ tombstone
  unfolding get_store_state update_store_stats
  update_store_stats-tombstone m k stats now id e = elim (Bool-cases (k == id)) [
    | inl f ↦
        ap
          (λ x.
            state_of
              (lookup id (if is_tombstone x then m.store_states else put k up m.store_states)))
          (ap (λ i. state_of (lookup i m.store_states)) ((==_iff k id).0 f) ∙ e)
        ∙ e
    | inr f ↦
        put_or_not (is_tombstone (state_of (lookup k m.store_states))) k id m.store_states
          (not_equal k id f)
        ∙ e
  ]

  put_region-states :
      (m : MetadataStore Stats) (o : Option Region) (leader : Option Peer) (id : ℕ)
      → get_store_state (put_region m o leader) id ≡ get_store_state m id
  unfolding put_region get_store_state
  put_region-states m none leader id = refl
  put_region-states m (some r) leader id =
      elim (Bool-cases (is_stale_for r (lookup r.id m.regions))) [
        | inl e ↦ rw e refl
        | inr e ↦ rw e refl
      ]

  put_store-states :
      (m : MetadataStore Stats) (o : Option Store) (id : ℕ)
      → get_store_state (put_store m o) id ≡ get_store_state m id
  unfolding put_store get_store_state
  put_store-states m none id = refl
  put_store-states m (some store) id = refl

  step-tombstone :
      (m : MetadataStore Stats) (e : Event Stats) (id : ℕ)
      → get_store_state m id ≡ tombstone
      → get_store_state (step m e) id ≡ tombstone
  unfolding step set_bootstrapped get_store_state
  step-tombstone m (bootstrap v) id h = h
  step-tombstone m (store_put store) id h = put_store-states m store id ∙ h
  step-tombstone m (store_heartbeat k stats now) id h =
      update_store_stats-tombstone m k stats now id h
  step-tombstone m (store_check now) id h = update_store_states-tombstone m now id h
  step-tombstone m (region_put region leader) id h = put_region-states m region leader id ∙ h

  -- A tombstone is permanent: whatever heartbeats the store sends, and whatever else happens but an
  -- explicit `SetStoreState`, the store stays a tombstone, and so is never scheduled to.
  pub tombstone_stays :
      (m : MetadataStore Stats) (events : List (Event Stats)) (id : ℕ)
      → get_store_state m id ≡ tombstone
      → (get_store_state (run m events) id ≡ tombstone)
        × (is_store_schedulable (run m events) id ≡ false)
  unfolding run is_store_schedulable
  tombstone_stays m [] id h = (h, ap is_up h)
  tombstone_stays m (e ∷ events) id h =
      tombstone_stays (step m e) events id (step-tombstone m e id h)
