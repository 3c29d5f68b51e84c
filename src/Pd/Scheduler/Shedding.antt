-- ===== src/Pd/Scheduler/Shedding.antt =====
-- Which peer internal/pd/scheduler.go removes from a region with too many.
use gookv.Prelude.{
  ℕ, ◌≤◌, ◌<◌, ◌≡◌, refl, Option, none, some, List, [], ◌∷◌, leb, ltb, Bool, true, false,
  Bool-cases, inl, inr, arith, length, ◌⊎◌, sym, ◌∙◌, ap,
}
use gookv.Pd.Moves.{Peer}
use gookv.Pd.Metadata.{MetadataStore}
use gookv.Pd.Scheduler.{
  is_leader, heaviest, remove_peer, region_counts, schedule_excess_replica_shedding,
}

unfoldable pub IsOneOf : Peer → List Peer → Type 0
IsOneOf p [] = ⊥
IsOneOf p (q ∷ peers) = (p ≡ q) ⊎ IsOneOf p peers

-- No peer but the leader is on a store with more regions.
unfoldable pub Heaviest : (ℕ → ℕ) → Option Peer → Peer → List Peer → Type 0
Heaviest counts leader p [] = Unit
Heaviest counts leader p (q ∷ peers) =
    ((is_leader leader q ≡ true) ⊎ (counts q.store_id ≤ counts p.store_id))
    × Heaviest counts leader p peers

one_later :
    (p q best : Peer) (peers : List Peer)
    → (p ≡ best) ⊎ IsOneOf p peers
    → (p ≡ best) ⊎ IsOneOf p (q ∷ peers)
unfolding IsOneOf
one_later p q best peers (inl e) = inl e
one_later p q best peers (inr h) = inr (inr h)

-- What the loop answers from a peer on.
Answers : (ℕ → ℕ) → Option Peer → List Peer → Peer → Option Peer → Type 0
Answers counts leader peers best o =
    (p : Peer) × (o ≡ some p)
    × (is_leader leader p ≡ false)
    × (counts best.store_id ≤ counts p.store_id)
    × ((p ≡ best) ⊎ IsOneOf p peers)
    × Heaviest counts leader p peers

heaviest-some :
    (counts : ℕ → ℕ) (leader : Option Peer) (peers : List Peer) (best : Peer)
    → is_leader leader best ≡ false
    → Answers counts leader peers best (heaviest counts leader peers (some best))
unfolding heaviest IsOneOf Heaviest Answers
heaviest-some counts leader [] best e = (best, refl, e, omega arith, inl refl, tt)
heaviest-some counts leader (q ∷ peers) best e = elim (Bool-cases (is_leader leader q)) [
  | inl l ↦
      let (p, f, n, le, one, all) = heaviest-some counts leader peers best e in
      rw l (p, f, n, le, one_later p q best peers one, (inl refl, all))
  | inr l ↦ elim (Bool-cases (ltb (counts best.store_id) (counts q.store_id))) [
    | inl h ↦
        let (p, f, n, le, one, all) = heaviest-some counts leader peers q l in
        rw (l, h) (p, f, n, ground arith, inr one, (inr le, all))
    | inr h ↦
        let (p, f, n, le, one, all) = heaviest-some counts leader peers best e in
        rw (l, h) (p, f, n, le, one_later p q best peers one, (inr (ground arith), all))
  ]
]

one_first : (p q : Peer) (peers : List Peer) → (p ≡ q) ⊎ IsOneOf p peers → IsOneOf p (q ∷ peers)
unfolding IsOneOf
one_first p q peers h = h

not_both : (b : Bool) → b ≡ true → b ≡ false → ⊥
not_both b p q = ground arith

-- Where a peer is not the leader, the loop answers one from the start.
heaviest-none :
    (counts : ℕ → ℕ) (leader : Option Peer) (peers : List Peer) (q : Peer)
    → IsOneOf q peers
    → is_leader leader q ≡ false
    → (p : Peer) × (heaviest counts leader peers none ≡ some p)
      × (is_leader leader p ≡ false)
      × IsOneOf p peers
      × Heaviest counts leader p peers
unfolding heaviest IsOneOf Heaviest Answers
heaviest-none counts leader [] q one n = elim one [ ]
heaviest-none counts leader (r ∷ peers) q one n = elim (Bool-cases (is_leader leader r)) [
  | inl l ↦ elim one [
    | inl e ↦ elim (not_both (is_leader leader r) l (ap (is_leader leader) (sym e) ∙ n)) [ ]
    | inr h ↦
        let (p, f, m, one', all) = heaviest-none counts leader peers q h n in
        rw l (p, f, m, inr one', (inl refl, all))
  ]
  | inr l ↦
      let (p, f, m, le, one', all) = heaviest-some counts leader peers r l in
      rw l (p, f, m, one', (inr le, all))
]

-- From a region with more peers than it should have, one of which is not the leader, the scheduler
-- removes a peer of the region that is not the leader, and of those one whose store has the most
-- regions.
pub shedding_spares_leader {ℓ} :
    {Stats : Type ℓ} (m : MetadataStore Stats) (max_peer_count region_id : ℕ) (peers : List Peer)
    (leader : Option Peer) (q : Peer)
    → max_peer_count < length peers
    → IsOneOf q peers
    → is_leader leader q ≡ false
    → (p : Peer) × (schedule_excess_replica_shedding m max_peer_count region_id peers leader
        ≡ remove_peer region_id (some p))
      × (is_leader leader p ≡ false)
      × IsOneOf p peers
      × Heaviest (region_counts m) leader p peers
unfolding schedule_excess_replica_shedding
shedding_spares_leader m max_peer_count region_id peers leader q more one n =
    let (p, f, other, one', all) = heaviest-none (region_counts m) leader peers q one n in
    let over : leb (length peers) max_peer_count ≡ false = ground arith in
    (p, rw (over, f) refl, other, one', all)
