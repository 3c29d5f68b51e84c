-- ===== src/Latch/Releasing.antt =====
-- Which slots a command owns after it has released them.
use gookv.Prelude.{
  ℕ, ◌≡◌, ◌≢◌, refl, ap, ◌∙◌, true, ◌&&◌, List, [], ◌∷◌, In, take, ◌==◌, if◌then◌else◌, arith,
  Bool-cases, inl, inr,
}
use gookv.Latch.{Slots, Lock, set_slot, release_slot, release_loop, release, contains}
use gookv.Latch.Exclusion.{OwnsExactly, OwnsExactly-Keeps}

release_slot-owner :
    (slots : Slots) (h id j : ℕ)
    → ((release_slot slots h id).0 j).owner
      ≡ (if h == j && (slots j).owner == id then 0 else (slots j).owner)
unfolding release_slot set_slot
release_slot-owner slots h id j = elim (Bool-cases (h == j)) [
  | inl same ↦
      let eq : h ≡ j = ground (arith, same) in
      let owner : (slots h).owner ≡ (slots j).owner = ap (λ k. (slots k).owner) eq in
      ground (arith, same, owner)
  | inr other ↦ ground (arith, other)
]

-- What the loop of `Release` does to the owner of a slot.
release_loop-owner :
    (slots : Slots) (hs : List ℕ) (id j : ℕ)
    → id ≢ 0
    → ((release_loop slots hs id).0 j).owner
      ≡ (if contains hs j && (slots j).owner == id then 0 else (slots j).owner)
unfolding release_loop contains
release_loop-owner slots [] id j z = refl
release_loop-owner slots (h ∷ hs) id j z =
    let rest = release_loop-owner (release_slot slots h id).0 hs id j z in
    let first = release_slot-owner slots h id j in rest ∙ ground (arith, first, z)

contains-In : (j : ℕ) (hs : List ℕ) → In j hs → contains hs j ≡ true
unfolding contains
contains-In j [] i = absurd i
contains-In j (h ∷ hs) (inl e) = ground (arith, e)
contains-In j (h ∷ hs) (inr i) = ground (arith, contains-In j hs i)

pub release-owns :
    (slots : Slots) (lock : Lock) (id : ℕ)
    → id ≢ 0
    → OwnsExactly slots id (take lock.owned_count lock.required_hashes)
    → OwnsExactly (release slots lock id).0 id []
unfolding release
release-owns slots lock id i o =
    let hs = take lock.owned_count lock.required_hashes in
    record {
      owned = tt;
      only = λ j e.
          let after = release_loop-owner slots hs id j i in
          elim (Bool-cases ((slots j).owner == id)) [
            | inl own ↦
                let held = contains-In j hs (o.only j (ground (arith, own))) in
                ground (arith, after, e, own, held, i)
            | inr other ↦ ground (arith, after, e, other)
          ];
    }

pub release-keeps :
    (slots : Slots) (lock : Lock) (id d : ℕ) (ds : List ℕ)
    → id ≢ 0
    → d ≢ 0
    → d ≢ id
    → OwnsExactly slots d ds
    → OwnsExactly (release slots lock id).0 d ds
unfolding release
release-keeps slots lock id d ds i z n od =
    let hs = take lock.owned_count lock.required_hashes in
    OwnsExactly-Keeps slots (release_loop slots hs id).0 d ds
      (λ j. ground (arith, release_loop-owner slots hs id j i, z, n)) od

-- If a command owns exactly the first `owned_count` of the slots it requires, then after `Release`
-- it owns no slot and counts none. What another command owned exactly, it still does.
pub release_frees_all :
    (slots : Slots) (lock : Lock) (id d : ℕ) (ds : List ℕ)
    → id ≢ 0
    → OwnsExactly slots id (take lock.owned_count lock.required_hashes)
    → d ≢ 0
    → d ≢ id
    → OwnsExactly slots d ds
    → OwnsExactly (release slots lock id).0 id []
      × ((release slots lock id).1.owned_count ≡ 0)
      × OwnsExactly (release slots lock id).0 d ds
unfolding release
release_frees_all slots lock id d ds i o z n od =
    (release-owns slots lock id i o, refl, release-keeps slots lock id d ds i z n od)
