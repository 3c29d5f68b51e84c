-- ===== src/Mvcc/Versions/Range.antt =====
-- The versions whose keys lie in a range, and what is read of them.
use gookv.Prelude.{
  ℕ, ◌≡◌, refl, sym, ◌∙◌, ap, Bool, true, false, ◌&&◌, Option, List, [], ◌∷◌, if◌then◌else◌, arith,
  All, Bool-cases, inl, inr, All-imp, length, ◌≤◌,
}
use gookv.Prelude.Order.{equal_bytes, eq_of_equal_bytes}
use gookv.Mvcc.Iterator.{at_least, below}
use gookv.Mvcc.Versions.{Version, IsSorted}
use gookv.Mvcc.Versions.Visible.{visible_versions, latest_put}
use gookv.Mvcc.Versions.Keys.{keys_of, starts_with, readable, reader_at, readable-congr}

-- The versions whose keys lie in the range.
abbrev pub in_bounds : List ℕ → Option (List ℕ) → Option (List ℕ) → Bool
in_bounds key lower upper = at_least key lower && below key upper

unfoldable pub in_range : List Version → Option (List ℕ) → Option (List ℕ) → List Version
in_range [] lower upper = []
in_range (v ∷ vs) lower upper =
    let rest = in_range vs lower upper in if in_bounds v.key lower upper then v ∷ rest else rest

pub in_range-All :
    (P : Version → Type 0) (vs : List Version) (lower upper : Option (List ℕ))
    → All P vs
    → All P (in_range vs lower upper)
unfolding in_range
in_range-All P [] lower upper a = tt
in_range-All P (v ∷ vs) lower upper a = elim (Bool-cases (in_bounds v.key lower upper)) [
  | inl inside ↦ rw (inside, in_range) (a.0, in_range-All P vs lower upper a.1)
  | inr outside ↦ rw (outside, in_range) (in_range-All P vs lower upper a.1)
]

pub length-in_range :
    (vs : List Version) (lower upper : Option (List ℕ))
    → length (in_range vs lower upper) ≤ length vs
unfolding in_range
length-in_range [] lower upper = omega arith
length-in_range (v ∷ vs) lower upper = ground (arith, length-in_range vs lower upper)

pub in_range-IsSorted :
    (vs : List Version) (lower upper : Option (List ℕ))
    → IsSorted vs
    → IsSorted (in_range vs lower upper)
unfolding in_range
in_range-IsSorted [] lower upper s = tt
in_range-IsSorted (v ∷ vs) lower upper s = elim (Bool-cases (in_bounds v.key lower upper)) [
  | inl inside ↦
      rw (inside, in_range)
        (in_range-All _ vs lower upper s.0, in_range-IsSorted vs lower upper s.1)
  | inr outside ↦ rw (outside, in_range) (in_range-IsSorted vs lower upper s.1)
]

pub in_range-below :
    (vs : List Version) (lower upper : Option (List ℕ))
    → All (λ v. (in_bounds v.key lower upper) ≡ true) (in_range vs lower upper)
unfolding in_range
in_range-below [] lower upper = tt
in_range-below (v ∷ vs) lower upper = elim (Bool-cases (in_bounds v.key lower upper)) [
  | inl inside ↦ rw (inside, in_range) (inside, in_range-below vs lower upper)
  | inr outside ↦ rw (outside, in_range) (in_range-below vs lower upper)
]

keys_of-All : (P : List ℕ → Type 0) (vs : List Version) → All (λ v. P v.key) vs → All P (keys_of vs)
unfolding keys_of
keys_of-All P [] a = tt
keys_of-All P (v ∷ vs) a = elim (Bool-cases (starts_with vs v.key)) [
  | inl same ↦ rw (same, keys_of) (keys_of-All P vs a.1)
  | inr other ↦ rw (other, keys_of) (a.0, keys_of-All P vs a.1)
]

visible-in_range :
    (vs : List Version) (lower upper : Option (List ℕ)) (key : List ℕ) (ts : ℕ)
    → in_bounds key lower upper ≡ true
    → visible_versions (in_range vs lower upper) key ts ≡ visible_versions vs key ts
unfolding visible_versions in_range
visible-in_range [] lower upper key ts b = refl
visible-in_range (v ∷ vs) lower upper key ts b = elim (Bool-cases (in_bounds v.key lower upper)) [
  | inl inside ↦
      rw (inside, in_range, visible_versions, visible-in_range vs lower upper key ts b) refl
  | inr outside ↦
      let other : equal_bytes v.key key ≡ false = elim (Bool-cases (equal_bytes v.key key)) [
        | inl same ↦
            let e : in_bounds v.key lower upper ≡ in_bounds key lower upper =
              ap (λ k. in_bounds k lower upper) (eq_of_equal_bytes v.key key same) in
            let t : true ≡ false = sym b ∙ sym e ∙ outside in cc
        | inr o ↦ o
      ] in
      rw (outside, other, in_range, visible_versions) (visible-in_range vs lower upper key ts b)
]

-- A reader finds at the keys in the range what is in the range.
pub readable-in_range :
    (vs : List Version) (lower upper : Option (List ℕ)) (ts : ℕ)
    → let us = in_range vs lower upper in
      readable (reader_at us ts) (keys_of us) ≡ readable (reader_at vs ts) (keys_of us)
readable-in_range vs lower upper ts =
    let us = in_range vs lower upper in
    readable-congr (reader_at us ts) (reader_at vs ts) (keys_of us) (
      All-imp (λ k b. ap latest_put (visible-in_range vs lower upper k ts b)) (keys_of us)
        (keys_of-All (λ k. in_bounds k lower upper ≡ true) us (in_range-below vs lower upper)))
