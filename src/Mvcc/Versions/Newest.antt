-- ===== src/Mvcc/Versions/Newest.antt =====
-- The first version from a position on.
use gookv.Prelude.{
  In, ℕ, ◌≤◌, ◌≡◌, refl, sym, false, some, List, [], ◌∷◌, inl, inr, Bool-cases, arith, Ordering,
  All,
}
use gookv.Prelude.Order.{compare_bytes, eq_of_equal_bytes, compare_bytes_self}
use mathlib.Core.Path.{subst}
use gookv.TxnTypes.Write.{Write}
use gookv.Mvcc.Versions.{Version, position, versions_from, first_of_key, IsSorted, precedes}

-- A found version is one of the list, belongs to the key, and is not newer than ts.
pub newest_sound :
    (vs : List Version) (key : List ℕ) (ts : ℕ) {w : Write} {c : ℕ}
    → first_of_key (versions_from vs key ts) key ≡ some (w, c)
    → (v : Version) × In v vs × (v.key ≡ key) × (v.write ≡ w) × (v.commit_ts ≡ c) × (c ≤ ts)
unfolding first_of_key versions_from
newest_sound [] key ts e = cc
newest_sound (v ∷ vs) key ts e = elim (Bool-cases (precedes v key ts)) [
  | inl p ↦
      let n = newest_sound vs key ts (rw (p, versions_from) at e) in
      (n.0, inr n.1, n.2, n.3, n.4, n.5)
  | inr p ↦ (
    v,
    inl refl,
    ground (arith, eq_of_equal_bytes v.key key),
    ground arith,
    ground arith,
    ground (arith, compare_bytes_self key),
  )
]

pub All-In : {A : Type 0} (P : A → Type 0) (a : A) (xs : List A) → All P xs → In a xs → P a
All-In P a [] p i = elim i [ ]
All-In P a (x ∷ xs) p (inl e) = subst P (sym e) p.0
All-In P a (x ∷ xs) p (inr i) = All-In P a xs p.1 i

same_key_behind :
    (x v : Version) (key : List ℕ) (ts : ℕ)
    → position x v.key v.commit_ts ≡ Ordering.lt
    → v.key ≡ key
    → precedes x key ts ≡ false
    → (compare_bytes x.key key ≡ Ordering.eq) × (v.commit_ts ≤ x.commit_ts)
same_key_behind x v key ts s k p = ground arith

-- A visible version of the key is found, or a newer one is.
pub newest_complete :
    (vs : List Version) (key : List ℕ) (ts : ℕ) (v : Version)
    → IsSorted vs
    → In v vs
    → v.key ≡ key
    → v.commit_ts ≤ ts
    → (n : Version) × (first_of_key (versions_from vs key ts) key ≡ some (n.write, n.commit_ts))
      × (v.commit_ts ≤ n.commit_ts)
unfolding first_of_key versions_from
newest_complete [] key ts v s i k le = elim i [ ]
newest_complete (x ∷ vs) key ts v s (inl e) k le =
    (x, ground (arith, compare_bytes_self v.key), ground arith)
newest_complete (x ∷ vs) key ts v s (inr i) k le = elim (Bool-cases (precedes x key ts)) [
  | inl p ↦ rw (p, versions_from) (newest_complete vs key ts v s.1 i k le)
  | inr p ↦
      let (same, newer) = same_key_behind x v key ts (All-In _ v vs s.0 i) k p in
      rw (p, versions_from) (x, ground (arith, same), newer)
]
