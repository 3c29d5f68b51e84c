-- ===== src/Mvcc/Versions/Next.antt =====
-- Stepping through the versions of a key, from one position to the next older one.
use gookv.Prelude.{
  ℕ, ◌<◌, ◌≡◌, refl, ◌∙◌, ap, true, false, List, [], ◌∷◌, arith, Ordering, All, Bool-cases, inl,
  inr,
}
use gookv.Prelude.Order.{compare_bytes_self, compare_bytes-flip}
use gookv.TxnTypes.Timestamp.{ts_max}
use gookv.Mvcc.Snapshot.{less}
use gookv.TxnTypes.Timestamp.{prev}
use gookv.Mvcc.Versions.{Version, position, precedes, IsSorted, versions_from}

-- A version does not precede the position of the one in front of it, one timestamp down.
next-stays :
    (v w : Version) (key : List ℕ)
    → position v w.key w.commit_ts ≡ Ordering.lt
    → v.key ≡ key
    → 0 < v.commit_ts
    → precedes w key (prev v.commit_ts) ≡ false
unfolding prev
next-stays v w key s k p = ground (arith, compare_bytes-flip v.key w.key)

rest-stays :
    (v : Version) (vs : List Version) (key : List ℕ)
    → All (λ w. position v w.key w.commit_ts ≡ Ordering.lt) vs
    → v.key ≡ key
    → 0 < v.commit_ts
    → versions_from vs key (prev v.commit_ts) ≡ vs
unfolding versions_from
rest-stays v [] key s k p = refl
rest-stays v (w ∷ vs) key s k p = rw (next-stays v w key s.0 k p)

pub head-stays :
    (vs : List Version) (key : List ℕ) (ts : ℕ) (v : Version) (rest : List Version)
    → versions_from vs key ts ≡ v ∷ rest
    → precedes v key ts ≡ false
unfolding versions_from
head-stays [] key ts v rest e = cc
head-stays (x ∷ vs) key ts v rest e = elim (Bool-cases (precedes x key ts)) [
  | inl d ↦ head-stays vs key ts v rest (rw (d, versions_from) at e)
  | inr d ↦ ground arith
]

-- What precedes a position precedes every later one.
precedes-later :
    (x v : Version) (key : List ℕ) (ts : ℕ)
    → precedes x key ts ≡ true
    → precedes v key ts ≡ false
    → v.key ≡ key
    → precedes x key (prev v.commit_ts) ≡ true
unfolding prev
precedes-later x v key ts d n k = ground (arith, compare_bytes_self key)

precedes_self :
    (v : Version) (key : List ℕ)
    → v.key ≡ key
    → 0 < v.commit_ts
    → precedes v key (prev v.commit_ts) ≡ true
unfolding prev
precedes_self v key k p = ground (arith, compare_bytes_self key)

-- Behind a version of the key the next position is the rest of the list.
pub versions_from-prev :
    (vs : List Version) (key : List ℕ) (ts : ℕ) (v : Version) (rest : List Version)
    → IsSorted vs
    → versions_from vs key ts ≡ v ∷ rest
    → v.key ≡ key
    → 0 < v.commit_ts
    → versions_from vs key (prev v.commit_ts) ≡ rest
unfolding versions_from
versions_from-prev [] key ts v rest s e k p = cc
versions_from-prev (x ∷ vs) key ts v rest s e k p = elim (Bool-cases (precedes x key ts)) [
  | inl d ↦
      let e' = rw (d, versions_from) at e in
      rw (precedes-later x v key ts d (head-stays vs key ts v rest e') k)
        (versions_from-prev vs key ts v rest s.1 e' k p)
  | inr d ↦
      let e' : x ∷ vs ≡ v ∷ rest = rw (d, versions_from) at e in
      let same : x ≡ v = cc in
      let tail : vs ≡ rest = cc in
      rw
        (
          ← ap (λ (r : Version). r.commit_ts) same,
          precedes_self x key (ground arith) (ground arith),
        )
        (rest-stays x vs key s.0 (ground arith) (ground arith) ∙ tail)
]

pub versions_from-IsSorted :
    (vs : List Version) (key : List ℕ) (ts : ℕ) → IsSorted vs → IsSorted (versions_from vs key ts)
unfolding versions_from
versions_from-IsSorted [] key ts s = tt
versions_from-IsSorted (v ∷ vs) key ts s = elim (Bool-cases (precedes v key ts)) [
  | inl p ↦ rw (p, versions_from) (versions_from-IsSorted vs key ts s.1)
  | inr p ↦ rw (p, versions_from) s
]

pub versions_from-All :
    (P : Version → Type 0) (vs : List Version) (key : List ℕ) (ts : ℕ)
    → All P vs
    → All P (versions_from vs key ts)
unfolding versions_from
versions_from-All P [] key ts s = tt
versions_from-All P (v ∷ vs) key ts s = elim (Bool-cases (precedes v key ts)) [
  | inl p ↦ rw (p, versions_from) (versions_from-All P vs key ts s.1)
  | inr p ↦ rw (p, versions_from) s
]

-- No version in front stands before the key.
abbrev pub Reaches : List Version → List ℕ → Type 0
Reaches [] key = Unit
Reaches (v ∷ vs) key = less v.key key ≡ false

pub Reaches-tail :
    (v : Version) (vs : List Version) (key : List ℕ)
    → All (λ w. position v w.key w.commit_ts ≡ Ordering.lt) vs
    → v.key ≡ key
    → Reaches vs key
Reaches-tail v [] key s k = tt
Reaches-tail v (w ∷ vs) key s k = ground (arith, compare_bytes-flip v.key w.key)

pub versions_from-Reaches :
    (vs : List Version) (key : List ℕ) → Reaches (versions_from vs key ts_max) key
unfolding versions_from
versions_from-Reaches [] key = tt
versions_from-Reaches (v ∷ vs) key = elim (Bool-cases (precedes v key ts_max)) [
  | inl d ↦ rw (d, versions_from) (versions_from-Reaches vs key)
  | inr d ↦ rw (d, versions_from) (ground arith)
]
