-- ===== src/Mvcc/Versions/Written.antt =====
-- What a write of a version makes of the versions, without a function that inserts it.
use gookv.Prelude.{
  ◌≡◌, refl, ap, List, [], ◌∷◌, ◌++◌, All, arith, Ordering, Ordering-cases, inl, inr,
}
use gookv.Prelude.Order.{compare_bytes-flip, eq_of_compare_bytes}
use gookv.Mvcc.Versions.{Version, position, IsSorted}
use gookv.Mvcc.Versions.Insert.{insert_version, behind_new, same_place, position-flip}

-- The versions after a write are those before, with the new one behind all smaller positions and in
-- front of all greater ones. It takes the place of a version with its key and timestamp.
pub record Written (vs : List Version) (v : Version) (vs' : List Version) : Type 0 where
  pub front : List Version
  pub old : List Version
  pub back : List Version
  pub before : vs ≡ front ++ (old ++ back)
  pub after : vs' ≡ front ++ (v ∷ back)
  pub in_front : All (λ x. position x v.key v.commit_ts ≡ Ordering.lt) front
  pub behind : All (λ x. position x v.key v.commit_ts ≡ Ordering.gt) back
  pub replaced : All (λ x. (x.key ≡ v.key) × (x.commit_ts ≡ v.commit_ts)) old

position-unflip :
    (w v : Version)
    → position v w.key w.commit_ts ≡ Ordering.lt
    → position w v.key v.commit_ts ≡ Ordering.gt
position-unflip w v p =
    ground (arith, compare_bytes-flip v.key w.key, compare_bytes-flip w.key v.key)

all-unflip :
    (v : Version) (vs : List Version)
    → All (λ w. position v w.key w.commit_ts ≡ Ordering.lt) vs
    → All (λ w. position w v.key v.commit_ts ≡ Ordering.gt) vs
all-unflip v [] h = tt
all-unflip v (w ∷ vs) h = (position-unflip w v h.0, all-unflip v vs h.1)

same_position :
    (x v : Version)
    → position x v.key v.commit_ts ≡ Ordering.eq
    → (x.key ≡ v.key) × (x.commit_ts ≡ v.commit_ts)
same_position x v p = ground (arith, eq_of_compare_bytes x.key v.key)

pub insert_version-Written :
    (vs : List Version) (v : Version) → IsSorted vs → Written vs v (insert_version vs v)
unfolding insert_version
insert_version-Written [] v s = record {
  front = [];
  old = [];
  back = [];
  before = refl;
  after = refl;
  in_front = tt;
  behind = tt;
  replaced = tt;
}
insert_version-Written (x ∷ vs) v s = elim (Ordering-cases (position x v.key v.commit_ts)) [
  | inl lt ↦
      let w = insert_version-Written vs v s.1 in
      rw (lt, insert_version)
        (record {
          front = x ∷ w.front;
          old = w.old;
          back = w.back;
          before = ap (◌∷◌ x) w.before;
          after = ap (◌∷◌ x) w.after;
          in_front = (lt, w.in_front);
          behind = w.behind;
          replaced = w.replaced;
        })
  | inr (inl eq) ↦
      rw (eq, insert_version)
        (record {
          front = [];
          old = x ∷ [];
          back = vs;
          before = refl;
          after = refl;
          in_front = tt;
          behind = all-unflip v vs (same_place x v vs eq s.0);
          replaced = (same_position x v eq, tt);
        })
  | inr (inr gt) ↦
      rw (gt, insert_version)
        (record {
          front = [];
          old = [];
          back = x ∷ vs;
          before = refl;
          after = refl;
          in_front = tt;
          behind = (gt, all-unflip v vs (behind_new v x vs (position-flip x v gt) s.0));
          replaced = tt;
        })
]
