-- ===== src/Mvcc/Versions/Insert.antt =====
-- Writing a version to CF_WRITE, in the abstract view.
use gookv.Prelude.{
  ℕ, ◌<◌, ◌≤◌, ◌≡◌, refl, true, false, ◌&&◌, List, [], ◌∷◌, map, leb, arith, Ordering, All, inl,
  inr, Ordering-cases, Bool-cases,
}
use gookv.Prelude.Order.{
  equal_bytes, eq_of_compare_bytes, compare_bytes_self, compare_bytes-flip, compare_bytes_trans,
}
use gookv.Mvcc.Key.{encode_key}
use gookv.Mvcc.Key.Laws.{compare-encode_key}
use gookv.TxnTypes.Write.{marshal}
use gookv.Mvcc.Txn.Apply.{put_entry}
use gookv.Mvcc.Versions.{Version, entry, position, IsStorable, IsSorted}
use gookv.Mvcc.Versions.Visible.{visible_versions}

-- A version takes the place of one with its key and timestamp.
unfoldable pub insert_version : List Version → Version → List Version
insert_version [] v = v ∷ []
insert_version (x ∷ vs) v = elim (position x v.key v.commit_ts) [
  | Ordering.lt ↦ x ∷ insert_version vs v
  | Ordering.eq ↦ v ∷ vs
  | Ordering.gt ↦ v ∷ x ∷ vs
]

-- A put of an encoded version into entries that hold versions inserts the version.
pub put_entry-entries :
    (vs : List Version) (v : Version)
    → All IsStorable vs
    → IsStorable v
    → put_entry (map entry vs) (encode_key v.key v.commit_ts) (marshal v.write)
      ≡ map entry (insert_version vs v)
unfolding put_entry insert_version
put_entry-entries [] v s h = refl
put_entry-entries (x ∷ vs) v s h = ground (
  arith,
  s.0.commit_ts_fits,
  h.commit_ts_fits,
  compare-encode_key x.key v.key x.commit_ts v.commit_ts,
  put_entry-entries vs v s.1,
  eq_of_compare_bytes x.key v.key,
)

-- The order of versions is transitive.
pub position_trans :
    (x y z : Version)
    → position x y.key y.commit_ts ≡ Ordering.lt
    → position y z.key z.commit_ts ≡ Ordering.lt
    → position x z.key z.commit_ts ≡ Ordering.lt
position_trans x y z p q = ground (
  arith,
  compare_bytes_trans x.key y.key z.key,
  eq_of_compare_bytes x.key y.key,
  eq_of_compare_bytes y.key z.key,
)

pub All-insert :
    (P : Version → Type 0) (vs : List Version) (v : Version)
    → P v
    → All P vs
    → All P (insert_version vs v)
unfolding insert_version
All-insert P [] v p h = (p, tt)
All-insert P (x ∷ vs) v p h = elim (Ordering-cases (position x v.key v.commit_ts)) [
  | inl lt ↦ rw (lt, insert_version) (h.0, All-insert P vs v p h.1)
  | inr (inl eq) ↦ rw (eq, insert_version) (p, h.1)
  | inr (inr gt) ↦ rw (gt, insert_version) (p, h)
]

-- A version stands behind everything in front of its place.
pub behind_new :
    (v x : Version) (vs : List Version)
    → position v x.key x.commit_ts ≡ Ordering.lt
    → All (λ w. position x w.key w.commit_ts ≡ Ordering.lt) vs
    → All (λ w. position v w.key w.commit_ts ≡ Ordering.lt) vs
behind_new v x [] p h = tt
behind_new v x (w ∷ vs) p h = (position_trans v x w p h.0, behind_new v x vs p h.1)

pub position-flip :
    (x v : Version)
    → position x v.key v.commit_ts ≡ Ordering.gt
    → position v x.key x.commit_ts ≡ Ordering.lt
position-flip x v p = ground (arith, compare_bytes-flip x.key v.key)

pub same_place :
    (x v : Version) (vs : List Version)
    → position x v.key v.commit_ts ≡ Ordering.eq
    → All (λ w. position x w.key w.commit_ts ≡ Ordering.lt) vs
    → All (λ w. position v w.key w.commit_ts ≡ Ordering.lt) vs
same_place x v [] p h = tt
same_place x v (w ∷ vs) p h =
    (ground (arith, eq_of_compare_bytes x.key v.key), same_place x v vs p h.1)

pub insert_version-IsSorted :
    (vs : List Version) (v : Version) → IsSorted vs → IsSorted (insert_version vs v)
unfolding insert_version
insert_version-IsSorted [] v s = (tt, tt)
insert_version-IsSorted (x ∷ vs) v s = elim (Ordering-cases (position x v.key v.commit_ts)) [
  | inl lt ↦
      rw (lt, insert_version)
        (
          All-insert (λ w. position x w.key w.commit_ts ≡ Ordering.lt) vs v lt s.0,
          insert_version-IsSorted vs v s.1,
        )
  | inr (inl eq) ↦ rw (eq, insert_version) (same_place x v vs eq s.0, s.1)
  | inr (inr gt) ↦
      let p = position-flip x v gt in rw (gt, insert_version) ((p, behind_new v x vs p s.0), s)
]

pub insert_version-IsStorable :
    (vs : List Version) (v : Version)
    → IsStorable v
    → All IsStorable vs
    → All IsStorable (insert_version vs v)
insert_version-IsStorable vs v h s = All-insert IsStorable vs v h s

-- A new version changes nothing for readers of other keys and for readers before its timestamp.
pub visible-insert_other :
    (vs : List Version) (v : Version) (key : List ℕ) (ts : ℕ)
    → (equal_bytes v.key key && leb v.commit_ts ts) ≡ false
    → visible_versions (insert_version vs v) key ts ≡ visible_versions vs key ts
unfolding insert_version visible_versions
visible-insert_other [] v key ts h = rw h
visible-insert_other (x ∷ vs) v key ts h = elim (Ordering-cases (position x v.key v.commit_ts)) [
  | inl lt ↦ rw (lt, insert_version) (ground (arith, visible-insert_other vs v key ts h))
  | inr (inl eq) ↦ rw (eq, insert_version) (ground (arith, eq_of_compare_bytes x.key v.key))
  | inr (inr gt) ↦ rw (gt, insert_version, h)
]

newest_here :
    (vs : List Version) (x v : Version) (ts : ℕ)
    → v.commit_ts ≤ ts
    → (equal_bytes x.key v.key && leb x.commit_ts ts) ≡ true
    → x.commit_ts < v.commit_ts
    → visible_versions (insert_version (x ∷ vs) v) v.key ts ≡ v ∷ visible_versions (x ∷ vs) v.key ts
unfolding insert_version visible_versions
newest_here vs x v ts le seen older = ground (arith, compare_bytes_self v.key)

-- A version that is newer than all that a reader of its key saw is the first that he sees.
pub visible-insert_newest :
    (vs : List Version) (v : Version) (ts : ℕ)
    → v.commit_ts ≤ ts
    → All (λ w. w.commit_ts < v.commit_ts) (visible_versions vs v.key ts)
    → visible_versions (insert_version vs v) v.key ts ≡ v ∷ visible_versions vs v.key ts
unfolding insert_version visible_versions
visible-insert_newest [] v ts le n = ground (arith, compare_bytes_self v.key)
visible-insert_newest (x ∷ vs) v ts le n =
    elim (Bool-cases (equal_bytes x.key v.key && leb x.commit_ts ts)) [
      | inl seen ↦ newest_here vs x v ts le seen (rw (seen, visible_versions) at n).0
      | inr unseen ↦
          let ih = visible-insert_newest vs v ts le (rw (unseen, visible_versions) at n) in
          elim (Ordering-cases (position x v.key v.commit_ts)) [
            | inl lt ↦ rw (lt, insert_version) (ground (arith, ih))
            | inr (inl eq) ↦
                absurd (ground (arith, eq_of_compare_bytes x.key v.key, compare_bytes_self v.key))
            | inr (inr gt) ↦ rw (gt, insert_version) (ground (arith, compare_bytes_self v.key))
          ]
    ]
