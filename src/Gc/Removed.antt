-- ===== src/Gc/Removed.antt =====
-- Deleting entries of CF_WRITE that hold versions.
use gookv.Prelude.{
  ℕ, ◌≡◌, refl, ap, true, false, ◌&&◌, List, [], ◌∷◌, ◌++◌, map, ◌==◌, if◌then◌else◌, arith,
  Ordering, All, All-append_right, Bool-cases, inl, inr,
}
use gookv.Prelude.Order.{equal_bytes, eq_of_equal_bytes, compare_bytes_self}
use gookv.Codec.Number.{IsU64}
use gookv.Mvcc.Key.{encode_key}
use gookv.Mvcc.Key.Laws.{compare-encode_key}
use gookv.Mvcc.Txn.Apply.{delete_entry}
use gookv.Mvcc.Versions.{Version, entry, position, IsStorable, IsSorted}

-- The versions without the one at a key and a timestamp.
unfoldable pub remove_version : List Version → List ℕ → ℕ → List Version
remove_version [] key ts = []
remove_version (v ∷ vs) key ts =
    let rest = remove_version vs key ts in
    if equal_bytes v.key key && v.commit_ts == ts then rest else v ∷ rest

pub delete_entry-entries :
    (vs : List Version) (key : List ℕ) (ts : ℕ)
    → IsU64 ts
    → All IsStorable vs
    → delete_entry (map entry vs) (encode_key key ts) ≡ map entry (remove_version vs key ts)
unfolding delete_entry remove_version
delete_entry-entries [] key ts f s = refl
delete_entry-entries (v ∷ vs) key ts f s = ground (
  arith,
  compare-encode_key v.key key v.commit_ts ts s.0.commit_ts_fits f,
  delete_entry-entries vs key ts f s.1,
)

remove-behind :
    (v : Version) (vs : List Version)
    → All (λ w. position v w.key w.commit_ts ≡ Ordering.lt) vs
    → remove_version vs v.key v.commit_ts ≡ vs
unfolding remove_version
remove-behind v [] s = refl
remove-behind v (w ∷ vs) s =
    let kept : (equal_bytes w.key v.key && w.commit_ts == v.commit_ts) ≡ false =
      ground (arith, eq_of_equal_bytes w.key v.key, compare_bytes_self v.key) in
    rw kept (ap (◌∷◌ w) (remove-behind v vs s.1))

-- Removing a version of a sorted list takes out this version alone.
pub remove-middle :
    (front : List Version) (v : Version) (vs : List Version)
    → IsSorted (front ++ (v ∷ vs))
    → remove_version (front ++ (v ∷ vs)) v.key v.commit_ts ≡ front ++ vs
unfolding remove_version
remove-middle [] v vs s =
    let here : (equal_bytes v.key v.key && v.commit_ts == v.commit_ts) ≡ true =
      ground (arith, compare_bytes_self v.key) in
    rw here (remove-behind v vs s.0)
remove-middle (x ∷ front) v vs s =
    let kept : (equal_bytes x.key v.key && x.commit_ts == v.commit_ts) ≡ false =
      let first = (All-append_right _ front (v ∷ vs) s.0).0 in ground arith in
    rw kept (ap (◌∷◌ x) (remove-middle front v vs s.1))

pub remove_version-All :
    (P : Version → Type 0) (vs : List Version) (key : List ℕ) (ts : ℕ)
    → All P vs
    → All P (remove_version vs key ts)
unfolding remove_version
remove_version-All P [] key ts a = tt
remove_version-All P (v ∷ vs) key ts a =
    elim (Bool-cases (equal_bytes v.key key && v.commit_ts == ts)) [
      | inl gone ↦ rw (gone, remove_version) (remove_version-All P vs key ts a.1)
      | inr kept ↦ rw (kept, remove_version) (a.0, remove_version-All P vs key ts a.1)
    ]

pub remove_version-IsSorted :
    (vs : List Version) (key : List ℕ) (ts : ℕ) → IsSorted vs → IsSorted (remove_version vs key ts)
unfolding remove_version
remove_version-IsSorted [] key ts s = tt
remove_version-IsSorted (v ∷ vs) key ts s =
    elim (Bool-cases (equal_bytes v.key key && v.commit_ts == ts)) [
      | inl gone ↦ rw (gone, remove_version) (remove_version-IsSorted vs key ts s.1)
      | inr kept ↦
          rw (kept, remove_version)
            (remove_version-All _ vs key ts s.0, remove_version-IsSorted vs key ts s.1)
    ]
