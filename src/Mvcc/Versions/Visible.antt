-- ===== src/Mvcc/Versions/Visible.antt =====
-- The versions of a key that a timestamp can see, and the one that a read finds among them.
use gookv.Prelude.{
  ℕ, ◌≤◌, ◌≡◌, refl, ◌&&◌, ◌||◌, Option, none, some, List, [], ◌∷◌, leb, ◌==◌, if◌then◌else◌, arith,
  Ordering, All, Bool-cases, inl, inr,
}
use gookv.Prelude.Order.{
  compare_bytes, equal_bytes, eq_of_equal_bytes, eq_of_compare_bytes, compare_bytes_self,
  compare_bytes-flip,
}
use gookv.TxnTypes.Write.{
  Write, write_type_put, write_type_delete, write_type_lock, write_type_rollback,
}
use gookv.Mvcc.Versions.{Version, position, precedes, IsSorted, versions_from}

-- Newest first, as the list of all versions is sorted.
unfoldable pub visible_versions : List Version → List ℕ → ℕ → List Version
visible_versions [] key ts = []
visible_versions (v ∷ vs) key ts =
    let rest = visible_versions vs key ts in
    if equal_bytes v.key key && leb v.commit_ts ts then v ∷ rest else rest

-- The newest version that is no lock or rollback record, if it is a put.
unfoldable pub latest_put : List Version → Option (Write × ℕ)
latest_put [] = none
latest_put (v ∷ vs) =
    let older = latest_put vs in
    if v.write.write_type == write_type_put
    then some (v.write, v.commit_ts)
    else if v.write.write_type == write_type_delete
    then none
    else if v.write.write_type == write_type_lock || v.write.write_type == write_type_rollback
    then older
    else none

-- The versions of the key at the front of a list.
unfoldable pub run_of_key : List Version → List ℕ → List Version
run_of_key [] key = []
run_of_key (v ∷ vs) key =
    let rest = run_of_key vs key in if equal_bytes v.key key then v ∷ rest else []

pub none-visible :
    (v : Version) (vs : List Version) (key : List ℕ) (ts : ℕ)
    → All (λ w. position v w.key w.commit_ts ≡ Ordering.lt) vs
    → compare_bytes v.key key ≡ Ordering.gt
    → visible_versions vs key ts ≡ []
unfolding visible_versions
none-visible v [] key ts s h = refl
none-visible v (w ∷ vs) key ts s h =
    ground (arith, none-visible v vs key ts s.1, eq_of_compare_bytes w.key key)

-- At the front of a list whose versions of the key are all visible, the run is what is visible.
run-visible :
    (vs : List Version) (key : List ℕ) (ts : ℕ)
    → IsSorted vs
    → (head : Version) → All (λ w. position head w.key w.commit_ts ≡ Ordering.lt) vs
    → head.key ≡ key
    → head.commit_ts ≤ ts
    → run_of_key vs key ≡ visible_versions vs key ts
unfolding run_of_key visible_versions
run-visible [] key ts s head b k le = refl
run-visible (v ∷ vs) key ts s head b k le = ground (
  arith,
  run-visible vs key ts s.1 head b.1 k le,
  none-visible v vs key ts s.0,
  compare_bytes-flip head.key v.key,
)

pub run-versions_from :
    (vs : List Version) (key : List ℕ) (ts : ℕ)
    → IsSorted vs
    → run_of_key (versions_from vs key ts) key ≡ visible_versions vs key ts
unfolding run_of_key visible_versions versions_from
run-versions_from [] key ts s = refl
run-versions_from (v ∷ vs) key ts s = elim (Bool-cases (precedes v key ts)) [
  | inl d ↦
      rw (d, versions_from)
        (ground (arith, run-versions_from vs key ts s.1, compare_bytes_self v.key))
  | inr d ↦
      rw (d, versions_from)
        (elim (Bool-cases (equal_bytes v.key key)) [
          | inl same ↦
              let k = eq_of_equal_bytes v.key key same in
              ground (arith, run-visible vs key ts s.1 v s.0 k, compare_bytes_self key)
          | inr other ↦ ground (arith, none-visible v vs key ts s.0)
        ])
]
