-- ===== src/Mvcc/Txn/Apply.antt =====
-- The atomic write batch: what the modifications of a transaction do to the sorted entries.
use gookv.Prelude.{ℕ, ◌≡◌, refl, none, some, List, [], ◌∷◌, ◌++◌, Ordering, if◌then◌else◌, arith}
use gookv.Prelude.Order.{compare_bytes, equal_bytes, eq_of_compare_bytes, compare_bytes_self}
use gookv.Mvcc.Snapshot.{Entries, Snapshot, get}
use gookv.Mvcc.Txn.{cf_default, cf_lock, cf_write, Modify, put, delete}

unfoldable pub put_entry : Entries → List ℕ → List ℕ → Entries
put_entry [] key value = (key, value) ∷ []
put_entry ((k, v) ∷ rest) key value = elim (compare_bytes k key) [
  | Ordering.lt ↦ (k, v) ∷ put_entry rest key value
  | Ordering.eq ↦ (key, value) ∷ rest
  | Ordering.gt ↦ (key, value) ∷ (k, v) ∷ rest
]

unfoldable pub delete_entry : Entries → List ℕ → Entries
delete_entry [] key = []
delete_entry ((k, v) ∷ rest) key =
    let rest' = delete_entry rest key in if equal_bytes k key then rest' else (k, v) ∷ rest'

unfoldable pub apply : Snapshot → Modify → Snapshot
apply s (put cf_default k v) = record s { cf_default = put_entry s.cf_default k v }
apply s (put cf_lock k v) = record s { cf_lock = put_entry s.cf_lock k v }
apply s (put cf_write k v) = record s { cf_write = put_entry s.cf_write k v }
apply s (delete cf_default k) = record s { cf_default = delete_entry s.cf_default k }
apply s (delete cf_lock k) = record s { cf_lock = delete_entry s.cf_lock k }
apply s (delete cf_write k) = record s { cf_write = delete_entry s.cf_write k }

unfoldable pub apply_all : Snapshot → List Modify → Snapshot
apply_all s [] = s
apply_all s (m ∷ ms) = apply_all (apply s m) ms

pub get-put_entry :
    (es : Entries) (key value j : List ℕ)
    → get (put_entry es key value) j ≡ (if equal_bytes key j then some value else get es j)
unfolding get put_entry
get-put_entry [] key value j = refl
get-put_entry ((k, v) ∷ rest) key value j = ground (
  arith,
  get-put_entry rest key value j,
  eq_of_compare_bytes k key,
  eq_of_compare_bytes k j,
  eq_of_compare_bytes key j,
  compare_bytes_self k,
  compare_bytes_self key,
)

pub get-delete_entry :
    (es : Entries) (key j : List ℕ)
    → get (delete_entry es key) j ≡ (if equal_bytes key j then none else get es j)
unfolding get delete_entry
get-delete_entry [] key j = ground arith
get-delete_entry ((k, v) ∷ rest) key j = ground (
  arith,
  get-delete_entry rest key j,
  eq_of_compare_bytes k key,
  eq_of_compare_bytes k j,
  eq_of_compare_bytes key j,
  compare_bytes_self k,
  compare_bytes_self key,
)

pub apply_all-snoc :
    (s : Snapshot) (ms : List Modify) (m : Modify)
    → apply_all s (ms ++ (m ∷ [])) ≡ apply (apply_all s ms) m
unfolding apply_all
apply_all-snoc s [] m = refl
apply_all-snoc s (x ∷ ms) m = apply_all-snoc (apply s x) ms m
