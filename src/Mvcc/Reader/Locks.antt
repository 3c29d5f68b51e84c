-- ===== src/Mvcc/Reader/Locks.antt =====
-- `LoadLock` after a lock has been written or removed.
use gookv.Prelude.{ℕ, ◌≡◌, refl, none, some, List, if◌then◌else◌, arith, ok}
use gookv.Prelude.Order.{equal_bytes}
use gookv.TxnTypes.Lock.{Lock, marshal}
use gookv.TxnTypes.Lock.RoundTrip.{IsValid, stored, unmarshal_lock-marshal}
use gookv.Mvcc.Key.{encode_lock_key}
use gookv.Mvcc.Key.Laws.{compare-encode_lock_key}
use gookv.Mvcc.Snapshot.{Snapshot}
use gookv.Mvcc.Txn.{cf_lock, put, delete}
use gookv.Mvcc.Txn.Apply.{apply, get-put_entry, get-delete_entry}
use gookv.Mvcc.Reader.{load_lock}

equal-encode_lock_key :
    (k j : List ℕ) → equal_bytes (encode_lock_key k) (encode_lock_key j) ≡ equal_bytes k j
equal-encode_lock_key k j = ground (arith, compare-encode_lock_key k j)

pub load_lock-put :
    (s : Snapshot) (key j : List ℕ) (lock : Lock)
    → IsValid lock
    → load_lock (apply s (put cf_lock (encode_lock_key key) (marshal lock))) j
      ≡ (if equal_bytes key j then ok (some (stored lock)) else load_lock s j)
unfolding load_lock apply
load_lock-put s key j lock v =
    rw (get-put_entry s.cf_lock (encode_lock_key key) (marshal lock) (encode_lock_key j), load_lock)
      (ground (arith, equal-encode_lock_key key j, unmarshal_lock-marshal lock v))

pub load_lock-delete :
    (s : Snapshot) (key j : List ℕ)
    → load_lock (apply s (delete cf_lock (encode_lock_key key))) j
      ≡ (if equal_bytes key j then ok none else load_lock s j)
unfolding load_lock apply
load_lock-delete s key j =
    rw (get-delete_entry s.cf_lock (encode_lock_key key) (encode_lock_key j), load_lock)
      (ground (arith, equal-encode_lock_key key j))

-- A write to another column family changes no lock.
pub load_lock-other_cf :
    (s t : Snapshot) (j : List ℕ) → t.cf_lock ≡ s.cf_lock → load_lock t j ≡ load_lock s j
unfolding load_lock
load_lock-other_cf s t j e = rw e refl
