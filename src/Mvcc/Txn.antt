-- ===== src/Mvcc/Txn.antt =====
-- internal/storage/mvcc/txn.go: the accumulator of modifications, and what applying them does to the
-- entries of a snapshot.
pub mod Apply
use gookv.Prelude.{ℕ, ◌+◌, Bool, true, false, List, [], ◌∷◌, ◌++◌, length, if◌then◌else◌}
use gookv.TxnTypes.Lock
use gookv.TxnTypes.Lock.{Lock}
use gookv.TxnTypes.Write
use gookv.TxnTypes.Write.{Write}
use gookv.Mvcc.Key.{encode_key, encode_lock_key}

-- pkg/cfnames
pub data Cf : Type 0 where
  cf_default cf_lock cf_write : Cf

-- `ModifyTypePut` and `ModifyTypeDelete`; no operation of the accumulator builds a
-- `ModifyTypeDeleteRange`.
pub data Modify : Type 0 where
  put : Cf → List ℕ → List ℕ → Modify
  delete : Cf → List ℕ → Modify

pub record MvccTxn : Type 0 where
  pub start_ts : ℕ
  pub modifies : List Modify
  pub write_size : ℕ

pub record ReleasedLock : Type 0 where
  pub key : List ℕ
  pub start_ts : ℕ
  pub is_pessimistic : Bool

unfoldable pub new_mvcc_txn : ℕ → MvccTxn
new_mvcc_txn ts = record { start_ts = ts; modifies = []; write_size = 0 }

abbrev push : MvccTxn → Modify → ℕ → MvccTxn
push txn m size = record txn {
  modifies = txn.modifies ++ (m ∷ []);
  write_size = txn.write_size + size;
}

unfoldable pub put_lock : MvccTxn → List ℕ → Lock → MvccTxn
put_lock txn key lock =
    let lock_data = Lock.marshal lock in
    push txn (put cf_lock (encode_lock_key key) lock_data) (length key + length lock_data)

unfoldable pub unlock_key : MvccTxn → List ℕ → Bool → MvccTxn × ReleasedLock
unlock_key txn key is_pessimistic = (
  push txn (delete cf_lock (encode_lock_key key)) 0,
  record { key = key; start_ts = txn.start_ts; is_pessimistic = is_pessimistic },
)

unfoldable pub put_value : MvccTxn → List ℕ → ℕ → List ℕ → MvccTxn
put_value txn key start_ts value =
    push txn (put cf_default (encode_key key start_ts) value) (length key + length value + 8)

unfoldable pub delete_value : MvccTxn → List ℕ → ℕ → MvccTxn
delete_value txn key start_ts = push txn (delete cf_default (encode_key key start_ts)) 0

unfoldable pub put_write : MvccTxn → List ℕ → ℕ → Write → MvccTxn
put_write txn key commit_ts write =
    let write_data = Write.marshal write in
    push txn (put cf_write (encode_key key commit_ts) write_data)
      (length key + length write_data + 8)

unfoldable pub delete_write : MvccTxn → List ℕ → ℕ → MvccTxn
delete_write txn key commit_ts = push txn (delete cf_write (encode_key key commit_ts)) 0

unfoldable pub modify_count : MvccTxn → ℕ
modify_count txn = length txn.modifies
