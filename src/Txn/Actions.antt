-- ===== src/Txn/Actions.antt =====
-- internal/storage/txn/actions.go: the two phases of a commit, rollback, each on one
-- key. The tracing behind GOOKV_TRACE_PREWRITE is not modelled.
pub mod Conflicts
pub mod Lifecycle
pub mod Isolation
pub mod Prewritten
pub mod Committed
pub mod ReadBack
pub mod LatePrewrite
pub mod RolledBack
use gookv.Prelude.{
  ℕ, zero, suc, ◌+◌, ◌*◌, ◌%◌, ◌/◌, ◌^◌, Bool, true, false, not, ◌&&◌, ◌||◌, Option, none, some,
  List, [], ◌∷◌, length, leb, ltb, ◌==◌, if◌then◌else◌,
}
use gookv.Codec.Number.{u64_mod}
use gookv.TxnTypes.Timestamp.{ts_max, prev, physical}
use gookv.TxnTypes.Lock.{
  Lock, new_lock, lock_type_put, lock_type_delete, lock_type_lock, lock_type_pessimistic,
}
use gookv.TxnTypes.Write.{
  Write, new_write, short_value_max_len, write_type_put, write_type_delete, write_type_lock,
  write_type_rollback,
}
use gookv.Mvcc.Key.{seek_bound}
use gookv.Mvcc.Snapshot.{Snapshot}
use gookv.Mvcc.Reader.{load_lock, seek_write, get_txn_commit_record}
use gookv.Mvcc.Txn.{MvccTxn, put_lock, unlock_key, put_value, delete_value, put_write}
use gookv.Txn.Outcome.{
  Outcome, done, failed, from, ◌>>=◌, ◌>>◌, key_locked, write_conflict, txn_lock_not_found,
  already_committed, commit_ts_less_than_min_commit_ts,
}

pub record PrewriteProps : Type 0 where
  pub start_ts : ℕ
  pub primary : List ℕ
  pub lock_ttl : ℕ
  pub is_primary : Bool

pub data MutationOp : Type 0 where
  op_put op_delete op_lock : MutationOp

pub record Mutation : Type 0 where
  pub op : MutationOp
  pub key : List ℕ
  pub value : Option (List ℕ)

unfoldable pub mutation_op_to_lock_type : MutationOp → ℕ
mutation_op_to_lock_type op_put = lock_type_put
mutation_op_to_lock_type op_delete = lock_type_delete
mutation_op_to_lock_type op_lock = lock_type_lock

unfoldable pub lock_type_to_write_type : ℕ → ℕ
lock_type_to_write_type lt =
    if lt == lock_type_put
    then write_type_put
    else if lt == lock_type_delete
    then write_type_delete
    else if lt == lock_type_lock
    then write_type_lock
    else write_type_put

-- The lock, if it belongs to the transaction.
abbrev pub own_lock : Option Lock → ℕ → Option Lock
own_lock none start_ts = none
own_lock (some lock) start_ts = if lock.start_ts == start_ts then some lock else none

-- A record that makes no difference to a newer transaction.
abbrev pub is_skipped : Write → Bool
is_skipped w = w.write_type == write_type_rollback || w.write_type == write_type_lock

-- The loop over newer records, in Prewrite and in PrewriteAsyncCommit: at most
-- `SeekBound * 2` rounds, and no conflict if they run out. `older` is the rest of the loop, from a
-- timestamp on.
unfoldable pub judge : (ℕ → Outcome (Unit {0})) → ℕ → Option (Write × ℕ) → Outcome (Unit {0})
judge older start_ts none = done tt
judge older start_ts (some (w, commit_ts)) =
    if leb commit_ts start_ts
    then done tt
    else if is_skipped w
    then older (prev commit_ts)
    else failed write_conflict

unfoldable pub check_newer : ℕ → Snapshot → List ℕ → ℕ → ℕ → Outcome (Unit {0})
check_newer zero snapshot key start_ts seek_ts = done tt
check_newer (suc rounds) snapshot key start_ts seek_ts = do
  found ← from (seek_write snapshot key seek_ts)
  judge (check_newer rounds snapshot key start_ts) start_ts found

abbrev pub conflict_rounds : ℕ
conflict_rounds = seek_bound * 2

-- `mutation.Value != nil && len(mutation.Value) <= ShortValueMaxLen`
unfoldable pub inline_value : Option (List ℕ) → Option (List ℕ)
inline_value none = none
inline_value (some v) = if leb (length v) short_value_max_len then some v else none

-- The large value of a put goes to CF_DEFAULT.
unfoldable pub put_large_value : MvccTxn → Mutation → ℕ → MvccTxn
put_large_value txn m start_ts = elim m.op [
  | op_put ↦ elim m.value [
    | none ↦ txn
    | some v ↦ if ltb short_value_max_len (length v) then put_value txn m.key start_ts v else txn
  ]
  | op_delete ↦ txn
  | op_lock ↦ txn
]

unfoldable pub prewrite_lock : PrewriteProps → Mutation → Lock
prewrite_lock props m =
    record (new_lock (mutation_op_to_lock_type m.op) props.primary props.start_ts props.lock_ttl) {
      short_value = inline_value m.value;
    }

unfoldable pub prewrite_new : MvccTxn → Snapshot → PrewriteProps → Mutation → Outcome MvccTxn
prewrite_new txn snapshot props m = do
  check_newer conflict_rounds snapshot m.key props.start_ts ts_max
  done (put_large_value (put_lock txn m.key (prewrite_lock props m)) m props.start_ts)

unfoldable pub prewrite : MvccTxn → Snapshot → PrewriteProps → Mutation → Outcome MvccTxn
prewrite txn snapshot props m = do
  existing ← from (load_lock snapshot m.key)
  elim existing [
    | none ↦ prewrite_new txn snapshot props m
    | some lock ↦
        if lock.start_ts == props.start_ts then done txn else failed (key_locked m.key lock)
  ]

-- What `Commit` does with the lock that it has found.
unfoldable pub commit_lock : MvccTxn → List ℕ → ℕ → Lock → Outcome MvccTxn
commit_lock txn key commit_ts lock =
    if ltb commit_ts lock.min_commit_ts
    then failed commit_ts_less_than_min_commit_ts
    else if lock.lock_type == lock_type_pessimistic
    then done (unlock_key txn key true).0
    else done (
        put_write (unlock_key txn key false).0 key commit_ts
          (record (new_write (lock_type_to_write_type lock.lock_type) lock.start_ts) {
            short_value = lock.short_value;
          }))

unfoldable pub commit : MvccTxn → Snapshot → List ℕ → ℕ → ℕ → Outcome MvccTxn
commit txn snapshot key start_ts commit_ts = do
  existing ← from (load_lock snapshot key)
  elim existing [
    | none ↦ failed txn_lock_not_found
    | some lock ↦
        if lock.start_ts == start_ts
        then commit_lock txn key commit_ts lock
        else failed txn_lock_not_found
  ]

-- The lock goes, and the value that its prewrite put into CF_DEFAULT.
unfoldable pub remove_lock : MvccTxn → List ℕ → ℕ → Lock → MvccTxn
remove_lock txn key start_ts lock =
    let unlocked = (unlock_key txn key (lock.lock_type == lock_type_pessimistic)).0 in
    elim lock.short_value [
      | some v ↦ unlocked
      | none ↦
          if lock.lock_type == lock_type_put then delete_value unlocked key start_ts else unlocked
    ]

unfoldable pub put_rollback : MvccTxn → List ℕ → ℕ → MvccTxn
put_rollback txn key start_ts = put_write txn key start_ts (new_write write_type_rollback start_ts)

unfoldable pub rollback_lock : MvccTxn → List ℕ → ℕ → Option Lock → MvccTxn
rollback_lock txn key start_ts none = put_rollback txn key start_ts
rollback_lock txn key start_ts (some lock) =
    if lock.start_ts == start_ts
    then put_rollback (remove_lock txn key start_ts lock) key start_ts
    else put_rollback txn key start_ts

unfoldable pub rollback : MvccTxn → Snapshot → List ℕ → ℕ → Outcome MvccTxn
rollback txn snapshot key start_ts = do
  found ← from (get_txn_commit_record snapshot key start_ts)
  elim found [
    | some (w, _) ↦
        if w.write_type == write_type_rollback then done txn else failed already_committed
    | none ↦ (do lock ← from (load_lock snapshot key); done (rollback_lock txn key start_ts lock))
  ]
