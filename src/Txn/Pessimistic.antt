-- ===== src/Txn/Pessimistic.antt =====
-- internal/storage/txn/pessimistic.go: locks that a transaction takes before its prewrite.
pub mod Laws
pub mod Released
use gookv.Prelude.{
  ℕ, Bool, true, false, not, ◌&&◌, ◌||◌, Option, none, some, List, [], ◌∷◌, ltb, ◌==◌,
  if◌then◌else◌,
}
use gookv.TxnTypes.Lock.{Lock, new_lock, lock_type_pessimistic}
use gookv.Mvcc.Snapshot.{Snapshot}
use gookv.Mvcc.Reader.{load_lock}
use gookv.Mvcc.Txn.{MvccTxn, put_lock, unlock_key}
use gookv.Txn.Outcome.{
  Outcome, done, failed, TxnError, from, ◌>>=◌, ◌>>◌, key_is_locked, txn_lock_not_found,
}
use gookv.Txn.Actions.{
  PrewriteProps, Mutation, own_lock, inline_value, prewrite_lock, put_large_value,
}
use gookv.Txn.AsyncCommit.{check_newest}

pub record PessimisticLockProps : Type 0 where
  pub start_ts : ℕ
  pub for_update_ts : ℕ
  pub primary : List ℕ
  pub lock_ttl : ℕ
  pub wait_timeout : ℕ

unfoldable pub pessimistic_lock : PessimisticLockProps → Lock
pessimistic_lock props =
    record (new_lock lock_type_pessimistic props.primary props.start_ts props.lock_ttl) {
      for_update_ts = props.for_update_ts;
    }

-- The transaction's own lock: a pessimistic one takes the greater `for_update_ts`.
unfoldable pub refresh_lock : MvccTxn → PessimisticLockProps → List ℕ → Lock → MvccTxn
refresh_lock txn props key lock =
    if lock.lock_type == lock_type_pessimistic && ltb lock.for_update_ts props.for_update_ts
    then put_lock txn key (record lock { for_update_ts = props.for_update_ts })
    else txn

unfoldable pub acquire_new : MvccTxn → Snapshot → PessimisticLockProps → List ℕ → Outcome MvccTxn
acquire_new txn snapshot props key = do
  check_newest snapshot key props.for_update_ts
  done (put_lock txn key (pessimistic_lock props))

unfoldable pub acquire_pessimistic_lock :
    MvccTxn → Snapshot → PessimisticLockProps → List ℕ → Outcome MvccTxn
acquire_pessimistic_lock txn snapshot props key = do
  existing ← from (load_lock snapshot key)
  elim existing [
    | none ↦ acquire_new txn snapshot props key
    | some lock ↦
        if lock.start_ts == props.start_ts
        then done (refresh_lock txn props key lock)
        else failed key_is_locked
  ]

pub record PessimisticPrewriteProps : Type 0 where
  pub prewrite : PrewriteProps
  pub for_update_ts : ℕ
  pub is_pessimistic : Bool

unfoldable pub pessimistic_prewrite_lock : PessimisticPrewriteProps → Mutation → Lock
pessimistic_prewrite_lock props m = record (prewrite_lock props.prewrite m) {
  for_update_ts = props.for_update_ts;
}

unfoldable pub write_lock : MvccTxn → PessimisticPrewriteProps → Mutation → MvccTxn
write_lock txn props m =
    put_large_value (put_lock txn m.key (pessimistic_prewrite_lock props m)) m
      props.prewrite.start_ts

-- A prewrite that finds no lock.
unfoldable pub prewrite_unlocked :
    MvccTxn → Snapshot → PessimisticPrewriteProps → Mutation → Outcome MvccTxn
prewrite_unlocked txn snapshot props m =
    if props.is_pessimistic
    then failed txn_lock_not_found
    else check_newest snapshot m.key props.prewrite.start_ts >> done (write_lock txn props m)

unfoldable pub prewrite_pessimistic :
    MvccTxn → Snapshot → PessimisticPrewriteProps → Mutation → Outcome MvccTxn
prewrite_pessimistic txn snapshot props m = do
  existing ← from (load_lock snapshot m.key)
  elim existing [
    | none ↦ prewrite_unlocked txn snapshot props m
    | some lock ↦
        if not (lock.start_ts == props.prewrite.start_ts)
        then failed key_is_locked
        else if not (lock.lock_type == lock_type_pessimistic)
        then done txn
        else done (write_lock (unlock_key txn m.key true).0 props m)
  ]

-- Whether a rollback at `for_update_ts` (0 for any) removes the lock.
unfoldable pub should_roll_back : Option Lock → ℕ → ℕ → Bool
should_roll_back none start_ts for_update_ts = false
should_roll_back (some lock) start_ts for_update_ts =
    lock.start_ts == start_ts
    && (lock.lock_type == lock_type_pessimistic)
    && ((for_update_ts == 0) || lock.for_update_ts == for_update_ts)

-- One key of the loop, with its error.
unfoldable pub pessimistic_rollback_key :
    MvccTxn → Snapshot → List ℕ → ℕ → ℕ → Option TxnError × MvccTxn
pessimistic_rollback_key txn snapshot key start_ts for_update_ts =
    elim (from (load_lock snapshot key)) [
      | failed e ↦ (some e, txn)
      | done lock ↦ (
        none,
        if should_roll_back lock start_ts for_update_ts then (unlock_key txn key true).0 else txn,
      )
    ]

unfoldable pub pessimistic_rollback :
    MvccTxn → Snapshot → List (List ℕ) → ℕ → ℕ → List (Option TxnError) × MvccTxn
pessimistic_rollback txn snapshot [] start_ts for_update_ts = ([], txn)
pessimistic_rollback txn snapshot (key ∷ keys) start_ts for_update_ts =
    let first = pessimistic_rollback_key txn snapshot key start_ts for_update_ts in
    let rest = pessimistic_rollback first.1 snapshot keys start_ts for_update_ts in
    (first.0 ∷ rest.0, rest.1)
