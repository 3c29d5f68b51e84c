-- ===== src/Txn/AsyncCommit.antt =====
-- internal/storage/txn/async_commit.go: prewrite with async commit, its status check, and
-- the commit in one phase.
pub mod Laws
pub mod OnePc
use gookv.Prelude.{
  ℕ, zero, suc, ◌+◌, ◌*◌, ◌%◌, ◌^◌, Bool, true, false, not, ◌&&◌, ◌||◌, Option, none, some, List,
  [], ◌∷◌, map, length, leb, ltb, ◌==◌, if◌then◌else◌,
}
use gookv.Prelude.Int.{ℤ, pos, negsuc}
use mathlib.Core.Option
use gookv.Codec.Number.{u64_mod}
use gookv.TxnTypes.Timestamp.{ts_max}
use gookv.TxnTypes.Lock.{Lock}
use gookv.TxnTypes.Write.{
  Write, new_write, write_type_put, write_type_delete, write_type_lock, write_type_rollback,
}
use gookv.Mvcc.Snapshot.{Snapshot}
use gookv.Mvcc.Reader.{load_lock, seek_write, get_txn_commit_record}
use gookv.Mvcc.Txn.{MvccTxn, put_lock, put_write}
use gookv.Txn.Outcome.{
  Outcome, done, failed, TxnError, from, ◌>>=◌, ◌>>◌, key_is_locked, write_conflict,
}
use gookv.Txn.Actions.{
  PrewriteProps, MutationOp, op_put, op_delete, op_lock, Mutation, is_skipped, own_lock,
  check_newer, conflict_rounds, inline_value, put_large_value, prewrite_lock,
}

pub record AsyncCommitPrewriteProps : Type 0 where
  pub prewrite : PrewriteProps
  pub use_async_commit : Bool
  pub secondaries : List (List ℕ)
  pub max_commit_ts : ℕ

-- `max(start_ts + 1, max_commit_ts + 1)`; both sums wrap as a uint64.
unfoldable pub min_commit_ts : ℕ → ℕ → ℕ
min_commit_ts start_ts max_commit_ts =
    let least = (start_ts + 1) % u64_mod in
    let bound = (max_commit_ts + 1) % u64_mod in
    if ltb 0 max_commit_ts && ltb least bound then bound else least

unfoldable pub async_commit_lock : AsyncCommitPrewriteProps → Mutation → Lock
async_commit_lock props m =
    let lock = prewrite_lock props.prewrite m in
    if props.use_async_commit
    then record lock {
      use_async_commit = true;
      secondaries = if props.prewrite.is_primary then props.secondaries else lock.secondaries;
      min_commit_ts = min_commit_ts props.prewrite.start_ts props.max_commit_ts;
    }
    else lock

unfoldable pub async_commit_new :
    MvccTxn → Snapshot → AsyncCommitPrewriteProps → Mutation → Outcome MvccTxn
async_commit_new txn snapshot props m = do
  check_newer conflict_rounds snapshot m.key props.prewrite.start_ts ts_max
  done (put_large_value (put_lock txn m.key (async_commit_lock props m)) m props.prewrite.start_ts)

unfoldable pub prewrite_async_commit :
    MvccTxn → Snapshot → AsyncCommitPrewriteProps → Mutation → Outcome MvccTxn
prewrite_async_commit txn snapshot props m = do
  existing ← from (load_lock snapshot m.key)
  elim existing [
    | none ↦ async_commit_new txn snapshot props m
    | some lock ↦
        if lock.start_ts == props.prewrite.start_ts then done txn else failed key_is_locked
  ]

-- The timestamp at which the transaction is committed or will be, 0 for none.
unfoldable pub check_async_commit_status : Snapshot → List ℕ → ℕ → Outcome ℕ
check_async_commit_status snapshot primary_key start_ts = do
  lock ← from (load_lock snapshot primary_key)
  elim (own_lock lock start_ts) [
    | some l ↦ done (if not l.use_async_commit then 0 else l.min_commit_ts)
    | none ↦ (do
      found ← from (get_txn_commit_record snapshot primary_key start_ts)
      elim found [
        | none ↦ done 0
        | some (w, commit_ts) ↦
            done (if not (w.write_type == write_type_rollback) then commit_ts else 0)
      ])
  ]

pub record OnePcProps : Type 0 where
  pub start_ts : ℕ
  pub commit_ts : ℕ
  pub primary : List ℕ
  pub lock_ttl : ℕ

unfoldable pub mutation_op_to_write_type : MutationOp → ℕ
mutation_op_to_write_type op_put = write_type_put
mutation_op_to_write_type op_delete = write_type_delete
mutation_op_to_write_type op_lock = write_type_lock

-- The check of the newest record alone, which the one-phase commit and the pessimistic actions
-- make: the record conflicts if it is newer than `ts` and no lock or rollback record.
unfoldable pub check_newest : Snapshot → List ℕ → ℕ → Outcome (Unit {0})
check_newest snapshot key ts = do
  found ← from (seek_write snapshot key ts_max)
  elim found [
    | none ↦ done tt
    | some (w, commit_ts) ↦
        if ltb ts commit_ts && not (is_skipped w) then failed write_conflict else done tt
  ]

-- The lock check of the one-phase commit: the transaction's own lock does not stop it.
unfoldable pub check_1pc : Snapshot → OnePcProps → Mutation → Outcome (Unit {0})
check_1pc snapshot props m = do
  existing ← from (load_lock snapshot m.key)
  elim existing [
    | none ↦ check_newest snapshot m.key props.start_ts
    | some lock ↦
        if not (lock.start_ts == props.start_ts)
        then failed key_is_locked
        else check_newest snapshot m.key props.start_ts
  ]

unfoldable pub error_of : Outcome (Unit {0}) → Option TxnError
error_of (done _) = none
error_of (failed e) = some e

unfoldable pub any_error : List (Option TxnError) → Bool
any_error [] = false
any_error (some e ∷ es) = true
any_error (none ∷ es) = any_error es

unfoldable pub one_pc_write : OnePcProps → Mutation → Write
one_pc_write props m = record (new_write (mutation_op_to_write_type m.op) props.start_ts) {
  short_value = inline_value m.value;
}

unfoldable pub commit_1pc : MvccTxn → OnePcProps → List Mutation → MvccTxn
commit_1pc txn props [] = txn
commit_1pc txn props (m ∷ ms) =
    commit_1pc
      (put_write (put_large_value txn m props.start_ts) m.key props.commit_ts
        (one_pc_write props m))
      props ms

unfoldable pub prewrite_and_commit_1pc :
    MvccTxn → Snapshot → OnePcProps → List Mutation → List (Option TxnError) × MvccTxn
prewrite_and_commit_1pc txn snapshot props mutations =
    let errs = map (λ m. error_of (check_1pc snapshot props m)) mutations in
    (errs, if any_error errs then txn else commit_1pc txn props mutations)

-- A limit of the caller's, or the default where it gives none.
unfoldable pub limit_or : ℤ → ℕ → ℕ
limit_or (pos zero) default = default
limit_or (pos (suc n)) default = suc n
limit_or (negsuc n) default = default

unfoldable pub total_size : List Mutation → ℕ
total_size [] = 0
total_size (m ∷ ms) = length m.key + length (Option.get_or m.value []) + total_size ms

unfoldable pub is_1pc_eligible : List Mutation → ℤ → Bool
is_1pc_eligible [] max_size = false
is_1pc_eligible (m ∷ ms) max_size =
    if ltb (limit_or max_size 64) (length (m ∷ ms))
    then false
    else ltb (total_size (m ∷ ms)) (256 * 1024)

unfoldable pub is_async_commit_eligible : List Mutation → ℤ → Bool
is_async_commit_eligible [] max_keys = false
is_async_commit_eligible (m ∷ ms) max_keys = leb (length (m ∷ ms)) (limit_or max_keys 256)
