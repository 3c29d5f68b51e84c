-- ===== src/Txn/Status.antt =====
-- internal/storage/txn/actions.go: the status of a transaction by its primary key, heartbeats, and
-- the resolution of locks that were left behind.
pub mod Laws
pub mod Cleanup
use gookv.Prelude.{
  ℕ, ◌+◌, ◌%◌, ◌/◌, ◌^◌, Bool, true, false, Option, none, some, List, leb, ltb, ◌==◌, if◌then◌else◌,
}
use gookv.Codec.Number.{u64_mod}
use gookv.TxnTypes.Lock.{Lock}
use gookv.TxnTypes.Write.{Write, write_type_rollback}
use gookv.Mvcc.Snapshot.{Snapshot}
use gookv.Mvcc.Reader.{load_lock, get_txn_commit_record}
use gookv.Mvcc.Txn.{MvccTxn, put_lock}
use gookv.Txn.Outcome.{Outcome, done, failed, from, ◌>>=◌, txn_lock_not_found}
use gookv.Txn.Actions.{own_lock, put_rollback, remove_lock, commit, rollback}

pub record TxnStatus : Type 0 where
  pub is_locked : Bool
  pub lock : Option Lock
  pub commit_ts : ℕ
  pub is_rolled_back : Bool

abbrev pub status_locked : Lock → TxnStatus
status_locked lock = record {
  is_locked = true;
  lock = some lock;
  commit_ts = 0;
  is_rolled_back = false;
}

abbrev pub status_committed : ℕ → TxnStatus
status_committed ts = record {
  is_locked = false;
  lock = none;
  commit_ts = ts;
  is_rolled_back = false;
}

abbrev pub status_rolled_back : TxnStatus
status_rolled_back = record { is_locked = false; lock = none; commit_ts = 0; is_rolled_back = true }

abbrev pub status_unknown : TxnStatus
status_unknown = record { is_locked = false; lock = none; commit_ts = 0; is_rolled_back = false }

-- The status that a commit or rollback record gives.
abbrev pub recorded_status : Write → ℕ → TxnStatus
recorded_status w commit_ts =
    if w.write_type == write_type_rollback then status_rolled_back else status_committed commit_ts

unfoldable pub check_txn_status : Snapshot → List ℕ → ℕ → Outcome TxnStatus
check_txn_status snapshot primary_key start_ts = do
  lock ← from (load_lock snapshot primary_key)
  elim (own_lock lock start_ts) [
    | some l ↦ done (status_locked l)
    | none ↦ (do
      found ← from (get_txn_commit_record snapshot primary_key start_ts)
      elim found [
        | some (w, commit_ts) ↦ done (recorded_status w commit_ts)
        | none ↦ done status_unknown
      ])
  ]

-- `lockPhysicalTime + lock.TTL` wraps as a uint64.
unfoldable pub has_expired : Lock → ℕ → ℕ → Bool
has_expired lock start_ts caller_start_ts =
    leb ((start_ts / 2 ^ 18 + lock.ttl) % u64_mod) (caller_start_ts / 2 ^ 18)

unfoldable pub check_txn_status_with_cleanup :
    MvccTxn → Snapshot → List ℕ → ℕ → ℕ → Bool → Outcome (TxnStatus × MvccTxn)
check_txn_status_with_cleanup txn snapshot primary_key start_ts caller_start_ts
      rollback_if_not_exist =
    do
      lock ← from (load_lock snapshot primary_key)
      elim (own_lock lock start_ts) [
        | some l ↦
            if has_expired l start_ts caller_start_ts
            then done (
              status_rolled_back,
              put_rollback (remove_lock txn primary_key start_ts l) primary_key start_ts,
            )
            else done (status_locked l, txn)
        | none ↦ (do
          found ← from (get_txn_commit_record snapshot primary_key start_ts)
          elim found [
            | some (w, commit_ts) ↦ done (recorded_status w commit_ts, txn)
            | none ↦
                if rollback_if_not_exist
                then done (status_rolled_back, put_rollback txn primary_key start_ts)
                else done (status_unknown, txn)
          ])
      ]

unfoldable pub txn_heart_beat : MvccTxn → Snapshot → List ℕ → ℕ → ℕ → Outcome (ℕ × MvccTxn)
txn_heart_beat txn snapshot primary_key start_ts advise_ttl = do
  lock ← from (load_lock snapshot primary_key)
  elim (own_lock lock start_ts) [
    | none ↦ failed txn_lock_not_found
    | some l ↦
        if ltb l.ttl advise_ttl
        then done (advise_ttl, put_lock txn primary_key (record l { ttl = advise_ttl }))
        else done (l.ttl, txn)
  ]

unfoldable pub resolve_lock : MvccTxn → Snapshot → List ℕ → ℕ → ℕ → Outcome MvccTxn
resolve_lock txn snapshot key start_ts commit_ts = do
  lock ← from (load_lock snapshot key)
  elim (own_lock lock start_ts) [
    | none ↦ done txn
    | some l ↦
        if ltb 0 commit_ts
        then commit txn snapshot key start_ts commit_ts
        else rollback txn snapshot key start_ts
  ]
