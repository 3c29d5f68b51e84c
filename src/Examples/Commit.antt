-- ===== src/Examples/Commit.antt =====
-- Prewrite and commit on the store of Examples/Data.
use gookv.Prelude.{
  List, ◌≡◌, ◌<◌, refl, true, false, none, some, [], ◌∷◌, All, arith, ok, ◌&&◌, if◌then◌else◌,
}
use gookv.Prelude.Order.{compare_bytes, equal_bytes}
use gookv.TxnTypes.Lock.RoundTrip.{stored}
use gookv.Mvcc.Txn.{MvccTxn, new_mvcc_txn}
use gookv.Mvcc.Txn.Apply.{apply_all}
use gookv.Mvcc.Versions.Visible.{visible_versions}
use gookv.Mvcc.Reader.{load_lock, get_write}
use gookv.Mvcc.PointGetter.{si, value, get}
use gookv.Mvcc.Holds.{Holds}
use gookv.Txn.Outcome.{done, failed, write_conflict, ◌>>◌}
use gookv.Txn.Actions.{prewrite, prewrite_lock, commit, rollback}
use gookv.Txn.Actions.Conflicts.{newer_versions, changes_data, verdict}
use gookv.Mvcc.Versions.{Version}
use gookv.Mvcc.Versions.Written.{Written}
use gookv.Txn.Actions.Lifecycle.{published_version, commit_publishes}
use gookv.Txn.Actions.Isolation.{commit_isolates}
use gookv.Txn.Actions.Prewritten.{prewritten, is_conflict, prewrite-verdict, prewrite_locks}
use gookv.Txn.Actions.RolledBack.{rollback_version, rollback_publishes, is_own}
use gookv.Txn.Actions.ReadBack.{put_is_read}
use gookv.Txn.Actions.LatePrewrite.{late_prewrite_succeeds}
use gookv.Examples.Data.{
  key_k, key_m, versions, store, store-Holds, store-unlocked, lock, locked_store,
  locked_store-Holds, locked_store-lock, lock-IsCommittable, no_record, props, mutation,
  prewrite_lock-IsValid,
}

no_conflict : is_conflict versions mutation 40 ≡ false
unfolding newer_versions changes_data compare_bytes
no_conflict = refl

conflict_at_20 : is_conflict versions mutation 20 ≡ true
unfolding newer_versions changes_data compare_bytes
conflict_at_20 = refl

older_than_50 : All (λ v. v.commit_ts < 50) (visible_versions versions key_k 60)
unfolding visible_versions compare_bytes
older_than_50 = (omega arith, (omega arith, tt))

put_is_read_example :
    (t : MvccTxn) × (c : MvccTxn) × (prewrite (new_mvcc_txn 40) store props mutation ≡ done t)
    × (commit (new_mvcc_txn 40) (apply_all store t.modifies) key_k 40 50 ≡ done c)
    × (get
          (record {
            snapshot = apply_all (apply_all store t.modifies) c.modifies;
            ts = 60;
            isolation_level = si;
            bypass_locks = [];
          })
          key_k
        ≡ value (some (68 ∷ [])))
put_is_read_example =
    put_is_read store versions props mutation 68 [] 50 60 si [] store-Holds (store-unlocked key_k)
      no_conflict prewrite_lock-IsValid refl refl (omega arith) (omega arith) (omega arith)
      (omega arith) older_than_50

commit_isolates_example :
    (txn : MvccTxn) × (commit (new_mvcc_txn 40) locked_store key_k 40 50 ≡ done txn)
    × (get_write (apply_all locked_store txn.modifies) key_k 45 ≡ get_write locked_store key_k 45)
commit_isolates_example =
    commit_isolates locked_store versions key_k 50 lock key_k 45 locked_store-Holds
      locked_store-lock lock-IsCommittable (omega arith) (unfold compare_bytes in refl)

commit_publishes_example :
    (txn : MvccTxn) × (commit (new_mvcc_txn 40) locked_store key_k 40 50 ≡ done txn)
    × (vs' : List Version) × Holds (apply_all locked_store txn.modifies) vs'
    × Written versions (published_version key_k 50 lock) vs'
    × (load_lock (apply_all locked_store txn.modifies) key_m
        ≡ (if equal_bytes key_k key_m then ok none else load_lock locked_store key_m))
commit_publishes_example =
    commit_publishes locked_store versions key_k 50 lock key_m locked_store-Holds locked_store-lock
      lock-IsCommittable

prewrite-verdict_example :
    prewrite (new_mvcc_txn 40) store props mutation
    ≡ verdict (is_conflict versions mutation 40) >> done (prewritten props mutation)
prewrite-verdict_example =
    prewrite-verdict store versions props mutation store-Holds (store-unlocked key_k)

prewrite_locks_example :
    (txn : MvccTxn) × (prewrite (new_mvcc_txn 40) store props mutation ≡ done txn)
    × Holds (apply_all store txn.modifies) versions
    × (load_lock (apply_all store txn.modifies) key_k ≡ (
        if equal_bytes key_k key_k
        then ok (some (stored (prewrite_lock props mutation)))
        else load_lock store key_k))
prewrite_locks_example =
    prewrite_locks store versions props mutation key_k store-Holds (store-unlocked key_k)
      no_conflict prewrite_lock-IsValid

rollback_publishes_example :
    (txn : MvccTxn) × (rollback (new_mvcc_txn 40) locked_store key_k 40 ≡ done txn)
    × (vs' : List Version) × Holds (apply_all locked_store txn.modifies) vs'
    × Written versions (rollback_version key_k 40) vs'
    × (load_lock (apply_all locked_store txn.modifies) key_k ≡ (
        if is_own (some lock) 40 && equal_bytes key_k key_k
        then ok none
        else load_lock locked_store key_k))
rollback_publishes_example =
    rollback_publishes locked_store versions key_k 40 (some lock) key_k locked_store-Holds
      (omega arith) locked_store-lock no_record

late_prewrite_succeeds_example :
    (txn : MvccTxn) × (rollback (new_mvcc_txn 40) store key_k 40 ≡ done txn)
    × (prewrite (new_mvcc_txn 40) (apply_all store txn.modifies) props mutation
        ≡ done (prewritten props mutation))
late_prewrite_succeeds_example =
    late_prewrite_succeeds store versions props mutation store-Holds (omega arith)
      (store-unlocked key_k) no_record no_conflict

-- The transaction that started at 20 conflicts with the version of 30.
prewrite_conflict :
    prewrite (new_mvcc_txn 20) store (record props { start_ts = 20 }) mutation
    ≡ failed write_conflict
prewrite_conflict =
    rw
      (
        prewrite-verdict store versions (record props { start_ts = 20 }) mutation store-Holds
            (store-unlocked key_k),
        conflict_at_20,
      )
      refl
