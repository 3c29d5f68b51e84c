-- ===== src/Examples/Status.antt =====
-- The status of a transaction, its heartbeat and its cleanup, on the store of Examples/Data.
use gookv.Prelude.{ℕ, ◌≡◌, refl, true, false, some, [], ◌∷◌, arith, ok, ltb, if◌then◌else◌}
use gookv.TxnTypes.Lock.{lock_type_put}
use gookv.Mvcc.Txn.{MvccTxn, new_mvcc_txn}
use gookv.Mvcc.Txn.Apply.{apply_all}
use gookv.Mvcc.Reader.{load_lock}
use gookv.Txn.Outcome.{done, failed, txn_lock_not_found, already_committed, ◌>>=◌}
use gookv.Txn.Actions.{commit, rollback}
use gookv.Txn.Status.{
  check_txn_status, status_committed, status_rolled_back, txn_heart_beat, resolve_lock,
  check_txn_status_with_cleanup,
}
use gookv.Txn.Status.Laws.{commit_is_final, rollback_is_final}
use gookv.Txn.Status.Cleanup.{
  must_clean, cleanup-rollback, heart_beat_keeps_alive, resolve_lock_decides,
}
use gookv.Examples.Data.{
  key_k, versions, lock, written-IsValid, locked_store, locked_store-Holds, locked_store-lock,
  lock-IsCommittable, no_record,
}

commit_is_final_example :
    (txn : MvccTxn) × (commit (new_mvcc_txn 40) locked_store key_k 40 50 ≡ done txn)
    × (check_txn_status (apply_all locked_store txn.modifies) key_k 40 ≡ done (status_committed 50))
    × (rollback (new_mvcc_txn 40) (apply_all locked_store txn.modifies) key_k 40
        ≡ failed already_committed)
    × (commit (new_mvcc_txn 40) (apply_all locked_store txn.modifies) key_k 40 60
        ≡ failed txn_lock_not_found)
commit_is_final_example =
    commit_is_final locked_store versions key_k 50 lock (new_mvcc_txn 40) 60 locked_store-Holds
      locked_store-lock lock-IsCommittable no_record

rollback_is_final_example :
    (txn : MvccTxn) × (rollback (new_mvcc_txn 40) locked_store key_k 40 ≡ done txn)
    × (check_txn_status (apply_all locked_store txn.modifies) key_k 40 ≡ done status_rolled_back)
    × (rollback (new_mvcc_txn 40) (apply_all locked_store txn.modifies) key_k 40
        ≡ done (new_mvcc_txn 40))
    × (commit (new_mvcc_txn 40) (apply_all locked_store txn.modifies) key_k 40 60
        ≡ failed txn_lock_not_found)
rollback_is_final_example =
    rollback_is_final locked_store versions key_k 40 (some lock) (new_mvcc_txn 40) 60
      locked_store-Holds (omega arith) locked_store-lock no_record

cleanup-rollback_example :
    check_txn_status_with_cleanup (new_mvcc_txn 40) locked_store key_k 40 1000000000 true ≡ (
      if must_clean (some lock) 40 1000000000 true
      then rollback (new_mvcc_txn 40) locked_store key_k 40 >>= (λ t. done (status_rolled_back, t))
      else check_txn_status locked_store key_k 40 >>= (λ status. done (status, new_mvcc_txn 40)))
cleanup-rollback_example =
    cleanup-rollback (new_mvcc_txn 40) locked_store versions key_k 40 1000000000 true (some lock)
      locked_store-Holds locked_store-lock no_record

heart_beat_keeps_alive_example :
    (ttl : ℕ) × (txn : MvccTxn) × (txn_heart_beat (new_mvcc_txn 40) locked_store key_k 40 5000
      ≡ done (ttl, txn))
    × (ttl ≡ (if ltb 3000 5000 then 5000 else 3000))
    × (load_lock (apply_all locked_store txn.modifies) key_k
        ≡ ok (some (record lock { ttl = ttl })))
heart_beat_keeps_alive_example =
    heart_beat_keeps_alive locked_store key_k lock 5000 locked_store-lock refl (
      written-IsValid lock_type_put 40 5000 0 0 (some (68 ∷ [])) false [] (omega arith)
        (omega arith) (omega arith) (omega arith) (omega arith) (omega arith) tt)

resolve_lock_decides_example :
    (txn : MvccTxn) × (resolve_lock (new_mvcc_txn 40) locked_store key_k 40 50 ≡ done txn)
    × (check_txn_status (apply_all locked_store txn.modifies) key_k 40
        ≡ done (if ltb 0 50 then status_committed 50 else status_rolled_back))
resolve_lock_decides_example =
    resolve_lock_decides locked_store versions key_k lock 50 locked_store-Holds locked_store-lock
      (omega arith) (λ _. lock-IsCommittable) no_record
