-- ===== src/Txn/Status/Laws.antt =====
-- What the actions say of a key after the commit and after the rollback of a transaction.
use gookv.Prelude.{ℕ, ◌≡◌, refl, ◌∙◌, ap, false, Option, none, some, List, ◌==◌, arith, ok}
use gookv.Prelude.Order.{equal_bytes_self}
use gookv.Codec.Number.{IsU64}
use gookv.TxnTypes.Lock.{Lock}
use gookv.TxnTypes.Write.{write_type_rollback}
use gookv.Mvcc.Snapshot.{Snapshot}
use gookv.Mvcc.Txn.{MvccTxn, new_mvcc_txn}
use gookv.Mvcc.Txn.Apply.{apply_all}
use gookv.Mvcc.Versions.{Version}
use gookv.Mvcc.Versions.Insert.{insert_version}
use gookv.Mvcc.Reader.{load_lock, get_txn_commit_record}
use gookv.Mvcc.Reader.Records.{own_record}
use gookv.Mvcc.Reader.Recorded.{own_record-insert}
use gookv.Mvcc.Holds.{Holds, get_txn_commit_record_lem}
use gookv.Txn.Outcome.{done, failed, txn_lock_not_found, already_committed}
use gookv.Txn.Actions.{commit, rollback, lock_type_to_write_type}
use gookv.Txn.Actions.Lifecycle.{
  commit_txn, commit-done, Holds-commit_txn, load_lock-commit_txn, commit_version, IsCommittable,
}
use gookv.Txn.Actions.RolledBack.{
  rolled_back, rollback-done, Holds-rolled_back, load_lock-rolled_back, rollback_version,
}
use gookv.Txn.Status.{check_txn_status, status_committed, status_rolled_back}

type_of_commit : (t : ℕ) → (lock_type_to_write_type t == write_type_rollback) ≡ false
unfolding lock_type_to_write_type
type_of_commit t = ground arith

-- The record that a transaction finds once it has written one.
record-written :
    (t : Snapshot) (vs : List Version) (v : Version)
    → Holds t (insert_version vs v)
    → own_record vs v.key v.write.start_ts ≡ none
    → get_txn_commit_record t v.key v.write.start_ts ≡ ok (some (v.write, v.commit_ts))
record-written t vs v h n =
    get_txn_commit_record_lem h v.key v.write.start_ts ∙ ap ok (own_record-insert vs v n)

-- In a well-formed store, where the transaction has a lock on the key that may be committed at
-- `commit_ts`, and no record: the commit succeeds, and then the status of the transaction is that
-- commit timestamp, its rollback is refused as already committed, and a second commit finds no
-- lock.
pub commit_is_final :
    (s : Snapshot) (vs : List Version) (key : List ℕ) (commit_ts : ℕ) (lock : Lock)
    → (any : MvccTxn) (ts : ℕ) → Holds s vs
    → load_lock s key ≡ ok (some lock)
    → IsCommittable lock commit_ts
    → own_record vs key lock.start_ts ≡ none
    → (txn : MvccTxn) × (commit (new_mvcc_txn lock.start_ts) s key lock.start_ts commit_ts
        ≡ done txn)
      × (check_txn_status (apply_all s txn.modifies) key lock.start_ts
          ≡ done (status_committed commit_ts))
      × (rollback any (apply_all s txn.modifies) key lock.start_ts ≡ failed already_committed)
      × (commit any (apply_all s txn.modifies) key lock.start_ts ts ≡ failed txn_lock_not_found)
unfolding check_txn_status rollback commit commit_version
commit_is_final s vs key commit_ts lock any ts h e c n =
    let found =
      record-written _ vs (commit_version key commit_ts lock)
        (Holds-commit_txn s vs key commit_ts lock h c) n in
    let gone = load_lock-commit_txn s key commit_ts lock key in
    let live = rw (equal_bytes_self key) at gone in
    (
      commit_txn key lock.start_ts commit_ts lock,
      commit-done s key commit_ts lock e c,
      rw (live, found, type_of_commit lock.lock_type) refl,
      rw (found, type_of_commit lock.lock_type) refl,
      rw live refl,
    )

-- In a well-formed store, where the transaction has no record on the key: the rollback succeeds,
-- and then the status of the transaction is rolled back, a second rollback changes nothing, and a
-- commit finds no lock.
pub rollback_is_final :
    (s : Snapshot) (vs : List Version) (key : List ℕ) (start_ts : ℕ) (l : Option Lock)
    → (any : MvccTxn) (ts : ℕ) → Holds s vs
    → IsU64 start_ts
    → load_lock s key ≡ ok l
    → own_record vs key start_ts ≡ none
    → (txn : MvccTxn) × (rollback (new_mvcc_txn start_ts) s key start_ts ≡ done txn)
      × (check_txn_status (apply_all s txn.modifies) key start_ts ≡ done status_rolled_back)
      × (rollback any (apply_all s txn.modifies) key start_ts ≡ done any)
      × (commit any (apply_all s txn.modifies) key start_ts ts ≡ failed txn_lock_not_found)
unfolding check_txn_status rollback commit rollback_version
rollback_is_final s vs key start_ts l any ts h f e n =
    let found =
      record-written _ vs (rollback_version key start_ts)
        (Holds-rolled_back s vs key start_ts l h f) n in
    let live = load_lock-rolled_back s key start_ts l key in
    (
      rolled_back key start_ts l,
      rollback-done s vs key start_ts l h e n,
      ground (arith, found, live, e, equal_bytes_self key),
      rw found refl,
      ground (arith, live, e, equal_bytes_self key),
    )
