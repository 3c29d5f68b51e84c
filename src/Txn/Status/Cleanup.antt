-- ===== src/Txn/Status/Cleanup.antt =====
-- Heartbeats, and the cleanup of locks that a transaction has left behind.
use gookv.Prelude.{
  ℕ, ◌≡◌, ◌<◌, refl, ◌∙◌, ap, Bool, Option, none, some, List, ltb, if◌then◌else◌, arith, ok,
  Bool-cases, inl, inr,
}
use gookv.Prelude.Order.{equal_bytes_self}
use gookv.Codec.Number.{IsU64}
use gookv.TxnTypes.Lock.{Lock}
use gookv.TxnTypes.Lock.RoundTrip.{IsValid, stored}
use gookv.Mvcc.Snapshot.{Snapshot}
use gookv.Mvcc.Txn.{MvccTxn, new_mvcc_txn, put_lock}
use gookv.Mvcc.Txn.Apply.{apply_all}
use gookv.Mvcc.Versions.{Version}
use gookv.Mvcc.Reader.{load_lock}
use gookv.Mvcc.Reader.Locks.{load_lock-put}
use gookv.Mvcc.Reader.Records.{own_record}
use gookv.Mvcc.Holds.{Holds, get_txn_commit_record_lem}
use gookv.Txn.Outcome.{done, ◌>>=◌}
use gookv.Txn.Actions.{own_lock, commit, rollback, rollback_lock}
use gookv.Txn.Actions.Lifecycle.{IsCommittable}
use gookv.Txn.Status.{
  check_txn_status, status_committed, status_rolled_back, txn_heart_beat, resolve_lock,
  check_txn_status_with_cleanup, has_expired,
}
use gookv.Txn.Status.Laws.{commit_is_final, rollback_is_final}

-- Whether the cleanup rolls back a transaction that has no record on its primary key.
abbrev pub must_clean : Option Lock → ℕ → ℕ → Bool → Bool
must_clean l start_ts caller_start_ts rollback_if_not_exist = elim (own_lock l start_ts) [
  | some lock ↦ has_expired lock start_ts caller_start_ts
  | none ↦ rollback_if_not_exist
]

-- In a well-formed store, the status check with cleanup of a transaction that has no record on its
-- primary key: where its lock has expired, or is missing and the caller asks for a rollback, it
-- does what a rollback does, and everywhere else it is the plain status check and changes nothing.
pub cleanup-rollback :
    (txn : MvccTxn) (s : Snapshot) (vs : List Version) (key : List ℕ) (start_ts caller_start_ts : ℕ)
    → (rollback_if_not_exist : Bool) (l : Option Lock) → Holds s vs
    → load_lock s key ≡ ok l
    → own_record vs key start_ts ≡ none
    → check_txn_status_with_cleanup txn s key start_ts caller_start_ts rollback_if_not_exist ≡ (
        if must_clean l start_ts caller_start_ts rollback_if_not_exist
        then rollback txn s key start_ts >>= (λ t. done (status_rolled_back, t))
        else check_txn_status s key start_ts >>= (λ status. done (status, txn)))
unfolding check_txn_status_with_cleanup check_txn_status rollback rollback_lock
cleanup-rollback txn s vs key start_ts caller r l h e n =
    let found = get_txn_commit_record_lem h key start_ts ∙ ap ok n in ground (arith, e, found)

put-ttl :
    (s : Snapshot) (key : List ℕ) (lock : Lock) (ttl : ℕ)
    → stored lock ≡ lock
    → IsValid (record lock { ttl = ttl })
    → load_lock
        (apply_all s
          (put_lock (new_mvcc_txn lock.start_ts) key (record lock { ttl = ttl })).modifies)
        key
      ≡ ok (some (record lock { ttl = ttl }))
unfolding apply_all put_lock new_mvcc_txn
put-ttl s key lock ttl e v =
    let held = load_lock-put s key key (record lock { ttl = ttl }) v in
    let found = rw (equal_bytes_self key) at held in
    found ∙ (λ i. ok (some (record (e i) { ttl = ttl })))

-- A heartbeat of a transaction that holds its primary lock, where the lock loses nothing when it is
-- stored and fits its widths with the advised time to live: it answers the greater of the two times
-- to live, and the lock in the store then has that time to live, and is otherwise unchanged.
pub heart_beat_keeps_alive :
    (s : Snapshot) (key : List ℕ) (lock : Lock) (advise_ttl : ℕ)
    → load_lock s key ≡ ok (some lock)
    → stored lock ≡ lock
    → IsValid (record lock { ttl = advise_ttl })
    → (ttl : ℕ) × (txn : MvccTxn) × (txn_heart_beat
          (new_mvcc_txn lock.start_ts)
          s
          key
          lock.start_ts
          advise_ttl
        ≡ done (ttl, txn))
      × (ttl ≡ (if ltb lock.ttl advise_ttl then advise_ttl else lock.ttl))
      × (load_lock (apply_all s txn.modifies) key ≡ ok (some (record lock { ttl = ttl })))
unfolding txn_heart_beat
heart_beat_keeps_alive s key lock advise e k v = elim (Bool-cases (ltb lock.ttl advise)) [
  | inl more ↦ (
    advise,
    put_lock (new_mvcc_txn lock.start_ts) key (record lock { ttl = advise }),
    rw e (ground (arith, more)),
    rw more refl,
    put-ttl s key lock advise k v,
  )
  | inr less ↦ (
    lock.ttl,
    new_mvcc_txn lock.start_ts,
    rw e (ground (arith, less)),
    rw less refl,
    unfold apply_all new_mvcc_txn in e,
  )
]

resolve-own :
    (txn : MvccTxn) (s : Snapshot) (key : List ℕ) (lock : Lock) (commit_ts : ℕ)
    → load_lock s key ≡ ok (some lock)
    → resolve_lock txn s key lock.start_ts commit_ts ≡ (
        if ltb 0 commit_ts
        then commit txn s key lock.start_ts commit_ts
        else rollback txn s key lock.start_ts)
unfolding resolve_lock
resolve-own txn s key lock commit_ts e = ground (arith, e)

-- In a well-formed store, resolving the lock of a transaction that has no record on the key, where
-- the lock may be committed at the commit timestamp if that is not 0: it succeeds, and the status
-- of the transaction is then committed at that timestamp, or rolled back if it is 0.
pub resolve_lock_decides :
    (s : Snapshot) (vs : List Version) (key : List ℕ) (lock : Lock) (commit_ts : ℕ)
    → Holds s vs
    → load_lock s key ≡ ok (some lock)
    → IsU64 lock.start_ts
    → (0 < commit_ts → IsCommittable lock commit_ts)
    → own_record vs key lock.start_ts ≡ none
    → (txn : MvccTxn) × (resolve_lock (new_mvcc_txn lock.start_ts) s key lock.start_ts commit_ts
        ≡ done txn)
      × (check_txn_status (apply_all s txn.modifies) key lock.start_ts
          ≡ done (if ltb 0 commit_ts then status_committed commit_ts else status_rolled_back))
resolve_lock_decides s vs key lock commit_ts h e f c n = elim (Bool-cases (ltb 0 commit_ts)) [
  | inl positive ↦
      let r = commit_is_final s vs key commit_ts lock (new_mvcc_txn 0) 0 h e (c (ground arith)) n in
      (
        r.0,
        rw (resolve-own (new_mvcc_txn lock.start_ts) s key lock commit_ts e, positive) r.1,
        rw positive r.2,
      )
  | inr at_zero ↦
      let r = rollback_is_final s vs key lock.start_ts (some lock) (new_mvcc_txn 0) 0 h f e n in
      (
        r.0,
        rw (resolve-own (new_mvcc_txn lock.start_ts) s key lock commit_ts e, at_zero) r.1,
        rw at_zero r.2,
      )
]
