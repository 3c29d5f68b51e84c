-- ===== src/Txn/AsyncCommit/Laws.antt =====
-- What prewrite with async commit promises, and the check of the newest record.
use gookv.Prelude.{ℕ, ◌≡◌, ◌≤◌, ◌<◌, refl, ◌∙◌, ap, true, false, none, some, List, take, arith, ok}
use gookv.Prelude.Order.{equal_bytes_self}
use gookv.TxnTypes.Timestamp.{ts_max}
use gookv.TxnTypes.Lock.{Lock}
use gookv.TxnTypes.Lock.RoundTrip.{IsValid, stored}
use gookv.Mvcc.Snapshot.{Snapshot}
use gookv.Mvcc.Txn.{MvccTxn, new_mvcc_txn}
use gookv.Mvcc.Txn.Apply.{apply_all}
use gookv.Mvcc.Versions.{Version}
use gookv.Mvcc.Reader.{load_lock}
use gookv.Mvcc.Holds.{Holds}
use gookv.Txn.Outcome.{done, ◌>>◌}
use gookv.Txn.Actions.{Mutation, prewrite_lock, conflict_rounds, check_newer, judge}
use gookv.Txn.Actions.Conflicts.{newer_versions, changes_data, verdict, check_newer-verdict}
use gookv.Txn.Actions.Prewritten.{locked, is_conflict, Holds-locked, load_lock-locked}
use gookv.Txn.AsyncCommit.{
  AsyncCommitPrewriteProps, min_commit_ts, async_commit_lock, async_commit_new,
  prewrite_async_commit, check_async_commit_status, check_newest,
}

-- For a start and a greatest read timestamp below the greatest timestamp of all, the least commit
-- timestamp of an async commit is after both, and not after any other timestamp that is after both.
pub min_commit_ts-bounds :
    (start_ts max_commit_ts ts : ℕ)
    → start_ts < ts_max
    → max_commit_ts < ts_max
    → start_ts < ts
    → max_commit_ts < ts
    → (start_ts < min_commit_ts start_ts max_commit_ts)
      × (max_commit_ts < min_commit_ts start_ts max_commit_ts)
      × (min_commit_ts start_ts max_commit_ts ≤ ts)
unfolding min_commit_ts
min_commit_ts-bounds start_ts max_commit_ts ts p q a b = (ground arith, ground arith, ground arith)

newest-newer :
    (s : Snapshot) (key : List ℕ) (ts : ℕ) → check_newest s key ts ≡ check_newer 1 s key ts ts_max
unfolding check_newest check_newer judge
newest-newer s key ts = ground arith

-- In a well-formed store, the check of the newest record reports a conflict exactly when the newest
-- of the versions of the key that are newer than the timestamp changes data.
pub check_newest-verdict :
    (s : Snapshot) (vs : List Version) (key : List ℕ) (ts : ℕ)
    → Holds s vs
    → check_newest s key ts ≡ verdict (changes_data (take 1 (newer_versions vs key ts)))
check_newest-verdict s vs key ts h =
    newest-newer s key ts ∙ check_newer-verdict 1 s vs key ts h.entries h.storable h.sorted

abbrev async_committed : AsyncCommitPrewriteProps → Mutation → MvccTxn
async_committed props m = locked (async_commit_lock props m) m props.prewrite.start_ts

async_commit-verdict :
    (s : Snapshot) (vs : List Version) (props : AsyncCommitPrewriteProps) (m : Mutation)
    → Holds s vs
    → load_lock s m.key ≡ ok none
    → prewrite_async_commit (new_mvcc_txn props.prewrite.start_ts) s props m
      ≡ verdict (is_conflict vs m props.prewrite.start_ts) >> done (async_committed props m)
unfolding prewrite_async_commit async_commit_new
async_commit-verdict s vs props m h e =
    rw
      (
        e,
        check_newer-verdict conflict_rounds s vs m.key props.prewrite.start_ts h.entries h.storable
            h.sorted,
      )
      refl

status_of_lock :
    (s : Snapshot) (key : List ℕ) (lock : Lock) (start_ts : ℕ)
    → load_lock s key ≡ ok (some lock)
    → lock.start_ts ≡ start_ts
    → lock.use_async_commit ≡ true
    → check_async_commit_status s key start_ts ≡ done lock.min_commit_ts
unfolding check_async_commit_status
status_of_lock s key lock start_ts e own a = ground (arith, e, own, a)

-- The fields of the lock that the status check reads.
async_lock-fields :
    (props : AsyncCommitPrewriteProps) (m : Mutation)
    → props.use_async_commit ≡ true
    → ((async_commit_lock props m).start_ts ≡ props.prewrite.start_ts)
      × ((async_commit_lock props m).use_async_commit ≡ true)
      × ((async_commit_lock props m).min_commit_ts
          ≡ min_commit_ts props.prewrite.start_ts props.max_commit_ts)
unfolding async_commit_lock prewrite_lock
async_lock-fields props m a = rw a (refl, refl, refl)

status-async_committed :
    (s : Snapshot) (props : AsyncCommitPrewriteProps) (m : Mutation)
    → props.use_async_commit ≡ true
    → IsValid (async_commit_lock props m)
    → check_async_commit_status
        (apply_all s (async_committed props m).modifies)
        m.key
        props.prewrite.start_ts
      ≡ done (min_commit_ts props.prewrite.start_ts props.max_commit_ts)
status-async_committed s props m a v =
    let held = load_lock-locked s (async_commit_lock props m) m props.prewrite.start_ts m.key v in
    let found = rw (equal_bytes_self m.key) at held in
    let fields = async_lock-fields props m a in
    status_of_lock _ m.key (stored (async_commit_lock props m)) props.prewrite.start_ts found
      fields.0 fields.1
    ∙ ap done fields.2

-- In a well-formed store, a prewrite with async commit of a key without a lock and without a
-- conflict, with a lock whose numbers fit their widths: it succeeds, no committed version changes,
-- and the status check then answers the least commit timestamp.
pub async_commit_is_pending :
    (s : Snapshot) (vs : List Version) (props : AsyncCommitPrewriteProps) (m : Mutation)
    → Holds s vs
    → load_lock s m.key ≡ ok none
    → is_conflict vs m props.prewrite.start_ts ≡ false
    → props.use_async_commit ≡ true
    → IsValid (async_commit_lock props m)
    → (txn : MvccTxn) × (prewrite_async_commit (new_mvcc_txn props.prewrite.start_ts) s props m
        ≡ done txn)
      × Holds (apply_all s txn.modifies) vs
      × (check_async_commit_status (apply_all s txn.modifies) m.key props.prewrite.start_ts
          ≡ done (min_commit_ts props.prewrite.start_ts props.max_commit_ts))
async_commit_is_pending s vs props m h e c a v = (
  async_committed props m,
  rw (async_commit-verdict s vs props m h e, c) refl,
  Holds-locked s vs (async_commit_lock props m) m props.prewrite.start_ts h,
  status-async_committed s props m a v,
)
