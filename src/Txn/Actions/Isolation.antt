-- ===== src/Txn/Actions/Isolation.antt =====
-- What readers see of a commit.
use gookv.Prelude.{ℕ, ◌≡◌, ◌<◌, ◌≤◌, sym, ◌∙◌, ap, false, ◌&&◌, some, List, ◌∷◌, All, leb, ok}
use gookv.Prelude.Order.{equal_bytes}
use gookv.Codec.Number.{IsU64}
use gookv.TxnTypes.Lock.{Lock}
use gookv.Mvcc.Snapshot.{Snapshot}
use gookv.Mvcc.Txn.{MvccTxn, new_mvcc_txn}
use gookv.Mvcc.Txn.Apply.{apply_all}
use gookv.Mvcc.Versions.{Version}
use gookv.Mvcc.Versions.Insert.{visible-insert_other, visible-insert_newest}
use gookv.Mvcc.Versions.Visible.{visible_versions, latest_put}
use gookv.Mvcc.Reader.{load_lock, get_write}
use gookv.Mvcc.Holds.{Holds, get_write_lem}
use gookv.Txn.Outcome.{done}
use gookv.Txn.Actions.{commit}
use gookv.Txn.Actions.Lifecycle.{
  commit_txn, commit-done, Holds-commit_txn, commit_version, IsCommittable,
}

-- In a well-formed store, a commit of a key at `commit_ts`, by the transaction that holds a lock
-- that may be committed at that timestamp, succeeds, and changes the result of `GetWrite` for no
-- other key, and for its key at no timestamp below `commit_ts`.
pub commit_isolates :
    (s : Snapshot) (vs : List Version) (key : List ℕ) (commit_ts : ℕ) (lock : Lock)
    → (j : List ℕ) (ts : ℕ) → Holds s vs
    → load_lock s key ≡ ok (some lock)
    → IsCommittable lock commit_ts
    → IsU64 ts
    → (equal_bytes key j && leb commit_ts ts) ≡ false
    → (txn : MvccTxn) × (commit (new_mvcc_txn lock.start_ts) s key lock.start_ts commit_ts
        ≡ done txn)
      × (get_write (apply_all s txn.modifies) j ts ≡ get_write s j ts)
unfolding commit_version
commit_isolates s vs key commit_ts lock j ts h e c f hidden = (
  commit_txn key lock.start_ts commit_ts lock,
  commit-done s key commit_ts lock e c,
  get_write_lem (Holds-commit_txn s vs key commit_ts lock h c) j ts f
      ∙ ap (λ l. ok (latest_put l))
          (visible-insert_other vs (commit_version key commit_ts lock) j ts hidden)
      ∙ sym (get_write_lem h j ts f),
)

-- In a well-formed store, a commit of a key at `commit_ts`, by the transaction that holds a lock
-- that may be committed at that timestamp, succeeds, and at every timestamp from `commit_ts` on at
-- which every visible version of the key is older, `GetWrite` then finds what it finds in the list
-- of the new version and these versions.
pub commit_is_read :
    (s : Snapshot) (vs : List Version) (key : List ℕ) (commit_ts : ℕ) (lock : Lock)
    → (ts : ℕ) → Holds s vs
    → load_lock s key ≡ ok (some lock)
    → IsCommittable lock commit_ts
    → IsU64 ts
    → commit_ts ≤ ts
    → All (λ v. v.commit_ts < commit_ts) (visible_versions vs key ts)
    → (txn : MvccTxn) × (commit (new_mvcc_txn lock.start_ts) s key lock.start_ts commit_ts
        ≡ done txn)
      × (get_write (apply_all s txn.modifies) key ts
          ≡ ok (latest_put (commit_version key commit_ts lock ∷ visible_versions vs key ts)))
unfolding commit_version
commit_is_read s vs key commit_ts lock ts h e c f le newest = (
  commit_txn key lock.start_ts commit_ts lock,
  commit-done s key commit_ts lock e c,
  get_write_lem (Holds-commit_txn s vs key commit_ts lock h c) key ts f
      ∙ ap (λ l. ok (latest_put l))
          (visible-insert_newest vs (commit_version key commit_ts lock) ts le newest),
)
