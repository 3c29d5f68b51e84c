-- ===== src/Txn/Actions/ReadBack.antt =====
-- A put, from its prewrite through its commit to a read.
use gookv.Prelude.{
  ℕ, ◌≡◌, ◌<◌, ◌≤◌, refl, ◌∙◌, false, none, some, List, ◌∷◌, All, length, leb, arith, ok,
  Bool-cases, inl, inr,
}
use gookv.Codec.Number.{IsU64}
use gookv.TxnTypes.Lock.RoundTrip.{IsValid, stored}
use gookv.TxnTypes.Write.{short_value_max_len}
use gookv.Mvcc.Snapshot.{Snapshot}
use gookv.Mvcc.Txn.{MvccTxn, new_mvcc_txn}
use gookv.Mvcc.Txn.Apply.{apply_all}
use gookv.Mvcc.Versions.{Version}
use gookv.Mvcc.Versions.Visible.{visible_versions}
use gookv.Mvcc.Reader.{load_lock, get_value}
use gookv.Mvcc.PointGetter.{
  PointGetter, IsolationLevel, si, rc, value, get, check_lock, read_visible, read_value,
}
use gookv.Mvcc.Holds.{Holds}
use gookv.Txn.Outcome.{done}
use gookv.Txn.Actions.{
  PrewriteProps, Mutation, op_put, inline_value, prewrite, prewrite_lock, commit,
}
use gookv.Txn.Actions.Lifecycle.{commit_version, commit_txn}
use gookv.Txn.Actions.Prewritten.{prewritten, is_conflict, prewrite-done}
use gookv.Txn.Actions.Committed.{
  commit-prewritten, committed, get_write-committed, unlocked-committed, get_value-committed,
}

-- A read without a lock in its way.
get-unlocked :
    (s : Snapshot) (key : List ℕ) (ts : ℕ) (level : IsolationLevel) (bypass : List ℕ)
    → load_lock s key ≡ ok none
    → get (record { snapshot = s; ts = ts; isolation_level = level; bypass_locks = bypass }) key
      ≡ read_visible
          (record { snapshot = s; ts = ts; isolation_level = level; bypass_locks = bypass })
          key
unfolding get check_lock
get-unlocked s key ts si bypass e = rw (e, get) refl
get-unlocked s key ts rc bypass e = refl

-- The record of a committed put leads to its value.
read_value-committed :
    (pg : PointGetter) (props : PrewriteProps) (m : Mutation) (commit_ts : ℕ) (b : ℕ) (bs : List ℕ)
    → m.value ≡ some (b ∷ bs)
    → (short_value_max_len < length (b ∷ bs)
        → get_value pg.snapshot m.key props.start_ts ≡ some (b ∷ bs))
    → read_value pg m.key
        (some ((commit_version m.key commit_ts (stored (prewrite_lock props m))).write, commit_ts))
      ≡ value (some (b ∷ bs))
unfolding read_value commit_version prewrite_lock inline_value
read_value-committed pg props m commit_ts b bs e large =
    elim (Bool-cases (leb (length (b ∷ bs)) short_value_max_len)) [
      | inl short ↦ rw (e, short) refl
      | inr long ↦ rw (e, long, large (ground arith)) refl
    ]

read-prewritten :
    (s : Snapshot) (vs : List Version) (props : PrewriteProps) (m : Mutation) (b : ℕ) (bs : List ℕ)
    → (commit_ts : ℕ) → Holds s vs
    → m.op ≡ op_put
    → m.value ≡ some (b ∷ bs)
    → props.start_ts ≤ commit_ts
    → IsU64 commit_ts
    → (ts : ℕ) (level : IsolationLevel) (bypass : List ℕ) → IsU64 ts
    → commit_ts ≤ ts
    → All (λ v. v.commit_ts < commit_ts) (visible_versions vs m.key ts)
    → get
        (record {
          snapshot = committed s props m commit_ts;
          ts = ts;
          isolation_level = level;
          bypass_locks = bypass;
        })
        m.key
      ≡ value (some (b ∷ bs))
unfolding read_visible
read-prewritten s vs props m b bs commit_ts h o e le f ts level bypass ft from newest =
    get-unlocked (committed s props m commit_ts) m.key ts level bypass
      (unlocked-committed s props m commit_ts)
    ∙ rw (get_write-committed s vs props m commit_ts h o le f ts ft from newest, read_visible)
        (read_value-committed _ props m commit_ts b bs e
          (get_value-committed s props m commit_ts (b ∷ bs) o e))

-- In a well-formed store, a put of a value that is not empty, prewritten on a key without a lock
-- and without a conflict, with a lock whose numbers fit their widths, and then committed at a
-- timestamp not before its start: both succeed, and a point read of the key, in either isolation
-- level, gives the value at every timestamp from the commit on at which every other visible version
-- of the key is older.
pub put_is_read :
    (s : Snapshot) (vs : List Version) (props : PrewriteProps) (m : Mutation) (b : ℕ) (bs : List ℕ)
    → (commit_ts ts : ℕ) (level : IsolationLevel) (bypass : List ℕ) → Holds s vs
    → load_lock s m.key ≡ ok none
    → is_conflict vs m props.start_ts ≡ false
    → IsValid (prewrite_lock props m)
    → m.op ≡ op_put
    → m.value ≡ some (b ∷ bs)
    → props.start_ts ≤ commit_ts
    → IsU64 commit_ts
    → IsU64 ts
    → commit_ts ≤ ts
    → All (λ v. v.commit_ts < commit_ts) (visible_versions vs m.key ts)
    → (t : MvccTxn) × (c : MvccTxn) × (prewrite (new_mvcc_txn props.start_ts) s props m ≡ done t)
      × (commit
            (new_mvcc_txn props.start_ts)
            (apply_all s t.modifies)
            m.key
            props.start_ts
            commit_ts
          ≡ done c)
      × (get
            (record {
              snapshot = apply_all (apply_all s t.modifies) c.modifies;
              ts = ts;
              isolation_level = level;
              bypass_locks = bypass;
            })
            m.key
          ≡ value (some (b ∷ bs)))
put_is_read s vs props m b bs commit_ts ts level bypass h e c v o ev le f ft from newest = (
  prewritten props m,
  commit_txn m.key props.start_ts commit_ts (stored (prewrite_lock props m)),
  prewrite-done s vs props m h e c,
  commit-prewritten s props m commit_ts v le f,
  read-prewritten s vs props m b bs commit_ts h o ev le f ts level bypass ft from newest,
)
