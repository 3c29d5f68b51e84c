-- ===== src/Txn/Actions/Lifecycle.antt =====
-- What the actions leave in the store.
use gookv.Prelude.{
  ℕ, ◌≡◌, ◌≢◌, ◌≤◌, refl, ◌∙◌, false, none, some, List, [], if◌then◌else◌, arith, ◌==◌, ok, length,
}
use gookv.Prelude.Order.{equal_bytes}
use gookv.Codec.Number.{IsU64}
use mathlib.Core.Option
use mathlib.Core.Path.{subst}
use gookv.TxnTypes.Write.RoundTrip.{stored_value}
use gookv.TxnTypes.Lock.{Lock, lock_type_pessimistic}
use gookv.TxnTypes.Write.{marshal, new_write}
use gookv.Mvcc.Key.{encode_key, encode_lock_key}
use gookv.Mvcc.Snapshot.{Snapshot}
use gookv.Mvcc.Txn.{MvccTxn, new_mvcc_txn, unlock_key, put_write, put, delete, cf_lock, cf_write}
use gookv.Mvcc.Txn.Apply.{apply, apply_all}
use gookv.Mvcc.Versions.{Version}
use gookv.Mvcc.Versions.Written.{Written, insert_version-Written}
use gookv.Mvcc.Versions.Insert.{insert_version}
use gookv.Mvcc.Reader.{load_lock}
use gookv.Mvcc.Reader.Locks.{load_lock-delete, load_lock-other_cf}
use gookv.Mvcc.Holds.{Holds, IsWritable, put_write-Holds}
use gookv.Txn.Outcome.{done}
use gookv.Txn.Actions.{commit, commit_lock, lock_type_to_write_type}

-- A store in which only locks or values have changed holds the same versions.
pub locks-Holds :
    (s t : Snapshot) (vs : List Version) → t.cf_write ≡ s.cf_write → Holds s vs → Holds t vs
locks-Holds s t vs e h = record {
  entries = e ∙ h.entries;
  storable = h.storable;
  names_no_change = h.names_no_change;
  starts_before = h.starts_before;
  sorted = h.sorted;
}

-- The version that a commit publishes.
unfoldable pub commit_version : List ℕ → ℕ → Lock → Version
commit_version key commit_ts lock = record {
  key = key;
  commit_ts = commit_ts;
  write = record (new_write (lock_type_to_write_type lock.lock_type) lock.start_ts) {
    short_value = lock.short_value;
  };
}

-- A lock that a commit at `commit_ts` turns into a version.
pub record IsCommittable (lock : Lock) (commit_ts : ℕ) : Type 0 where
  pub not_pessimistic : lock.lock_type ≢ lock_type_pessimistic
  pub min_commit_ts_le : lock.min_commit_ts ≤ commit_ts
  pub starts_before : lock.start_ts ≤ commit_ts
  pub commit_ts_fits : IsU64 commit_ts
  pub short_value_fits : length (Option.get_or lock.short_value []) ≤ 255
  pub short_value_stored : stored_value lock.short_value ≡ lock.short_value

commit_version-IsWritable :
    (key : List ℕ) (commit_ts : ℕ) (lock : Lock)
    → IsCommittable lock commit_ts
    → IsWritable (commit_version key commit_ts lock)
unfolding commit_version
commit_version-IsWritable key commit_ts lock c = record {
  storable = record {
    commit_ts_fits = c.commit_ts_fits;
    write_fits = record {
      start_ts_fits = omega (arith, c.starts_before, c.commit_ts_fits);
      short_value_fits = c.short_value_fits;
      gc_fence_fits = omega arith;
      last_change_fits = omega arith;
      versions_fit = omega arith;
      txn_source_fits = omega arith;
    };
    write_stored = λ i. record (commit_version key commit_ts lock).write {
      short_value = c.short_value_stored i;
    };
  };
  names_no_change = refl;
  starts_before = c.starts_before;
}

abbrev pub commit_txn : List ℕ → ℕ → ℕ → Lock → MvccTxn
commit_txn key start_ts commit_ts lock =
    put_write (unlock_key (new_mvcc_txn start_ts) key false).0 key commit_ts
      (commit_version key commit_ts lock).write

pub commit-done :
    (s : Snapshot) (key : List ℕ) (commit_ts : ℕ) (lock : Lock)
    → load_lock s key ≡ ok (some lock)
    → IsCommittable lock commit_ts
    → commit (new_mvcc_txn lock.start_ts) s key lock.start_ts commit_ts
      ≡ done (commit_txn key lock.start_ts commit_ts lock)
unfolding commit commit_lock commit_version
commit-done s key commit_ts lock e c = rw e (ground (arith, c.not_pessimistic, c.min_commit_ts_le))

pub Holds-commit_txn :
    (s : Snapshot) (vs : List Version) (key : List ℕ) (commit_ts : ℕ) (lock : Lock)
    → Holds s vs
    → IsCommittable lock commit_ts
    → Holds
        (apply_all s (commit_txn key lock.start_ts commit_ts lock).modifies)
        (insert_version vs (commit_version key commit_ts lock))
unfolding apply_all put_write unlock_key new_mvcc_txn commit_version
Holds-commit_txn s vs key commit_ts lock h c =
    put_write-Holds (apply s (delete cf_lock (encode_lock_key key))) vs
      (commit_version key commit_ts lock)
      (locks-Holds s (apply s (delete cf_lock (encode_lock_key key))) vs (unfold apply in refl) h)
      (commit_version-IsWritable key commit_ts lock c)

pub load_lock-commit_txn :
    (s : Snapshot) (key : List ℕ) (commit_ts : ℕ) (lock : Lock) (j : List ℕ)
    → load_lock (apply_all s (commit_txn key lock.start_ts commit_ts lock).modifies) j
      ≡ (if equal_bytes key j then ok none else load_lock s j)
unfolding apply_all put_write unlock_key new_mvcc_txn commit_version
load_lock-commit_txn s key commit_ts lock j =
    load_lock-other_cf (apply s (delete cf_lock (encode_lock_key key)))
      (apply (apply s (delete cf_lock (encode_lock_key key))) (
        put cf_write (encode_key key commit_ts)
          (marshal (commit_version key commit_ts lock).write)))
      j (unfold apply in refl)
    ∙ load_lock-delete s key j

-- The byte of the record that a lock becomes: 'D' for 'D', 'L' for 'L', 'P' for every other.
abbrev type_byte : ℕ → ℕ
type_byte lock_type = if lock_type == 68 then 68 else if lock_type == 76 then 76 else 80

-- The version that a lock becomes: of its type, with the start and the short value of the lock.
abbrev pub published_version : List ℕ → ℕ → Lock → Version
published_version key commit_ts lock = record {
  key = key;
  commit_ts = commit_ts;
  write = record (new_write (type_byte lock.lock_type) lock.start_ts) {
    short_value = lock.short_value;
  };
}

type_byte_lem : (lock_type : ℕ) → lock_type_to_write_type lock_type ≡ type_byte lock_type
unfolding lock_type_to_write_type
type_byte_lem lock_type = ground arith

commit_version-published :
    (key : List ℕ) (commit_ts : ℕ) (lock : Lock)
    → commit_version key commit_ts lock ≡ published_version key commit_ts lock
unfolding commit_version
commit_version-published key commit_ts lock i = record {
  key = key;
  commit_ts = commit_ts;
  write = record (new_write (type_byte_lem lock.lock_type i) lock.start_ts) {
    short_value = lock.short_value;
  };
}

-- In a well-formed store, a commit of a key whose lock belongs to the transaction and may be
-- committed at `commit_ts`: it succeeds, and the store is well-formed. Its versions are those before
-- with a version that has the type (put, if it is not delete or lock), the start and the short value
-- of the lock, in the place of a version of the key at `commit_ts` if there is one, and of no other.
-- The lock is gone, and the lock of every other key stays.
pub commit_publishes :
    (s : Snapshot) (vs : List Version) (key : List ℕ) (commit_ts : ℕ) (lock : Lock) (j : List ℕ)
    → Holds s vs
    → load_lock s key ≡ ok (some lock)
    → IsCommittable lock commit_ts
    → (txn : MvccTxn) × (commit (new_mvcc_txn lock.start_ts) s key lock.start_ts commit_ts
        ≡ done txn)
      × (vs' : List Version) × Holds (apply_all s txn.modifies) vs'
      × Written vs (published_version key commit_ts lock) vs'
      × (load_lock (apply_all s txn.modifies) j
          ≡ (if equal_bytes key j then ok none else load_lock s j))
commit_publishes s vs key commit_ts lock j h e c = (
  commit_txn key lock.start_ts commit_ts lock,
  commit-done s key commit_ts lock e c,
  insert_version vs (commit_version key commit_ts lock),
  Holds-commit_txn s vs key commit_ts lock h c,
  subst (λ v. Written vs v (insert_version vs (commit_version key commit_ts lock)))
      (commit_version-published key commit_ts lock)
      (insert_version-Written vs (commit_version key commit_ts lock) h.sorted),
  load_lock-commit_txn s key commit_ts lock j,
)
