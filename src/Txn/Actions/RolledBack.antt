-- ===== src/Txn/Actions/RolledBack.antt =====
-- What a rollback leaves in the store.
use gookv.Prelude.{
  ℕ, ◌≡◌, refl, ◌∙◌, Bool, false, Option, none, some, List, ◌&&◌, ◌==◌, if◌then◌else◌, arith, ok,
  Bool-cases, inl, inr,
}
use gookv.Prelude.Order.{equal_bytes}
use gookv.Codec.Number.{IsU64}
use gookv.TxnTypes.Lock.{Lock}
use gookv.TxnTypes.Write.{marshal, new_write, write_type_rollback}
use gookv.Mvcc.Key.{encode_key, encode_lock_key}
use gookv.Mvcc.Snapshot.{Snapshot}
use gookv.Mvcc.Txn.{
  MvccTxn, new_mvcc_txn, unlock_key, delete_value, put_write, put, delete, cf_lock, cf_write,
}
use gookv.Mvcc.Txn.Apply.{apply, apply_all}
use gookv.Mvcc.Versions.{Version}
use gookv.Mvcc.Versions.Written.{Written, insert_version-Written}
use gookv.Mvcc.Versions.Insert.{insert_version}
use gookv.Mvcc.Reader.{load_lock}
use gookv.Mvcc.Reader.Locks.{load_lock-delete, load_lock-other_cf}
use gookv.Mvcc.Reader.Records.{own_record}
use gookv.Mvcc.Holds.{Holds, IsWritable, put_write-Holds, get_txn_commit_record_lem}
use gookv.Txn.Outcome.{done}
use gookv.Txn.Actions.{remove_lock, put_rollback, rollback_lock, rollback}
use gookv.Txn.Actions.Lifecycle.{locks-Holds}

-- The version that a rollback writes.
unfoldable pub rollback_version : List ℕ → ℕ → Version
rollback_version key start_ts = record {
  key = key;
  commit_ts = start_ts;
  write = new_write write_type_rollback start_ts;
}

rollback_version-IsWritable :
    (key : List ℕ) (start_ts : ℕ) → IsU64 start_ts → IsWritable (rollback_version key start_ts)
unfolding rollback_version
rollback_version-IsWritable key start_ts f = record {
  storable = record {
    commit_ts_fits = f;
    write_fits = record {
      start_ts_fits = f;
      short_value_fits = omega arith;
      gc_fence_fits = omega arith;
      last_change_fits = omega arith;
      versions_fit = omega arith;
      txn_source_fits = omega arith;
    };
    write_stored = refl;
  };
  names_no_change = refl;
  starts_before = omega arith;
}

abbrev pub rolled_back : List ℕ → ℕ → Option Lock → MvccTxn
rolled_back key start_ts l = rollback_lock (new_mvcc_txn start_ts) key start_ts l

-- The store in front of the rollback record.
abbrev unlocked : Snapshot → List ℕ → ℕ → Lock → Snapshot
unlocked s key start_ts lock =
    apply_all s (remove_lock (new_mvcc_txn start_ts) key start_ts lock).modifies

unlocked-cf_write :
    (s : Snapshot) (key : List ℕ) (start_ts : ℕ) (lock : Lock)
    → (unlocked s key start_ts lock).cf_write ≡ s.cf_write
unfolding apply_all apply remove_lock unlock_key new_mvcc_txn delete_value
unlocked-cf_write s key start_ts lock = ground arith

apply_all-rolled_back :
    (s : Snapshot) (key : List ℕ) (start_ts : ℕ) (lock : Lock)
    → apply_all s
        (put_rollback (remove_lock (new_mvcc_txn start_ts) key start_ts lock) key start_ts).modifies
      ≡ apply
          (unlocked s key start_ts lock)
          (put cf_write (encode_key key start_ts) (marshal (rollback_version key start_ts).write))
unfolding apply_all remove_lock put_rollback put_write unlock_key new_mvcc_txn delete_value
    rollback_version
apply_all-rolled_back s key start_ts lock = ground arith

abbrev pub is_own : Option Lock → ℕ → Bool
is_own none start_ts = false
is_own (some lock) start_ts = lock.start_ts == start_ts

Holds-put_rollback :
    (s t : Snapshot) (vs : List Version) (key : List ℕ) (start_ts : ℕ)
    → t.cf_write ≡ s.cf_write
    → Holds s vs
    → IsU64 start_ts
    → Holds
        (apply t
          (put cf_write (encode_key key start_ts) (marshal (rollback_version key start_ts).write)))
        (insert_version vs (rollback_version key start_ts))
unfolding rollback_version
Holds-put_rollback s t vs key start_ts e h f =
    put_write-Holds t vs (rollback_version key start_ts) (locks-Holds s t vs e h)
      (rollback_version-IsWritable key start_ts f)

apply_all-put_rollback :
    (s : Snapshot) (key : List ℕ) (start_ts : ℕ)
    → apply_all s (put_rollback (new_mvcc_txn start_ts) key start_ts).modifies
      ≡ apply s
          (put cf_write (encode_key key start_ts) (marshal (rollback_version key start_ts).write))
unfolding apply_all put_rollback put_write new_mvcc_txn rollback_version
apply_all-put_rollback s key start_ts = refl

pub Holds-rolled_back :
    (s : Snapshot) (vs : List Version) (key : List ℕ) (start_ts : ℕ) (l : Option Lock)
    → Holds s vs
    → IsU64 start_ts
    → Holds
        (apply_all s (rolled_back key start_ts l).modifies)
        (insert_version vs (rollback_version key start_ts))
unfolding rollback_lock
Holds-rolled_back s vs key start_ts none h f =
    rw (apply_all-put_rollback s key start_ts) (Holds-put_rollback s s vs key start_ts refl h f)
Holds-rolled_back s vs key start_ts (some lock) h f =
    elim (Bool-cases (lock.start_ts == start_ts)) [
      | inl own ↦
          rw (own, apply_all-rolled_back s key start_ts lock)
            (Holds-put_rollback s (unlocked s key start_ts lock) vs key start_ts
              (unlocked-cf_write s key start_ts lock) h f)
      | inr other ↦
          rw (other, apply_all-put_rollback s key start_ts)
            (Holds-put_rollback s s vs key start_ts refl h f)
    ]

unlocked-cf_lock :
    (s : Snapshot) (key : List ℕ) (start_ts : ℕ) (lock : Lock)
    → (unlocked s key start_ts lock).cf_lock
      ≡ (apply s (delete cf_lock (encode_lock_key key))).cf_lock
unfolding apply_all apply remove_lock unlock_key new_mvcc_txn delete_value
unlocked-cf_lock s key start_ts lock = ground arith

apply_write-cf_lock :
    (s : Snapshot) (k v : List ℕ) → (apply s (put cf_write k v)).cf_lock ≡ s.cf_lock
unfolding apply
apply_write-cf_lock s k v = refl

load_lock-unlocked :
    (s t : Snapshot) (key : List ℕ) (start_ts : ℕ) (lock : Lock) (j : List ℕ)
    → t.cf_lock ≡ (unlocked s key start_ts lock).cf_lock
    → load_lock t j ≡ (if equal_bytes key j then ok none else load_lock s j)
load_lock-unlocked s t key start_ts lock j e =
    load_lock-other_cf (apply s (delete cf_lock (encode_lock_key key))) t j
      (e ∙ unlocked-cf_lock s key start_ts lock)
    ∙ load_lock-delete s key j

pub load_lock-rolled_back :
    (s : Snapshot) (key : List ℕ) (start_ts : ℕ) (l : Option Lock) (j : List ℕ)
    → load_lock (apply_all s (rolled_back key start_ts l).modifies) j
      ≡ (if is_own l start_ts && equal_bytes key j then ok none else load_lock s j)
unfolding rollback_lock
load_lock-rolled_back s key start_ts none j =
    rw (apply_all-put_rollback s key start_ts)
      (load_lock-other_cf s _ j (apply_write-cf_lock s _ _))
load_lock-rolled_back s key start_ts (some lock) j = elim (Bool-cases (lock.start_ts == start_ts)) [
  | inl own ↦
      rw (own, apply_all-rolled_back s key start_ts lock)
        (load_lock-unlocked s _ key start_ts lock j
          (apply_write-cf_lock (unlocked s key start_ts lock) _ _))
  | inr other ↦
      rw (other, apply_all-put_rollback s key start_ts)
        (load_lock-other_cf s _ j (apply_write-cf_lock s _ _))
]

pub rollback-done :
    (s : Snapshot) (vs : List Version) (key : List ℕ) (start_ts : ℕ) (l : Option Lock)
    → Holds s vs
    → load_lock s key ≡ ok l
    → own_record vs key start_ts ≡ none
    → rollback (new_mvcc_txn start_ts) s key start_ts ≡ done (rolled_back key start_ts l)
unfolding rollback
rollback-done s vs key start_ts l h e n = rw (get_txn_commit_record_lem h key start_ts, n, e)

-- In a well-formed store, a rollback of a transaction that has no record on the key: it succeeds, and
-- the store stays well-formed. Its versions are those before with the rollback record in its place,
-- where it replaces a version of the key that another transaction committed at the timestamp of the
-- start, if there is one, and no other. The lock of the transaction on the key is gone while every
-- other lock, also that of another transaction on the same key, stays.
pub rollback_publishes :
    (s : Snapshot) (vs : List Version) (key : List ℕ) (start_ts : ℕ) (l : Option Lock) (j : List ℕ)
    → Holds s vs
    → IsU64 start_ts
    → load_lock s key ≡ ok l
    → own_record vs key start_ts ≡ none
    → (txn : MvccTxn) × (rollback (new_mvcc_txn start_ts) s key start_ts ≡ done txn)
      × (vs' : List Version) × Holds (apply_all s txn.modifies) vs'
      × Written vs (rollback_version key start_ts) vs'
      × (load_lock (apply_all s txn.modifies) j
          ≡ (if is_own l start_ts && equal_bytes key j then ok none else load_lock s j))
rollback_publishes s vs key start_ts l j h f e n = (
  rolled_back key start_ts l,
  rollback-done s vs key start_ts l h e n,
  insert_version vs (rollback_version key start_ts),
  Holds-rolled_back s vs key start_ts l h f,
  insert_version-Written vs (rollback_version key start_ts) h.sorted,
  load_lock-rolled_back s key start_ts l j,
)
