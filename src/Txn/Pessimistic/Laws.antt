-- ===== src/Txn/Pessimistic/Laws.antt =====
-- What pessimistic locks do to readers and to each other.
use gookv.Prelude.{
  ℕ, ◌≡◌, refl, sym, ◌∙◌, ap, false, none, some, List, if◌then◌else◌, arith, ok, take, Bool-cases,
  inl, inr,
}
use gookv.Prelude.Order.{equal_bytes, eq_of_equal_bytes}
use gookv.TxnTypes.Lock.{Lock, lock_type_pessimistic}
use gookv.TxnTypes.Lock.RoundTrip.{IsValid, stored}
use gookv.Mvcc.Snapshot.{Snapshot}
use gookv.Mvcc.Txn.{MvccTxn, new_mvcc_txn, put_lock}
use gookv.Mvcc.Txn.Apply.{apply, apply_all}
use gookv.Mvcc.Versions.{Version}
use gookv.Mvcc.Reader.{load_lock, get_write, get_value}
use gookv.Mvcc.Reader.Locks.{load_lock-put}
use gookv.Mvcc.PointGetter.{PointGetter, get, check_lock, read_visible, read_value, blocks}
use gookv.Mvcc.Holds.{Holds}
use gookv.Txn.Outcome.{done, ◌>>◌}
use gookv.Txn.Actions.Conflicts.{newer_versions, changes_data, verdict}
use gookv.Txn.AsyncCommit.Laws.{check_newest-verdict}
use gookv.Txn.Pessimistic.{
  PessimisticLockProps, pessimistic_lock, acquire_new, acquire_pessimistic_lock,
}

abbrev pub acquired : PessimisticLockProps → List ℕ → MvccTxn
acquired props key = put_lock (new_mvcc_txn props.start_ts) key (pessimistic_lock props)

-- Taking a pessimistic lock on a key without a lock: a write conflict exactly when the newest version
-- of the key is newer than `for_update_ts` and changes data, and otherwise the lock.
pub acquire-verdict :
    (s : Snapshot) (vs : List Version) (props : PessimisticLockProps) (key : List ℕ)
    → Holds s vs
    → load_lock s key ≡ ok none
    → acquire_pessimistic_lock (new_mvcc_txn props.start_ts) s props key
      ≡ verdict (changes_data (take 1 (newer_versions vs key props.for_update_ts)))
        >> done (acquired props key)
unfolding acquire_pessimistic_lock acquire_new
acquire-verdict s vs props key h e =
    rw (e, check_newest-verdict s vs key props.for_update_ts h) refl

-- The reader with another snapshot.
abbrev pub reading : PointGetter → Snapshot → PointGetter
reading pg s = record pg { snapshot = s }

same-read :
    (pg : PointGetter) (s t : Snapshot) (key : List ℕ)
    → t.cf_write ≡ s.cf_write
    → t.cf_default ≡ s.cf_default
    → read_visible (reading pg t) key ≡ read_visible (reading pg s) key
unfolding read_visible read_value get_write get_value
same-read pg s t key w d = rw (w, d) refl

acquired-others :
    (s : Snapshot) (props : PessimisticLockProps) (key : List ℕ)
    → ((apply_all s (acquired props key).modifies).cf_write ≡ s.cf_write)
      × ((apply_all s (acquired props key).modifies).cf_default ≡ s.cf_default)
unfolding apply_all apply put_lock new_mvcc_txn
acquired-others s props key = (refl, refl)

load_lock-acquired :
    (s : Snapshot) (props : PessimisticLockProps) (key j : List ℕ)
    → IsValid (pessimistic_lock props)
    → load_lock (apply_all s (acquired props key).modifies) j
      ≡ (if equal_bytes key j then ok (some (stored (pessimistic_lock props))) else load_lock s j)
unfolding apply_all put_lock new_mvcc_txn
load_lock-acquired s props key j v = load_lock-put s key j (pessimistic_lock props) v

-- A read finds the same where the lock is the same, or a pessimistic one instead of none.
get-same_lock :
    (pg : PointGetter) (s t : Snapshot) (j : List ℕ)
    → load_lock t j ≡ load_lock s j
    → read_visible (reading pg t) j ≡ read_visible (reading pg s) j
    → get (reading pg t) j ≡ get (reading pg s) j
unfolding get check_lock blocks
get-same_lock pg s t j e r = ground (arith, e, r)

get-pessimistic_lock :
    (pg : PointGetter) (s t : Snapshot) (j : List ℕ) (lock : Lock)
    → load_lock s j ≡ ok none
    → load_lock t j ≡ ok (some lock)
    → lock.lock_type ≡ lock_type_pessimistic
    → read_visible (reading pg t) j ≡ read_visible (reading pg s) j
    → get (reading pg t) j ≡ get (reading pg s) j
unfolding get check_lock blocks
get-pessimistic_lock pg s t j lock e f p r = ground (arith, e, f, p, r)

pessimistic-type :
    (props : PessimisticLockProps)
    → (stored (pessimistic_lock props)).lock_type ≡ lock_type_pessimistic
unfolding pessimistic_lock
pessimistic-type props = refl

-- In a well-formed store, taking a pessimistic lock on a key without a lock and without a conflict,
-- with a lock whose numbers fit their widths: it succeeds, and no point read, of this key or
-- another, in either isolation level, has another result than before.
pub acquire_is_invisible :
    (s : Snapshot) (vs : List Version) (props : PessimisticLockProps) (key : List ℕ)
    → (pg : PointGetter) (j : List ℕ) → Holds s vs
    → load_lock s key ≡ ok none
    → changes_data (take 1 (newer_versions vs key props.for_update_ts)) ≡ false
    → IsValid (pessimistic_lock props)
    → (txn : MvccTxn) × (acquire_pessimistic_lock (new_mvcc_txn props.start_ts) s props key
        ≡ done txn)
      × (get (reading pg (apply_all s txn.modifies)) j ≡ get (reading pg s) j)
acquire_is_invisible s vs props key pg j h e c v =
    (acquired props key, rw (acquire-verdict s vs props key h e, c) refl, invisible)
  where
    invisible :
        get (reading pg (apply_all s (acquired props key).modifies)) j ≡ get (reading pg s) j
    invisible =
        let others = acquired-others s props key in
        let same = same-read pg s (apply_all s (acquired props key).modifies) j others.0 others.1 in
        let held = load_lock-acquired s props key j v in
        elim (Bool-cases (equal_bytes key j)) [
          | inl at_key ↦
              get-pessimistic_lock pg s _ j (stored (pessimistic_lock props))
                (ap (load_lock s) (sym (eq_of_equal_bytes key j at_key)) ∙ e) (rw at_key at held)
                (pessimistic-type props) same
          | inr other ↦ get-same_lock pg s _ j (rw other at held) same
        ]
