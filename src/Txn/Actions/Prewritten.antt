-- ===== src/Txn/Actions/Prewritten.antt =====
-- What a prewrite leaves in the store, and how its value reaches the readers.
use gookv.Prelude.{
  ℕ, ◌≡◌, ◌<◌, refl, ◌∙◌, Bool, false, none, some, List, length, take, if◌then◌else◌, arith, ok,
}
use gookv.Prelude.Order.{equal_bytes, equal_bytes_self}
use gookv.TxnTypes.Lock.{Lock, marshal}
use gookv.TxnTypes.Lock.RoundTrip.{IsValid, stored}
use gookv.TxnTypes.Write.{short_value_max_len}
use gookv.Mvcc.Key.{encode_key, encode_lock_key}
use gookv.Mvcc.Snapshot.{Snapshot}
use gookv.Mvcc.Txn.{MvccTxn, new_mvcc_txn, put_lock, put_value, put, cf_lock}
use gookv.Mvcc.Txn.Apply.{apply, apply_all, get-put_entry}
use gookv.Mvcc.Versions.{Version}
use gookv.Mvcc.Reader.{load_lock, get_value}
use gookv.Mvcc.Reader.Locks.{load_lock-put, load_lock-other_cf}
use gookv.Mvcc.Holds.{Holds}
use gookv.Txn.Outcome.{done, ◌>>◌}
use gookv.Txn.Actions.{
  PrewriteProps, Mutation, op_put, conflict_rounds, prewrite, prewrite_new, prewrite_lock,
  put_large_value,
}
use gookv.Txn.Actions.Conflicts.{newer_versions, changes_data, verdict, check_newer-verdict}
use gookv.Txn.Actions.Lifecycle.{locks-Holds}

-- The modifications that write a lock, and the large value of the mutation.
abbrev pub locked : Lock → Mutation → ℕ → MvccTxn
locked lock m start_ts = put_large_value (put_lock (new_mvcc_txn start_ts) m.key lock) m start_ts

abbrev pub prewritten : PrewriteProps → Mutation → MvccTxn
prewritten props m = locked (prewrite_lock props m) m props.start_ts

-- One of the first 64 versions of the key that are newer than the transaction changes data.
abbrev pub is_conflict : List Version → Mutation → ℕ → Bool
is_conflict vs m start_ts = changes_data (take conflict_rounds (newer_versions vs m.key start_ts))

-- Prewrite of a key without a lock, in a well-formed store: a write conflict exactly when one of the
-- first 64 versions of the key that are newer than the transaction changes data, and otherwise the
-- lock and the large value.
pub prewrite-verdict :
    (s : Snapshot) (vs : List Version) (props : PrewriteProps) (m : Mutation)
    → Holds s vs
    → load_lock s m.key ≡ ok none
    → prewrite (new_mvcc_txn props.start_ts) s props m
      ≡ verdict (is_conflict vs m props.start_ts) >> done (prewritten props m)
unfolding prewrite prewrite_new
prewrite-verdict s vs props m h e =
    rw
      (
        e,
        check_newer-verdict conflict_rounds s vs m.key props.start_ts h.entries h.storable h.sorted,
      )
      refl

pub prewrite-done :
    (s : Snapshot) (vs : List Version) (props : PrewriteProps) (m : Mutation)
    → Holds s vs
    → load_lock s m.key ≡ ok none
    → is_conflict vs m props.start_ts ≡ false
    → prewrite (new_mvcc_txn props.start_ts) s props m ≡ done (prewritten props m)
prewrite-done s vs props m h e c = rw (prewrite-verdict s vs props m h e, c) refl

locked-cf_write :
    (s : Snapshot) (lock : Lock) (m : Mutation) (start_ts : ℕ)
    → (apply_all s (locked lock m start_ts).modifies).cf_write ≡ s.cf_write
unfolding apply_all apply put_large_value put_lock new_mvcc_txn put_value
locked-cf_write s lock m start_ts = ground arith

locked-cf_lock :
    (s : Snapshot) (lock : Lock) (m : Mutation) (start_ts : ℕ)
    → (apply_all s (locked lock m start_ts).modifies).cf_lock
      ≡ (apply s (put cf_lock (encode_lock_key m.key) (marshal lock))).cf_lock
unfolding apply_all apply put_large_value put_lock new_mvcc_txn put_value
locked-cf_lock s lock m start_ts = ground arith

pub Holds-locked :
    (s : Snapshot) (vs : List Version) (lock : Lock) (m : Mutation) (start_ts : ℕ)
    → Holds s vs
    → Holds (apply_all s (locked lock m start_ts).modifies) vs
Holds-locked s vs lock m start_ts h =
    locks-Holds s (apply_all s (locked lock m start_ts).modifies) vs
      (locked-cf_write s lock m start_ts) h

pub load_lock-locked :
    (s : Snapshot) (lock : Lock) (m : Mutation) (start_ts : ℕ) (j : List ℕ)
    → IsValid lock
    → load_lock (apply_all s (locked lock m start_ts).modifies) j
      ≡ (if equal_bytes m.key j then ok (some (stored lock)) else load_lock s j)
load_lock-locked s lock m start_ts j v =
    load_lock-other_cf (apply s (put cf_lock (encode_lock_key m.key) (marshal lock)))
      (apply_all s (locked lock m start_ts).modifies) j (locked-cf_lock s lock m start_ts)
    ∙ load_lock-put s m.key j lock v

-- The value of a put that is longer than 255 bytes is found under the start timestamp.
pub get_value-prewritten :
    (s : Snapshot) (props : PrewriteProps) (m : Mutation) (v : List ℕ)
    → m.op ≡ op_put
    → m.value ≡ some v
    → short_value_max_len < length v
    → get_value (apply_all s (prewritten props m).modifies) m.key props.start_ts ≡ some v
unfolding apply_all apply put_large_value put_lock new_mvcc_txn put_value get_value
get_value-prewritten s props m v o e large =
    rw (o, e)
      (ground (
        arith,
        get-put_entry s.cf_default (encode_key m.key props.start_ts) v
            (encode_key m.key props.start_ts),
        equal_bytes_self (encode_key m.key props.start_ts),
      ))

-- In a well-formed store, a prewrite of a key without a lock and without a conflict, with a lock
-- whose numbers fit their widths: it succeeds, no committed version changes, the lock reads back as
-- it is stored, and the lock of every other key stays.
pub prewrite_locks :
    (s : Snapshot) (vs : List Version) (props : PrewriteProps) (m : Mutation) (j : List ℕ)
    → Holds s vs
    → load_lock s m.key ≡ ok none
    → is_conflict vs m props.start_ts ≡ false
    → IsValid (prewrite_lock props m)
    → (txn : MvccTxn) × (prewrite (new_mvcc_txn props.start_ts) s props m ≡ done txn)
      × Holds (apply_all s txn.modifies) vs
      × (load_lock (apply_all s txn.modifies) j ≡ (
          if equal_bytes m.key j
          then ok (some (stored (prewrite_lock props m)))
          else load_lock s j))
prewrite_locks s vs props m j h e c v = (
  prewritten props m,
  prewrite-done s vs props m h e c,
  Holds-locked s vs (prewrite_lock props m) m props.start_ts h,
  load_lock-locked s (prewrite_lock props m) m props.start_ts j v,
)
