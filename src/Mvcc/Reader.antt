-- ===== src/Mvcc/Reader.antt =====
-- internal/storage/mvcc/reader.go: reads across the column families. A found record comes with its
-- commit timestamp.
pub mod Locks
pub mod Recorded
pub mod Writes
pub mod Records
use gookv.Prelude.{
  ℕ, zero, suc, ◌+◌, ◌<◌, Bool, true, false, not, ◌&&◌, ◌||◌, Option, none, some, List, [], ◌∷◌,
  length, leb, ltb, ◌==◌, if◌then◌else◌, Result, ok, err, ◌>>=◌, out_of_fuel,
}
use gookv.Prelude.Order.{equal_bytes}
use gookv.TxnTypes.Timestamp.{ts_max, is_zero}
use gookv.TxnTypes.Lock.{Lock, unmarshal_lock}
use gookv.TxnTypes.Write.{
  Write, unmarshal_write, write_type_put, write_type_delete, write_type_lock, write_type_rollback,
}
use gookv.Mvcc.Key.{encode_key, decode_key, encode_lock_key, truncate_to_user_key, seek_bound}
use gookv.Mvcc.Snapshot.{Entries, Snapshot, get, seek}

abbrev pub Found : Type 0
Found = Option (Write × ℕ)

unfoldable pub load_lock : Snapshot → List ℕ → Result (Option Lock)
load_lock snapshot key = elim (get snapshot.cf_lock (encode_lock_key key)) [
  | none ↦ ok none
  | some bytes ↦ (do lock ← unmarshal_lock bytes; ok (some lock))
]

-- `DecodeKey(foundKey)` and `UnmarshalWrite(iter.Value())`, as each reader does.
unfoldable pub decode_entry : List ℕ → List ℕ → Result (Write × ℕ)
decode_entry found_key bytes = do
  (_, commit_ts) ← decode_key found_key
  write ← unmarshal_write bytes
  ok (write, commit_ts)

-- What `SeekWrite` makes of the iterator's position.
unfoldable pub first_write : Entries → List ℕ → Result Found
first_write [] key = ok none
first_write ((found_key, bytes) ∷ rest) key =
    if equal_bytes (truncate_to_user_key found_key) (encode_lock_key key)
    then (do found ← decode_entry found_key bytes; ok (some found))
    else ok none

unfoldable pub seek_write : Snapshot → List ℕ → ℕ → Result Found
seek_write snapshot key ts = first_write (seek snapshot.cf_write (encode_key key ts)) key

abbrev pub can_jump : Write → Bool
can_jump w = leb seek_bound w.last_change.estimated_versions && not (is_zero w.last_change.ts)

-- Where the loop of `GetWrite` goes on behind a record that changes no data: it jumps if the record
-- names the last change.
unfoldable pub behind : Entries → List ℕ → Write → Entries → Entries
behind cf key w rest = if can_jump w then seek cf (encode_key key w.last_change.ts) else rest

-- The loop of `GetWrite`. Each round has an entry less in front of it if the timestamp that a record
-- names is older than the record, so the number of entries is enough fuel.
unfoldable pub get_write_loop : ℕ → Entries → List ℕ → Entries → Result Found
get_write_loop fuel cf key [] = ok none
get_write_loop zero cf key ((found_key, bytes) ∷ rest) = err out_of_fuel
get_write_loop (suc fuel) cf key ((found_key, bytes) ∷ rest) =
    if equal_bytes (truncate_to_user_key found_key) (encode_lock_key key)
    then (do
      (w, commit_ts) ← decode_entry found_key bytes
      let more = get_write_loop fuel cf key (behind cf key w rest)
      (if w.write_type == write_type_put
          then ok (some (w, commit_ts))
          else if w.write_type == write_type_delete
          then ok none
          else if w.write_type == write_type_lock || w.write_type == write_type_rollback
          then more
          else ok none))
    else ok none

unfoldable pub get_write : Snapshot → List ℕ → ℕ → Result Found
get_write snapshot key ts =
    get_write_loop (length snapshot.cf_write) snapshot.cf_write key
      (seek snapshot.cf_write (encode_key key ts))

-- The loop of `GetTxnCommitRecord`. It stops behind the last record that the transaction can own.
unfoldable pub txn_record_loop : List ℕ → ℕ → Entries → Result Found
txn_record_loop key start_ts [] = ok none
txn_record_loop key start_ts ((found_key, bytes) ∷ rest) =
    let more = txn_record_loop key start_ts rest in
    if equal_bytes (truncate_to_user_key found_key) (encode_lock_key key)
    then (do
      (write, commit_ts) ← decode_entry found_key bytes
      (if write.start_ts == start_ts
          then ok (some (write, commit_ts))
          else if ltb commit_ts start_ts
          then ok none
          else more))
    else ok none

unfoldable pub get_txn_commit_record : Snapshot → List ℕ → ℕ → Result Found
get_txn_commit_record snapshot key start_ts =
    txn_record_loop key start_ts (seek snapshot.cf_write (encode_key key ts_max))

unfoldable pub get_value : Snapshot → List ℕ → ℕ → Option (List ℕ)
get_value snapshot key start_ts = get snapshot.cf_default (encode_key key start_ts)
