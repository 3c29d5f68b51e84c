-- ===== src/Mvcc/Scanner.antt =====
-- internal/storage/mvcc/scanner.go: `Next`, the scan of a range of keys in either direction. The methods
-- of `Scanner` take its state and return the new one.
mod State
mod Locks
mod Moving
mod Reading
unfoldable pub use State.*
unfoldable pub use Locks.*
unfoldable pub use Moving.*
unfoldable pub use Reading.*
use gookv.Prelude.{
  ℕ, zero, suc, ◌+◌, Bool, true, false, not, ◌&&◌, ◌||◌, Option, none, some, List, [], ◌∷◌, ◌++◌,
  length, leb, ◌==◌, if◌then◌else◌, Ordering, Result, ok, err, Error, ◌>>=◌, not_found,
}
use gookv.Prelude.Order.{compare_bytes, equal_bytes}
use gookv.TxnTypes.Timestamp.{ts_max}
use gookv.TxnTypes.Lock.{Lock, unmarshal_lock, lock_type_pessimistic}
use gookv.TxnTypes.Write.{
  Write, unmarshal_write, write_type_put, write_type_delete, write_type_lock, write_type_rollback,
}
use gookv.Mvcc.Key.{
  encode_key, decode_key, encode_lock_key, decode_lock_key, truncate_to_user_key, seek_bound,
}
use gookv.Mvcc.Snapshot.{Snapshot, Entries}
use gookv.Mvcc.Iterator.{
  Iterator, IterOptions, at_least, below, new_iterator, valid, seek_to_first, seek_to_last,
  seek_iterator, next_entry, prev_entry,
}
use gookv.Mvcc.Reader.{can_jump}
use gookv.Mvcc.PointGetter.{IsolationLevel, si, rc, contains}

-- What `Next` answers.
pub data Scanned : Type 0 where
  row : List ℕ → Option (List ℕ) → Scanned
  exhausted : Scanned
  key_is_locked : List ℕ → Lock → Scanned
  default_not_found : List ℕ → ℕ → Error → Scanned
  never : Scanned

unfoldable pub out_of_bounds : ScannerConfig → List ℕ → Bool
out_of_bounds cfg key =
    if cfg.desc then not (at_least key cfg.lower_bound) else not (below key cfg.upper_bound)

-- What `Next` makes of the answer of `handleWrite`; `again` is the next round.
unfoldable pub on_handled :
    (Scanner → Scanner × Scanned) → List ℕ → Scanner → Handled → Scanner × Scanned
on_handled again key s (found v) =
    (record s { stats = record s.stats { processed_keys = s.stats.processed_keys + 1 } }, row key v)
on_handled again key s absent = again s
on_handled again key s (value_missing start_ts e) = (s, default_not_found key start_ts e)
on_handled again key s endless = (s, never)

-- A round of the loop of `Next` at the current user key.
unfoldable pub on_key :
    (Scanner → Scanner × Scanned) → Scanner × Option (List ℕ × Bool × Bool) → Scanner × Scanned
on_key again (s, none) = (s, exhausted)
on_key again (s, some (key, has_write, has_lock)) =
    let (t, blocking) = if has_lock then handle_lock s key else (s, none) in
    let (u, handled) = if has_write then handle_write t key else (t, absent) in
    if out_of_bounds s.cfg key then (s, exhausted) else elim blocking [
      | some lock ↦ (t, key_is_locked key lock)
      | none ↦ on_handled again key u handled
    ]

-- The loop of `Next`; `never` is the model's own answer where the fuel runs out.
unfoldable pub next_loop : ℕ → Scanner → Scanner × Scanned
next_loop zero s = (s, never)
next_loop (suc fuel) s = on_key (next_loop fuel) (current_user_key s)

abbrev pub entries_left : Scanner → ℕ
entries_left s =
    length s.write_cursor.ahead + elim s.lock_cursor [ none ↦ 0 | some it ↦ length it.ahead ]

abbrev pub started_scanner : Scanner → Bool → Scanner
started_scanner s true = s
started_scanner s false = record (initial_seek s) { is_started = true }

-- In a forward scan each round of the loop has an entry less in front of it.
unfoldable pub next : Scanner → Scanner × Scanned
next s = let s' = started_scanner s s.is_started in next_loop (suc (entries_left s')) s'

unfoldable pub take_statistics : Scanner → Scanner × ScanStatistics
take_statistics s = (record s { stats = no_statistics }, s.stats)
