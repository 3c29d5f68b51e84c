-- ===== src/Mvcc/Scanner/State.antt =====
-- internal/storage/mvcc/scanner.go: the configuration and the state of `Scanner`, its cursors, and
-- `currentUserKey`. Lock timestamps to bypass are a list.
use gookv.Prelude.{
  ℕ, ◌+◌, Bool, true, false, Option, none, some, List, [], ◌∷◌, if◌then◌else◌, Ordering, ok, err,
}
use gookv.Prelude.Order.{compare_bytes}
use gookv.TxnTypes.Timestamp.{ts_max}
use gookv.Mvcc.Key.{encode_key, decode_key, encode_lock_key, decode_lock_key}
use gookv.Mvcc.Snapshot.{Snapshot, Entries}
use gookv.Mvcc.Iterator.{
  Iterator, IterOptions, new_iterator, seek_to_first, seek_to_last, seek_iterator, next_entry,
  prev_entry,
}
use gookv.Mvcc.PointGetter.{IsolationLevel, si, rc}

pub record ScannerConfig : Type 0 where
  pub snapshot : Snapshot
  pub read_ts : ℕ
  pub desc : Bool
  pub isolation_level : IsolationLevel
  pub key_only : Bool
  pub lower_bound : Option (List ℕ)
  pub upper_bound : Option (List ℕ)
  pub bypass_locks : List ℕ

pub record ScanStatistics : Type 0 where
  pub scanned_keys : ℕ
  pub processed_keys : ℕ
  pub scanned_locks : ℕ
  pub default_reads : ℕ
  pub over_seek_bound : ℕ

abbrev pub no_statistics : ScanStatistics
no_statistics = record {
  scanned_keys = 0;
  processed_keys = 0;
  scanned_locks = 0;
  default_reads = 0;
  over_seek_bound = 0;
}

pub record Scanner : Type 0 where
  pub cfg : ScannerConfig
  pub write_cursor : Iterator
  pub lock_cursor : Option Iterator
  pub default_cursor : Option Iterator
  pub is_started : Bool
  pub stats : ScanStatistics

abbrev pub bound : (List ℕ → List ℕ) → Option (List ℕ) → Option (List ℕ)
bound f none = none
bound f (some key) = some (f key)

-- For a backward scan the upper bound of CF_WRITE has the timestamp 0.
abbrev pub write_options : ScannerConfig → IterOptions
write_options cfg = record {
  lower_bound = bound (λ k. encode_key k ts_max) cfg.lower_bound;
  upper_bound = bound (λ k. encode_key k (if cfg.desc then 0 else ts_max)) cfg.upper_bound;
}

abbrev pub lock_options : ScannerConfig → IterOptions
lock_options cfg = record {
  lower_bound = bound encode_lock_key cfg.lower_bound;
  upper_bound = bound encode_lock_key cfg.upper_bound;
}

-- Under read committed there is no lock cursor.
abbrev pub new_lock_cursor : ScannerConfig → IsolationLevel → Option Iterator
new_lock_cursor cfg si = some (new_iterator cfg.snapshot.cf_lock (lock_options cfg))
new_lock_cursor cfg rc = none

unfoldable pub new_scanner : ScannerConfig → Scanner
new_scanner cfg = record {
  cfg = cfg;
  write_cursor = new_iterator cfg.snapshot.cf_write (write_options cfg);
  lock_cursor = new_lock_cursor cfg cfg.isolation_level;
  default_cursor = none;
  is_started = false;
  stats = no_statistics;
}

abbrev pub move_cursor : (Iterator → Iterator) → Option Iterator → Option Iterator
move_cursor f none = none
move_cursor f (some it) = some (f it)

abbrev pub seek_end : Bool → Iterator → Iterator
seek_end desc it = if desc then seek_to_last it else seek_to_first it

unfoldable pub initial_seek : Scanner → Scanner
initial_seek s = record s {
  write_cursor = seek_end s.cfg.desc s.write_cursor;
  lock_cursor = move_cursor (seek_end s.cfg.desc) s.lock_cursor;
}

unfoldable pub advance_write_cursor : Scanner → Scanner
advance_write_cursor s = record s {
  write_cursor = (if s.cfg.desc then prev_entry else next_entry) s.write_cursor;
}

unfoldable pub advance_lock_cursor : Scanner → Scanner
advance_lock_cursor s = record s {
  lock_cursor = move_cursor (if s.cfg.desc then prev_entry else next_entry) s.lock_cursor;
}

abbrev pub seek_write_cursor : Scanner → List ℕ → Scanner
seek_write_cursor s target = record s { write_cursor = seek_iterator s.write_cursor target }

abbrev pub next_write : Scanner → Scanner
next_write s = record s { write_cursor = next_entry s.write_cursor }

-- `stats.OverSeekBound++`
abbrev pub count_seek : Scanner → Scanner
count_seek s = record s { stats = record s.stats { over_seek_bound = s.stats.over_seek_bound + 1 } }

-- The user key in front of a cursor, if there is one and it can be decoded.
unfoldable pub write_user_key : Entries → Option (List ℕ)
write_user_key [] = none
write_user_key (e ∷ _) = elim (decode_key e.0) [ ok found ↦ some found.0 | err _ ↦ none ]

unfoldable pub lock_key : Option Iterator → Option (List ℕ)
lock_key none = none
lock_key (some it) = elim it.ahead [
  | [] ↦ none
  | e ∷ _ ↦ elim (decode_lock_key e.0) [ ok k ↦ some k | err _ ↦ none ]
]

abbrev pub lock_user_key : Scanner → Option (List ℕ)
lock_user_key s = lock_key s.lock_cursor

-- The smaller key of a forward scan, the larger one of a backward scan: the key, whether the write
-- cursor stands on it, and whether there is a lock on it. With a lock alone the lock cursor moves on.
unfoldable pub choose_key :
    Scanner → Option (List ℕ) → Option (List ℕ) → Scanner × Option (List ℕ × Bool × Bool)
choose_key s none none = (s, none)
choose_key s none (some l) = (advance_lock_cursor s, some (l, false, true))
choose_key s (some w) none = (s, some (w, true, false))
choose_key s (some w) (some l) =
    let skip : Scanner × Option (List ℕ × Bool × Bool) =
      (advance_lock_cursor s, some (l, false, true)) in
    let stay : Scanner × Option (List ℕ × Bool × Bool) = (s, some (w, true, false)) in
    elim (compare_bytes w l) [
      | Ordering.eq ↦ (s, some (w, true, true))
      | Ordering.lt ↦ if s.cfg.desc then skip else stay
      | Ordering.gt ↦ if s.cfg.desc then stay else skip
    ]

abbrev pub current_user_key : Scanner → Scanner × Option (List ℕ × Bool × Bool)
current_user_key s = choose_key s (write_user_key s.write_cursor.ahead) (lock_user_key s)
