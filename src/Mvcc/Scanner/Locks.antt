-- ===== src/Mvcc/Scanner/Locks.antt =====
-- internal/storage/mvcc/scanner.go: `handleLock`.
use gookv.Prelude.{
  ℕ, ◌+◌, Bool, not, ◌&&◌, Option, none, some, List, [], ◌∷◌, leb, ◌==◌, if◌then◌else◌, ok, err,
}
use gookv.Prelude.Order.{equal_bytes}
use gookv.TxnTypes.Lock.{Lock, unmarshal_lock, lock_type_pessimistic}
use gookv.Mvcc.Key.{decode_lock_key}
use gookv.Mvcc.Iterator.{Iterator}
use gookv.Mvcc.PointGetter.{contains}
use gookv.Mvcc.Scanner.State.{advance_lock_cursor, ScannerConfig, Scanner}

-- The entry under the lock cursor, if its key is the user key.
unfoldable pub lock_of : Option Iterator → List ℕ → Option (List ℕ)
lock_of none user_key = none
lock_of (some it) user_key = elim it.ahead [
  | [] ↦ none
  | e ∷ _ ↦ elim (decode_lock_key e.0) [
    | err _ ↦ none
    | ok k ↦ if equal_bytes k user_key then some e.1 else none
  ]
]

abbrev pub conflicts : ScannerConfig → Lock → Bool
conflicts cfg lock =
    not (lock.lock_type == lock_type_pessimistic)
    && leb lock.start_ts cfg.read_ts
    && not (contains cfg.bypass_locks lock.start_ts)

-- A lock that cannot be read is skipped.
unfoldable pub blocking_lock : ScannerConfig → List ℕ → Option Lock
blocking_lock cfg bytes = elim (unmarshal_lock bytes) [
  | err _ ↦ none
  | ok lock ↦ if conflicts cfg lock then some lock else none
]

abbrev pub judge_lock : Scanner → Option (List ℕ) → Scanner × Option Lock
judge_lock s none = (s, none)
judge_lock s (some bytes) = (
  advance_lock_cursor
      (record s { stats = record s.stats { scanned_locks = s.stats.scanned_locks + 1 } }),
  blocking_lock s.cfg bytes,
)

-- The lock that blocks the scan, if one does.
unfoldable pub handle_lock : Scanner → List ℕ → Scanner × Option Lock
handle_lock s user_key = judge_lock s (lock_of s.lock_cursor user_key)
