-- ===== src/Mvcc/Scanner/Moving.antt =====
-- internal/storage/mvcc/scanner.go: the moves of the write cursor, to the first version that the scan
-- sees and behind the versions of a key.
use gookv.Prelude.{
  ℕ, zero, suc, Bool, true, false, List, [], ◌∷◌, ◌++◌, leb, if◌then◌else◌, ok, err,
}
use gookv.Prelude.Order.{equal_bytes}
use gookv.TxnTypes.Timestamp.{ts_max}
use gookv.Mvcc.Key.{encode_key, decode_key, encode_lock_key, truncate_to_user_key, seek_bound}
use gookv.Mvcc.Snapshot.{Entries}
use gookv.Mvcc.Iterator.{valid, seek_to_last, prev_entry}
use gookv.Mvcc.Scanner.State.{
  advance_write_cursor, seek_write_cursor, next_write, count_seek, ScannerConfig, Scanner,
}

-- The rest of `moveWriteCursorToTS` behind a move: whether the cursor stands on the key, and whether
-- the version is visible.
pub data Spot : Type 0 where
  elsewhere newer visible : Spot

unfoldable pub spot_at : ScannerConfig → Entries → List ℕ → Spot
spot_at cfg [] user_key = elsewhere
spot_at cfg (e ∷ _) user_key = elim (decode_key e.0) [
  | err _ ↦ elsewhere
  | ok found ↦
      if equal_bytes found.0 user_key
      then (if leb found.1 cfg.read_ts then visible else newer)
      else elsewhere
]

abbrev pub spot : Scanner → List ℕ → Spot
spot s user_key = spot_at s.cfg s.write_cursor.ahead user_key

-- The loop of `moveWriteCursorToTS`, with the number of moves that are left, and the seek behind it.
unfoldable pub move_to_ts_loop : ℕ → Scanner → List ℕ → Scanner × Bool
move_to_ts_loop zero s user_key =
    let s' = seek_write_cursor (count_seek s) (encode_key user_key s.cfg.read_ts) in
    (s', elim (spot s' user_key) [ visible ↦ true | _ ↦ false ])
move_to_ts_loop (suc n) s user_key =
    let s' = advance_write_cursor s in
    let more = move_to_ts_loop n s' user_key in
    elim (spot s' user_key) [ elsewhere ↦ (s', false) | visible ↦ (s', true) | newer ↦ more ]

unfoldable pub move_write_cursor_to_ts : Scanner → List ℕ → Scanner × Bool
move_write_cursor_to_ts s user_key = elim (spot s user_key) [
  | elsewhere ↦ (s, false)
  | visible ↦ (s, true)
  | newer ↦ move_to_ts_loop seek_bound s user_key
]

unfoldable pub reposition_for_backward : Scanner → List ℕ → Scanner
reposition_for_backward s user_key =
    let s' = seek_write_cursor s (encode_key user_key ts_max) in
    if valid s'.write_cursor
    then record s' { write_cursor = prev_entry s'.write_cursor }
    else record s' { write_cursor = seek_to_last s'.write_cursor }

-- Whether a cursor is valid and stands on the user key.
unfoldable pub stays_on : Entries → List ℕ → Bool
stays_on [] user_key = false
stays_on (e ∷ _) user_key = equal_bytes (truncate_to_user_key e.0) (encode_lock_key user_key)

-- The loop of `moveWriteCursorToNextUserKey`, with the number of moves that are left.
unfoldable pub move_to_next_loop : ℕ → Scanner → List ℕ → Scanner
move_to_next_loop zero s user_key =
    seek_write_cursor (count_seek s) (encode_key (user_key ++ (0 ∷ [])) ts_max)
move_to_next_loop (suc n) s user_key =
    let s' = next_write s in
    let more = move_to_next_loop n s' user_key in
    if stays_on s'.write_cursor.ahead user_key then more else s'

unfoldable pub move_write_cursor_to_next_user_key : Scanner → List ℕ → Scanner
move_write_cursor_to_next_user_key s user_key =
    if s.cfg.desc
    then reposition_for_backward s user_key
    else move_to_next_loop seek_bound s user_key
