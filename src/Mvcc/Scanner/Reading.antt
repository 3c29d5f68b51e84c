-- ===== src/Mvcc/Scanner/Reading.antt =====
-- internal/storage/mvcc/scanner.go: `loadValueFromDefault` and `handleWrite`.
use gookv.Prelude.{
  ℕ, zero, suc, ◌+◌, Bool, true, false, not, ◌&&◌, ◌||◌, Option, none, some, List, [], ◌∷◌, length,
  leb, ◌==◌, if◌then◌else◌, Result, ok, err, Error, ◌>>=◌, not_found,
}
use gookv.Prelude.Order.{equal_bytes}
use gookv.TxnTypes.Write.{
  Write, unmarshal_write, write_type_put, write_type_delete, write_type_lock, write_type_rollback,
}
use gookv.Mvcc.Key.{encode_key, decode_key}
use gookv.Mvcc.Snapshot.{Entries}
use gookv.Mvcc.Iterator.{Iterator, new_iterator, seek_iterator}
use gookv.Mvcc.Reader.{can_jump}
use gookv.Mvcc.Scanner.State.{seek_write_cursor, next_write, count_seek, ScannerConfig, Scanner}
use gookv.Mvcc.Scanner.Moving.{move_write_cursor_to_ts, move_write_cursor_to_next_user_key}

abbrev pub open_default : Scanner → Option Iterator → Scanner × Iterator
open_default s (some it) = (s, it)
open_default s none =
    let it =
      new_iterator s.cfg.snapshot.cf_default (record { lower_bound = none; upper_bound = none }) in
    (record s { default_cursor = some it }, it)

unfoldable pub ensure_default_cursor : Scanner → Scanner × Iterator
ensure_default_cursor s = open_default s s.default_cursor

-- What `loadValueFromDefault` makes of the cursor's position.
unfoldable pub value_at : Entries → List ℕ → ℕ → Result (List ℕ)
value_at [] user_key start_ts = err not_found
value_at (e ∷ _) user_key start_ts = do
  (uk, ts) ← decode_key e.0
  (if equal_bytes uk user_key && ts == start_ts then ok e.1 else err not_found)

unfoldable pub load_value_from_default : Scanner → List ℕ → ℕ → Scanner × Result (List ℕ)
load_value_from_default s user_key start_ts =
    let (s', it) = ensure_default_cursor s in
    let it' = seek_iterator it (encode_key user_key start_ts) in
    (
      record s' {
        default_cursor = some it';
        stats = record s'.stats { default_reads = s'.stats.default_reads + 1 };
      },
      value_at it'.ahead user_key start_ts,
    )

-- What `handleWrite` answers: a visible value, nil for a key alone; no visible value; no value in
-- CF_DEFAULT for the record with this start timestamp; or, in the model alone, fuel that has run out.
pub data Handled : Type 0 where
  found : Option (List ℕ) → Handled
  absent : Handled
  value_missing : ℕ → Error → Handled
  endless : Handled

abbrev pub loaded : ℕ → Result (List ℕ) → Handled
loaded start_ts (ok v) = found (some v)
loaded start_ts (err e) = value_missing start_ts e

-- The answer for a put, by whether keys alone are wanted and by its short value.
unfoldable pub read_put : Scanner → List ℕ → ℕ → Bool → Option (List ℕ) → Scanner × Handled
read_put s user_key start_ts true short_value =
    (move_write_cursor_to_next_user_key s user_key, found none)
read_put s user_key start_ts false (some v) =
    (move_write_cursor_to_next_user_key s user_key, found (some v))
read_put s user_key start_ts false none =
    let (s', r) = load_value_from_default s user_key start_ts in
    (move_write_cursor_to_next_user_key s' user_key, loaded start_ts r)

abbrev pub handle_put : Scanner → List ℕ → Write → Scanner × Handled
handle_put s user_key w = read_put s user_key w.start_ts s.cfg.key_only w.short_value

-- A lock or rollback record changes no data, and the search goes on behind it.
abbrev pub pass_record : Scanner → List ℕ → Write → Scanner
pass_record s user_key w =
    if can_jump w
    then count_seek (seek_write_cursor s (encode_key user_key w.last_change.ts))
    else next_write s

-- What the loop of `handleWrite` finds at the write cursor: no entry of the user key, a key that
-- cannot be decoded, a version that is too new, a record that cannot be read, or a record.
pub data Visit : Type 0 where
  moved_past bad_key too_new bad_record : Visit
  record_here : Write → Visit

unfoldable pub visit : ScannerConfig → Entries → List ℕ → Visit
visit cfg [] user_key = moved_past
visit cfg (e ∷ _) user_key = elim (decode_key e.0) [
  | err _ ↦ bad_key
  | ok at_key ↦
      if not (equal_bytes at_key.0 user_key)
      then moved_past
      else if not (leb at_key.1 cfg.read_ts)
      then too_new
      else elim (unmarshal_write e.1) [ err _ ↦ bad_record | ok w ↦ record_here w ]
]

abbrev pub count_scanned : Scanner → Scanner
count_scanned s = record s { stats = record s.stats { scanned_keys = s.stats.scanned_keys + 1 } }

-- A round of the loop of `handleWrite`, with the rounds behind a version that is too new and behind
-- a record that changes no data.
unfoldable pub on_visit :
    Scanner → List ℕ → Scanner × Handled → (Write → Scanner × Handled) → Visit → Scanner × Handled
on_visit s user_key newer_passed passed moved_past = (s, absent)
on_visit s user_key newer_passed passed bad_key =
    (move_write_cursor_to_next_user_key s user_key, absent)
on_visit s user_key newer_passed passed too_new = newer_passed
on_visit s user_key newer_passed passed bad_record =
    (move_write_cursor_to_next_user_key (count_scanned s) user_key, absent)
on_visit s user_key newer_passed passed (record_here w) =
    let leave : Scanner × Handled =
      (move_write_cursor_to_next_user_key (count_scanned s) user_key, absent) in
    if w.write_type == write_type_put
    then handle_put (count_scanned s) user_key w
    else if w.write_type == write_type_delete
    then leave
    else if w.write_type == write_type_lock || w.write_type == write_type_rollback
    then passed w
    else leave

unfoldable pub handle_write_loop : ℕ → Scanner → List ℕ → Scanner × Handled
handle_write_loop zero s user_key = (s, endless)
handle_write_loop (suc fuel) s user_key =
    on_visit s user_key (handle_write_loop fuel (next_write s) user_key)
      (λ w. handle_write_loop fuel (pass_record (count_scanned s) user_key w) user_key)
      (visit s.cfg s.write_cursor.ahead user_key)

-- The fuel is more than the entries in front of the cursor, and each round has one less.
unfoldable pub handle_write : Scanner → List ℕ → Scanner × Handled
handle_write s user_key =
    let s' = if s.cfg.desc then seek_write_cursor s (encode_key user_key s.cfg.read_ts) else s in
    let (t, is_visible) = move_write_cursor_to_ts s' user_key in
    if is_visible
    then handle_write_loop (suc (length t.write_cursor.entries)) t user_key
    else (move_write_cursor_to_next_user_key t user_key, absent)
