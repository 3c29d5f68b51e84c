-- ===== src/Mvcc/Scanning/Locked.antt =====
-- `Next` where there is a lock in front of the scanner.
use gookv.Prelude.{
  sym, [], ◌+◌, ℕ, suc, ◌≡◌, refl, ap, ap₂, ◌∙◌, Bool, true, false, Option, none, some, List, ◌∷◌,
  err, if◌then◌else◌, ok,
}
use gookv.Prelude.Order.{compare_bytes_self, equal_bytes_self}
use gookv.TxnTypes.Lock.{Lock, unmarshal_lock}
use gookv.Mvcc.Key.{decode_lock_key}
use gookv.Mvcc.Snapshot.{Entries}
use gookv.Mvcc.Iterator.{Iterator, next_entry, prev_entry}
use gookv.Mvcc.Scanner.{
  move_cursor, advance_lock_cursor, handle_write, on_handled, Scanner, write_user_key, choose_key,
  lock_key, lock_user_key, current_user_key, conflicts, lock_of, blocking_lock, judge_lock,
  handle_lock, on_key, next_loop, Scanned, key_is_locked, exhausted, out_of_bounds,
}

-- A lock at the front of the lock cursor.
pub record LockAhead (s : Scanner) (key : List ℕ) (lock : Lock) (behind : Entries) : Type 0 where
  pub cursor : Iterator
  pub encoded_key : List ℕ
  pub bytes : List ℕ
  pub lock_cursor : s.lock_cursor ≡ some cursor
  pub ahead : cursor.ahead ≡ (encoded_key, bytes) ∷ behind
  pub decodes : decode_lock_key encoded_key ≡ ok key
  pub reads : unmarshal_lock bytes ≡ ok lock

-- The lock cursor behind its last entry names no key.
lock_key-last :
    (it : Iterator) (e : List ℕ × List ℕ)
    → it.ahead ≡ e ∷ []
    → lock_key (some (next_entry it)) ≡ none
unfolding lock_key next_entry
lock_key-last it e p =
    ap
      (λ (es : Entries). lock_key (
        some (elim es [ [] ↦ it | x ∷ rest ↦ record it { passed = x ∷ it.passed; ahead = rest } ])))
      p

-- The scanner when `handleLock` has looked at the lock in front.
abbrev pub past_lock : Scanner → Scanner
past_lock s =
    advance_lock_cursor
      (record s { stats = record s.stats { scanned_locks = s.stats.scanned_locks + 1 } })

module _ (s : Scanner) (key : List ℕ) (lock : Lock) (behind : Entries)
    (l : LockAhead s key lock behind) where
  lock_user_key-LockAhead : lock_user_key s ≡ some key
  unfolding lock_key
  lock_user_key-LockAhead = rw (l.lock_cursor, l.ahead, l.decodes) refl

  lock_of-LockAhead : lock_of s.lock_cursor key ≡ some l.bytes
  unfolding lock_of
  lock_of-LockAhead = rw (l.lock_cursor, l.ahead, l.decodes, equal_bytes_self key) refl

  blocking_lock-LockAhead : conflicts s.cfg lock ≡ true → blocking_lock s.cfg l.bytes ≡ some lock
  unfolding blocking_lock
  blocking_lock-LockAhead c =
      ap (λ r. elim r [ err _ ↦ none | ok x ↦ if conflicts s.cfg x then some x else none ]) l.reads
      ∙ ap (λ (b : Bool). if b then some lock else none) c

  current_user_key-LockAhead :
      write_user_key s.write_cursor.ahead ≡ some key
      → current_user_key s ≡ (s, some (key, true, true))
  unfolding choose_key
  current_user_key-LockAhead w =
      ap₂ (choose_key s) w lock_user_key-LockAhead ∙ rw (choose_key, compare_bytes_self key) refl

  on_key-locked :
      (again : Scanner → Scanner × Scanned)
      → out_of_bounds s.cfg key ≡ false
      → (handle_lock s key).1 ≡ some lock
      → (on_key again (s, some (key, true, true))).1 ≡ key_is_locked key lock
  unfolding on_key
  on_key-locked again b blocked =
      let (t, blocking) = handle_lock s key in
      let (u, handled) = handle_write t key in
      let judged : Option Lock → Scanner × Scanned =
        λ o. elim o [ some x ↦ (t, key_is_locked key x) | none ↦ on_handled again key u handled ] in
      ap (λ (x : Bool). (if x then (s, exhausted) else judged blocking).1) b
      ∙ ap (λ (o : Option Lock). (judged o).1) blocked

  -- A round of the loop of `Next`, in either direction, that stands on a user key within the bounds,
  -- with a lock on this key that can be read and that conflicts.
  pub next_loop-locked :
      (fuel : ℕ)
      → write_user_key s.write_cursor.ahead ≡ some key
      → out_of_bounds s.cfg key ≡ false
      → conflicts s.cfg lock ≡ true
      → (next_loop (suc fuel) s).1 ≡ key_is_locked key lock
  unfolding next_loop handle_lock
  next_loop-locked fuel w b c =
      ap (λ r. (on_key (next_loop fuel) r).1) (current_user_key-LockAhead w)
      ∙ on_key-locked (next_loop fuel) b (
          ap (λ (o : Option (List ℕ)). (judge_lock s o).1) lock_of-LockAhead
          ∙ blocking_lock-LockAhead c)

  handle_lock-passes : conflicts s.cfg lock ≡ false → handle_lock s key ≡ (past_lock s, none)
  unfolding handle_lock blocking_lock
  handle_lock-passes c =
      ap (judge_lock s) lock_of-LockAhead
      ∙ ap
          (λ r. (
            past_lock s,
            elim r [ err _ ↦ none | ok x ↦ if conflicts s.cfg x then some x else none ],
          ))
          l.reads
      ∙ ap (λ (b : Bool). (past_lock s, if b then some lock else none)) c

  module _ (last : behind ≡ []) (forward : s.cfg.desc ≡ false) where
    pub past_lock-no_lock : lock_user_key (past_lock s) ≡ none
    unfolding advance_lock_cursor
    past_lock-no_lock =
        ap (λ o. lock_key (move_cursor (if s.cfg.desc then prev_entry else next_entry) o))
          l.lock_cursor
        ∙ ap (λ (b : Bool). lock_key (some ((if b then prev_entry else next_entry) l.cursor)))
            forward
        ∙ lock_key-last l.cursor (l.encoded_key, l.bytes)
            (l.ahead ∙ ap (◌∷◌ (l.encoded_key, l.bytes)) last)

    current_user_key-past_lock :
        write_user_key s.write_cursor.ahead ≡ some key
        → current_user_key (past_lock s) ≡ (past_lock s, some (key, true, false))
    unfolding choose_key advance_lock_cursor
    current_user_key-past_lock w = ap₂ (choose_key (past_lock s)) w past_lock-no_lock

    -- A lock that does not conflict makes no difference to a round of the loop of `Next`, but for the
    -- lock cursor and the statistics.
    pub next_loop-passes :
        (fuel : ℕ)
        → write_user_key s.write_cursor.ahead ≡ some key
        → out_of_bounds s.cfg key ≡ false
        → conflicts s.cfg lock ≡ false
        → next_loop (suc fuel) s ≡ next_loop (suc fuel) (past_lock s)
    unfolding next_loop on_key advance_lock_cursor
    next_loop-passes fuel w b c =
        let again = next_loop fuel in
        let (u, handled) = handle_write (past_lock s) key in
        let judged : Bool → Scanner × Option Lock → Scanner × Scanned = λ out x.
          if out then (s, exhausted) else elim x.1 [
            | some y ↦ (x.0, key_is_locked key y)
            | none ↦ on_handled again key (handle_write x.0 key).0 (handle_write x.0 key).1
          ] in
        ap (on_key again) (current_user_key-LockAhead w)
        ∙ ap (judged (out_of_bounds s.cfg key)) (handle_lock-passes c)
        ∙ ap (λ out. judged out (past_lock s, none)) b
        ∙ sym (
            ap
              (λ (out : Bool).
                if out then (past_lock s, exhausted) else on_handled again key u handled)
              b)
        ∙ sym (ap (on_key again) (current_user_key-past_lock w))
