-- ===== src/Server/Scan/Locked.antt =====
-- `Scan` of internal/server/storage.go where the first key of the range is locked.
use mathlib.Core.Path.{subst}
use gookv.Prelude.{
  ℕ, ◌≤◌, ◌≡◌, ◌≢◌, refl, ap, ◌∙◌, Bool, true, false, not, ◌&&◌, ◌||◌, ◌==◌, leb, ltb, Option, some,
  List, [], ◌∷◌, map, length, if◌then◌else◌, arith, All, suc, sym, length-map, ◌⊎◌, inl, inr,
  Bool-cases,
}
use gookv.Mvcc.Versions.Keys.{OldestSeen, readable}
use gookv.Mvcc.Scanner.{
  advance_lock_cursor, ScannerConfig, Scanner, new_scanner, initial_seek, started_scanner, next,
  entries_left, write_user_key, out_of_bounds, key_is_locked, lock_options,
}
use gookv.Mvcc.Scanning.At.{At}
use gookv.Mvcc.Scanning.Rows.{Answers, next_loop-At}
use gookv.Mvcc.Scanning.Locked.{
  past_lock, past_lock-no_lock, next_loop-passes, LockAhead, next_loop-locked,
}
use gookv.Mvcc.Scanning.Start.{scans, names, Ready, start-entries, in_scan-bounded}
use gookv.Server.Scan.Laws.{rows_of, first_records}
use gookv.Server.Scan.Reads.{point_read, keys_in_range, scan-Ready, scan-Answers, locks_in_range}
use gookv.Codec.Number.{IsU64}
use gookv.TxnTypes.Lock.{Lock, marshal, lock_type_pessimistic}
use gookv.TxnTypes.Lock.RoundTrip.{unmarshal_lock-marshal, IsValid, stored}
use gookv.Mvcc.Key.{encode_lock_key}
use gookv.Mvcc.Key.Laws.{decode-encode_key, decode-encode_lock_key}
use gookv.Mvcc.Snapshot.{Snapshot, Entries}
use gookv.Mvcc.Iterator.{new_iterator, seek_to_first}
use gookv.Mvcc.Versions.{Version, entry, IsStorable}
use gookv.Mvcc.Versions.Range.{in_range, in_range-All}
use gookv.Mvcc.Holds.{Holds}
use gookv.Mvcc.PointGetter.{contains}
use gookv.Server.Scan.{scan, scan_loop, scan_config, ScanResult, failed, rows, non_empty, on_answer}

entry-key :
    (v : Version) (us : List Version)
    → IsU64 v.commit_ts
    → write_user_key (map entry (v ∷ us)) ≡ some v.key
unfolding write_user_key
entry-key v us f = rw (write_user_key, decode-encode_key v.key v.commit_ts f) refl

-- A lock that a scan at a timestamp reports: not pessimistic, and not newer.
abbrev pub Blocks : Lock → ℕ → Type 0
Blocks lock version = (lock.lock_type ≢ lock_type_pessimistic) × (lock.start_ts ≤ version)

-- Such a lock conflicts with the scan, and no other does.
abbrev conflicting : Lock → ℕ → Bool
conflicting lock version =
    not ((stored lock).lock_type == lock_type_pessimistic)
    && leb (stored lock).start_ts version
    && not (contains [] (stored lock).start_ts)

conflicting-Blocks :
    (lock : Lock) (version : ℕ) → Blocks lock version → conflicting lock version ≡ true
unfolding contains
conflicting-Blocks lock version (p, le) = ground (arith, p, le)

Blocks-conflicting :
    (lock : Lock) (version : ℕ) → conflicting lock version ≡ true → Blocks lock version
unfolding contains
Blocks-conflicting lock version c = ((λ p. ground (arith, p, c)), ground (arith, c))

more : (limit : ℕ) → (limit == 0 || ltb 0 limit) ≡ true
more limit = ground arith

module _ (s : Snapshot) (vs : List Version) (start_key : Option (List ℕ)) (end_key : List ℕ)
    (version : ℕ) (key_only : Bool) (h : Holds s vs) (f : IsU64 version) where
  abbrev cfg : ScannerConfig
  cfg = scan_config s start_key end_key version key_only

  abbrev in_scan : List Version
  in_scan = in_range vs start_key (non_empty end_key)

  abbrev ready : Ready cfg vs
  ready = scan-Ready h start_key end_key version key_only f

  abbrev begun : Scanner
  begun = started_scanner (new_scanner cfg) false

  begun-ahead : begun.write_cursor.ahead ≡ map entry in_scan
  unfolding new_scanner initial_seek
  begun-ahead = start-entries ready (λ it. it.ahead) (λ es. refl)

  module _ (v : Version) (us : List Version) (lock : Lock) (behind : Entries)
      (first : in_range vs start_key (non_empty end_key) ≡ v ∷ us)
      (first_lock : locks_in_range s start_key end_key
        ≡ (encode_lock_key v.key, marshal lock) ∷ behind)
      (valid : IsValid lock) where
    begun-LockAhead : LockAhead begun v.key (stored lock) behind
    unfolding new_scanner initial_seek new_iterator seek_to_first
    begun-LockAhead = record {
      cursor =
          seek_to_first
            (new_iterator s.cf_lock (lock_options (scan_config s start_key end_key 0 false)));
      encoded_key = encode_lock_key v.key;
      bytes = marshal lock;
      lock_cursor = refl;
      ahead = first_lock;
      decodes = (decode-encode_lock_key v.key).0;
      reads = unmarshal_lock-marshal lock valid;
    }

    fits : IsStorable v
    fits =
        (subst (All IsStorable) first
          (in_range-All IsStorable vs start_key (non_empty end_key) h.storable)).0

    bounded : out_of_bounds cfg v.key ≡ false
    bounded = (subst (All (λ w. out_of_bounds cfg w.key ≡ false)) first (in_scan-bounded ready)).0

    begun-key : write_user_key begun.write_cursor.ahead ≡ some v.key
    begun-key =
        ap write_user_key (begun-ahead ∙ ap (map entry) first) ∙ entry-key v us fits.commit_ts_fits

    -- The first call of `Next` fails.
    next-locked :
        Blocks lock version
        → (next (new_scanner (scan_config s start_key end_key version key_only))).1
          ≡ key_is_locked v.key (stored lock)
    unfolding next new_scanner initial_seek out_of_bounds
    next-locked blocked =
        next_loop-locked begun v.key (stored lock) behind begun-LockAhead (entries_left begun)
          begun-key bounded (conflicting-Blocks lock version blocked)

    module _ (alone : behind ≡ []) (free : conflicting lock version ≡ false) where
      past-At : At cfg in_scan in_scan (past_lock begun)
      unfolding new_scanner initial_seek advance_lock_cursor
      past-At = record {
        same_cfg = refl;
        no_lock = past_lock-no_lock begun v.key (stored lock) behind begun-LockAhead alone refl;
        started = refl;
        defaults = tt;
        entries = start-entries ready (λ it. it.entries) (λ es. refl);
        ahead = start-entries ready (λ it. it.ahead) (λ es. refl);
        front = [];
        suffix = refl;
      }

      -- The first call of `Next` answers as where there is no lock.
      next-free :
          OldestSeen version in_scan
          → Answers
              (scans ready)
              (names ready)
              in_scan
              (next (new_scanner (scan_config s start_key end_key version key_only)))
      unfolding next new_scanner initial_seek advance_lock_cursor out_of_bounds
      next-free o =
          let passes =
            next_loop-passes begun v.key (stored lock) behind begun-LockAhead alone refl
              (entries_left begun) begun-key bounded free in
          subst (Answers (scans ready) (names ready) in_scan) (sym passes) (
            next_loop-At (scans ready) (names ready) (suc (entries_left begun)) in_scan
              (past_lock begun) (omega (arith, ap length begun-ahead ∙ length-map in_scan entry))
              past-At o (in_scan-bounded ready))

-- Where the first key with a version in the range has a lock that can be
-- stored, the first in the range, and this lock is not pessimistic and did not start after the
-- timestamp of the scan: `Scan` gives no row, whatever its limit, but fails with this key and this
-- lock, as it is stored.
scan_reports_lock :
    (s : Snapshot) (vs : List Version) (start_key : Option (List ℕ)) (end_key : List ℕ)
    (limit version : ℕ) (key_only : Bool) (v : Version) (us : List Version) (lock : Lock)
    (behind : Entries)
    → Holds s vs
    → IsU64 version
    → in_range vs start_key (non_empty end_key) ≡ v ∷ us
    → locks_in_range s start_key end_key ≡ (encode_lock_key v.key, marshal lock) ∷ behind
    → IsValid lock
    → Blocks lock version
    → scan s start_key end_key limit version key_only ≡ failed (key_is_locked v.key (stored lock))
unfolding scan scan_loop
scan_reports_lock s vs start_key end_key limit version key_only v us lock behind h f first
      first_lock valid blocked =
    let r = next (new_scanner (scan_config s start_key end_key version key_only)) in
    let go : List ℕ → Option (List ℕ) → ScanResult =
      λ key value. scan_loop (length s.cf_write) limit r.0 ((key, value) ∷ []) in
    ap (λ (b : Bool). if b then on_answer go [] r.1 else rows []) (more limit)
    ∙ ap (on_answer go []) (
        next-locked s vs start_key end_key version key_only h f v us lock behind first first_lock
          valid blocked)

-- On a well-formed store, at a timestamp of 64 bits that sees the oldest version of every key in the
-- range, where the only lock in the range is on the first key with a version there, and can be
-- stored: if the lock is not pessimistic and did not start after the timestamp of the scan, `Scan`
-- gives no row, whatever its limit, but fails with this key and this lock, as it is stored; and
-- otherwise it passes over the lock, and gives one row for each key in the range at which `GetWrite`
-- finds a put, in the order of the keys, up to the limit, the key with the value of that put, and
-- fails only where such a value is missing from CF_DEFAULT.
pub scan_judges_lock :
    (s : Snapshot) (vs : List Version) (start_key : Option (List ℕ)) (end_key : List ℕ)
    (limit version : ℕ) (key_only : Bool) (v : Version) (us : List Version) (lock : Lock)
    → Holds s vs
    → IsU64 version
    → OldestSeen version (in_range vs start_key (non_empty end_key))
    → in_range vs start_key (non_empty end_key) ≡ v ∷ us
    → locks_in_range s start_key end_key ≡ (encode_lock_key v.key, marshal lock) ∷ []
    → IsValid lock
    → (Blocks lock version
        × (scan s start_key end_key limit version key_only
            ≡ failed (key_is_locked v.key (stored lock))))
      ⊎ ((¬ Blocks lock version)
          × (scan s start_key end_key limit version key_only
              ≡ rows_of (scan_config s start_key end_key version key_only) (
                  first_records limit
                    (readable (point_read s version) (keys_in_range vs start_key end_key)))))
scan_judges_lock s vs start_key end_key limit version key_only v us lock h f o first first_lock
      valid =
    elim (Bool-cases (conflicting lock version)) [
      | inl c ↦
          let blocked = Blocks-conflicting lock version c in
          inl (
            blocked,
            scan_reports_lock s vs start_key end_key limit version key_only v us lock [] h f first
                first_lock valid blocked,
          )
      | inr c ↦ inr (
        (λ blocked. ground (arith, conflicting-Blocks lock version blocked, c)),
        scan-Answers h start_key end_key limit version key_only f (
            next-free s vs start_key end_key version key_only h f v us lock [] first first_lock
              valid refl c o),
      )
    ]
