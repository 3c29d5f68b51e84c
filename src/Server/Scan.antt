-- ===== src/Server/Scan.antt =====
-- internal/server/storage.go: `Scan` and `ScanLock`.
pub mod Laws
pub mod Locked
pub mod Reads
use gookv.Prelude.{
  ℕ, zero, suc, Bool, true, false, Option, none, some, List, [], ◌∷◌, ◌++◌, length, leb, ltb, ◌==◌,
  ◌&&◌, ◌||◌, if◌then◌else◌, ok, err,
}
use gookv.TxnTypes.Lock.{Lock, unmarshal_lock}
use gookv.Mvcc.Key.{encode_lock_key, decode_lock_key}
use gookv.Mvcc.Snapshot.{Entries, Snapshot}
use gookv.Mvcc.Iterator.{IterOptions, new_iterator, seek_to_first}
use gookv.Mvcc.PointGetter.{si}
use gookv.Mvcc.Scanner.{ScannerConfig, Scanner, new_scanner, next, Scanned, row, exhausted}

abbrev pub Rows : Type 0
Rows = List (List ℕ × Option (List ℕ))

-- The rows, or what `Next` answered instead of a row.
pub data ScanResult : Type 0 where
  rows : Rows → ScanResult
  failed : Scanned → ScanResult

-- `limit == 0 || uint32(len(results)) < limit`; the count stops at the limit, so that it is a uint32.
abbrev pub wants_more : ℕ → Rows → Bool
wants_more limit results = limit == 0 || ltb (length results) limit

-- What `Scan` makes of an answer of `Next`; `after` goes on with one more row.
abbrev pub on_answer : (List ℕ → Option (List ℕ) → ScanResult) → Rows → Scanned → ScanResult
on_answer after results (row key value) = after key value
on_answer after results exhausted = rows results
on_answer after results other = failed other

-- The loop of `Scan`, `results` is what it has collected. Each round moves the write cursor of a
-- forward scan, and so does not need more fuel than there are entries, and one for the end.
unfoldable pub scan_loop : ℕ → ℕ → Scanner → Rows → ScanResult
scan_loop zero limit s results = failed Scanned.never
scan_loop (suc fuel) limit s results =
    let (s', answer) = next s in
    if wants_more limit results
    then on_answer (λ key value. scan_loop fuel limit s' (results ++ ((key, value) ∷ []))) results
        answer
    else rows results

abbrev pub non_empty : List ℕ → Option (List ℕ)
non_empty [] = none
non_empty (b ∷ bs) = some (b ∷ bs)

abbrev pub scan_config : Snapshot → Option (List ℕ) → List ℕ → ℕ → Bool → ScannerConfig
scan_config snapshot start_key end_key version key_only = record {
  snapshot = snapshot;
  read_ts = version;
  desc = false;
  isolation_level = si;
  key_only = key_only;
  lower_bound = start_key;
  upper_bound = non_empty end_key;
  bypass_locks = [];
}

-- `startKey` may be nil, which is no bound.
unfoldable pub scan : Snapshot → Option (List ℕ) → List ℕ → ℕ → ℕ → Bool → ScanResult
scan snapshot start_key end_key limit version key_only =
    scan_loop (suc (length snapshot.cf_write)) limit
      (new_scanner (scan_config snapshot start_key end_key version key_only)) []

-- The loop of `ScanLock`.
unfoldable pub scan_lock_loop : ℕ → ℕ → Entries → List (List ℕ × Lock) → List (List ℕ × Lock)
scan_lock_loop max_version limit [] results = results
scan_lock_loop max_version limit ((k, bytes) ∷ rest) results =
    let skip = scan_lock_loop max_version limit rest results in
    let add : List ℕ → Lock → List (List ℕ × Lock) =
      λ key lock. scan_lock_loop max_version limit rest (results ++ ((key, lock) ∷ [])) in
    if ltb 0 limit && leb limit (length results) then results else elim (unmarshal_lock bytes) [
      | err _ ↦ skip
      | ok lock ↦
          if leb lock.start_ts max_version
          then elim (decode_lock_key k) [ err _ ↦ skip | ok key ↦ add key lock ]
          else skip
    ]

unfoldable pub scan_lock : Snapshot → ℕ → List ℕ → List ℕ → ℕ → List (List ℕ × Lock)
scan_lock snapshot max_version start_key end_key limit =
    let encoded : List ℕ → Option (List ℕ) =
      λ key. elim key [ [] ↦ none | b ∷ bs ↦ some (encode_lock_key (b ∷ bs)) ] in
    let opts : IterOptions = record {
      lower_bound = encoded start_key;
      upper_bound = encoded end_key;
    } in
    scan_lock_loop max_version limit (seek_to_first (new_iterator snapshot.cf_lock opts)).ahead []
