-- ===== src/Server/Scan/Reads.antt =====
-- `Scan` against the point read.
use gookv.Prelude.{
  ℕ, ◌≡◌, ap, ◌∙◌, sym, Bool, false, Option, none, List, [], length, ok, err, arith, All-intro,
  refl, length-map,
}
use gookv.Codec.Number.{IsU64}
use gookv.TxnTypes.Write.{Write}
use gookv.Mvcc.Snapshot.{Snapshot, Entries}
use gookv.Mvcc.Iterator.{within}
use gookv.Mvcc.Versions.{Version, entry}
use gookv.Mvcc.Versions.Keys.{OldestSeen, keys_of, readable, readable-congr, reader_at}
use gookv.Mvcc.Versions.Range.{in_range, readable-in_range, length-in_range}
use gookv.Mvcc.Reader.{get_write}
use gookv.Mvcc.Holds.{Holds, get_write_lem}
use gookv.Mvcc.Scanning.Start.{Ready, next-first, scans, names}
use gookv.Mvcc.Scanner.{lock_options, new_scanner, next}
use gookv.Mvcc.Scanning.Rows.{Answers}
use gookv.Server.Scan.{scan, scan_config, non_empty}
use gookv.Server.Scan.Laws.{scan_loop-Answers, rows_of, first_records, after_rows-nil, left-first}

-- The record that `GetWrite` finds at a key.
unfoldable pub point_read : Snapshot → ℕ → List ℕ → Option (Write × ℕ)
point_read s ts key = elim (get_write s key ts) [ ok found ↦ found | err _ ↦ none ]

point_read-versions :
    (s : Snapshot) (vs : List Version) (ts : ℕ)
    → Holds s vs
    → IsU64 ts
    → (keys : List (List ℕ)) → readable (reader_at vs ts) keys ≡ readable (point_read s ts) keys
unfolding point_read
point_read-versions s vs ts h f keys = readable-congr (reader_at vs ts) (point_read s ts) keys (
    All-intro
      (λ k. ap (λ r. elim r [ ok found ↦ found | err _ ↦ none ]) (sym (get_write_lem h k ts f)))
      keys)

-- The keys in the range of a scan, and the locks there.
abbrev pub keys_in_range : List Version → Option (List ℕ) → List ℕ → List (List ℕ)
keys_in_range vs start_key end_key = keys_of (in_range vs start_key (non_empty end_key))

abbrev pub locks_in_range : Snapshot → Option (List ℕ) → List ℕ → Entries
locks_in_range s start_key end_key =
    within s.cf_lock (lock_options (scan_config s start_key end_key 0 false))

-- The configuration of a scan of a well-formed store.
pub scan-Ready :
    {s : Snapshot} {vs : List Version}
    → Holds s vs
    → (start_key : Option (List ℕ)) (end_key : List ℕ) (version : ℕ) (key_only : Bool)
    → IsU64 version
    → Ready (scan_config s start_key end_key version key_only) vs
scan-Ready h start_key end_key version key_only f = record {
  forward = refl;
  read_ts_fits = f;
  entries = h.entries;
  storable = h.storable;
  names_no_change = h.names_no_change;
  sorted = h.sorted;
}

-- `Scan` where the first call of `Next` answers the first record in the range.
pub scan-Answers :
    {s : Snapshot} {vs : List Version}
    → (h : Holds s vs)
    → (start_key : Option (List ℕ)) (end_key : List ℕ) (limit version : ℕ) (key_only : Bool)
    → (f : IsU64 version)
    → (let ready = scan-Ready h start_key end_key version key_only f in
        Answers
          (scans ready)
          (names ready)
          (in_range vs start_key (non_empty end_key))
          (next (new_scanner (scan_config s start_key end_key version key_only))))
    → scan s start_key end_key limit version key_only
      ≡ rows_of (scan_config s start_key end_key version key_only) (
          first_records limit
            (readable (point_read s version) (keys_in_range vs start_key end_key)))
unfolding scan first_records
scan-Answers h start_key end_key limit version key_only f answers =
    let cfg = scan_config _ start_key end_key version key_only in
    let us = in_range _ start_key (non_empty end_key) in
    let looped =
      scan_loop-Answers (scan-Ready h start_key end_key version key_only f) _ limit us
        (new_scanner cfg) []
        (omega (
          arith,
          length-in_range _ start_key (non_empty end_key),
          ap length h.entries ∙ length-map _ entry,
        ))
        answers in
    let same =
      readable-in_range _ start_key (non_empty end_key) version
      ∙ point_read-versions _ _ version h f (keys_of us) in
    looped
    ∙ after_rows-nil _
    ∙ ap (rows_of cfg) (left-first limit _ ∙ ap (first_records limit) same)

-- On a well-formed store, at a timestamp of 64 bits that sees the oldest version of every key in the
-- range, and with no lock in the range, `Scan` gives one row for each key in the range at which
-- `GetWrite` finds a put, in the order of the keys, up to the limit: the key with the value of that
-- put. It fails only where such a value is missing from CF_DEFAULT.
pub scan_is_point_reads :
    (s : Snapshot) (vs : List Version) (start_key : Option (List ℕ)) (end_key : List ℕ)
    (limit version : ℕ) (key_only : Bool)
    → Holds s vs
    → IsU64 version
    → locks_in_range s start_key end_key ≡ []
    → OldestSeen version (in_range vs start_key (non_empty end_key))
    → scan s start_key end_key limit version key_only
      ≡ rows_of (scan_config s start_key end_key version key_only) (
          first_records limit
            (readable (point_read s version) (keys_in_range vs start_key end_key)))
scan_is_point_reads s vs start_key end_key limit version key_only h f u o =
    scan-Answers h start_key end_key limit version key_only f
      (next-first (scan-Ready h start_key end_key version key_only f) u o)
