-- ===== src/Mvcc/Scanning/Start.antt =====
-- The range of a forward scan, and its start.
use gookv.Prelude.{
  ℕ, suc, ◌≤◌, ◌≡◌, refl, sym, ap, ◌∙◌, Bool, false, not, ◌&&◌, Option, none, some, List, [], ◌∷◌,
  map, length, if◌then◌else◌, arith, All, Bool-cases, inl, inr, length-map, All-imp,
}
use mathlib.Core.Path.{subst}
use gookv.Codec.Number.{IsU64}
use gookv.TxnTypes.Timestamp.{ts_max}
use gookv.Mvcc.Key.{encode_key}
use gookv.Mvcc.Key.Laws.{compare-encode_key}
use gookv.Mvcc.Snapshot.{Entries}
use gookv.Mvcc.Iterator.{Iterator, within, at_least, below, new_iterator, seek_to_first}
use gookv.Mvcc.Versions.{Version, entry, IsStorable, IsSorted}
use gookv.Mvcc.Versions.Keys.{OldestSeen}
use gookv.Mvcc.Versions.Range.{in_range, in_range-All, in_range-IsSorted, in_range-below}
use gookv.Mvcc.Reader.Writes.{NamesNoChange}
use gookv.Mvcc.PointGetter.{IsolationLevel, si, rc}
use gookv.Mvcc.Scanning.At.{At, Scans}
use gookv.Mvcc.Scanning.Rows.{Answers, next_loop-At}
use gookv.Mvcc.Scanner.{
  ScannerConfig, Scanner, new_scanner, write_options, lock_options, bound, initial_seek, lock_key,
  move_cursor, seek_end, new_lock_cursor, out_of_bounds, next, next_loop, entries_left,
  started_scanner,
}

-- A bound on encoded keys is a bound on user keys.
at_least-entry :
    (v : Version) (o : Option (List ℕ))
    → IsU64 v.commit_ts
    → at_least (encode_key v.key v.commit_ts) (bound (λ k. encode_key k ts_max) o)
      ≡ at_least v.key o
at_least-entry v none f = refl
at_least-entry v (some b) f =
    ground (arith, compare-encode_key v.key b v.commit_ts ts_max f (omega arith))

below-entry :
    (v : Version) (o : Option (List ℕ))
    → IsU64 v.commit_ts
    → below (encode_key v.key v.commit_ts) (bound (λ k. encode_key k ts_max) o) ≡ below v.key o
below-entry v none f = refl
below-entry v (some b) f =
    ground (arith, compare-encode_key v.key b v.commit_ts ts_max f (omega arith))

-- The entries of an iterator with bounds are those of the versions in the range.
within-entries :
    (vs : List Version) (lower upper : Option (List ℕ))
    → All IsStorable vs
    → within (map entry vs) (record {
      lower_bound = bound (λ k. encode_key k ts_max) lower;
      upper_bound = bound (λ k. encode_key k ts_max) upper;
    })
      ≡ map entry (in_range vs lower upper)
unfolding within in_range
within-entries [] lower upper s = refl
within-entries (v ∷ vs) lower upper s =
    let f = s.0.commit_ts_fits in
    rw (Iterator, within, at_least-entry v lower f, below-entry v upper f)
      (elim (Bool-cases (at_least v.key lower && below v.key upper)) [
        | inl inside ↦
            rw (inside, within, in_range) (ap (◌∷◌ (entry v)) (within-entries vs lower upper s.1))
        | inr outside ↦ rw (outside, within, in_range) (within-entries vs lower upper s.1)
      ])

-- A forward scan over versions that can be read back, sorted.
pub record Ready (cfg : ScannerConfig) (vs : List Version) : Type 0 where
  pub forward : cfg.desc ≡ false
  pub read_ts_fits : IsU64 cfg.read_ts
  pub entries : cfg.snapshot.cf_write ≡ map entry vs
  pub storable : All IsStorable vs
  pub names_no_change : All NamesNoChange vs
  pub sorted : IsSorted vs

module _ {cfg : ScannerConfig} {vs : List Version} (r : Ready cfg vs) where
  abbrev pub in_scan : List Version
  in_scan = in_range vs cfg.lower_bound cfg.upper_bound

  pub scans : Scans cfg in_scan
  scans = record {
    forward = r.forward;
    read_ts_fits = r.read_ts_fits;
    storable = in_range-All IsStorable vs cfg.lower_bound cfg.upper_bound r.storable;
    sorted = in_range-IsSorted vs cfg.lower_bound cfg.upper_bound r.sorted;
  }

  abbrev pub start : Scanner
  start = started_scanner (new_scanner cfg) false

  start-no_lock :
      (l : IsolationLevel)
      → within cfg.snapshot.cf_lock (lock_options cfg) ≡ []
      → lock_key (move_cursor (seek_end cfg.desc) (new_lock_cursor cfg l)) ≡ none
  unfolding lock_key new_iterator seek_to_first
  start-no_lock rc u = refl
  start-no_lock si u =
      ap (λ (b : Bool). lock_key (move_cursor (seek_end b) (new_lock_cursor cfg si))) r.forward
      ∙ ap (λ (es : Entries). lock_key (some (record { entries = es; passed = []; ahead = es }))) u

  -- The write cursor at its start, as a field of the iterator.
  pub start-entries :
      (part : Iterator → Entries)
      → ((es : Entries) → part (record { entries = es; passed = []; ahead = es }) ≡ es)
      → part (seek_end cfg.desc (new_iterator cfg.snapshot.cf_write (write_options cfg)))
        ≡ map entry in_scan
  unfolding new_iterator seek_to_first
  start-entries part p =
      ap
        (λ (b : Bool). part (
          seek_end b (
            new_iterator cfg.snapshot.cf_write (record {
              lower_bound = bound (λ k. encode_key k ts_max) cfg.lower_bound;
              upper_bound = bound (λ k. encode_key k (if b then 0 else ts_max)) cfg.upper_bound;
            }))))
        r.forward
      ∙ p _
      ∙ ap
          (λ (es : Entries). within es (record {
            lower_bound = bound (λ k. encode_key k ts_max) cfg.lower_bound;
            upper_bound = bound (λ k. encode_key k ts_max) cfg.upper_bound;
          }))
          r.entries
      ∙ within-entries vs cfg.lower_bound cfg.upper_bound r.storable

  -- Where there is no lock in the range, the first call of `Next` starts in front of its versions.
  pub start-At : within cfg.snapshot.cf_lock (lock_options cfg) ≡ [] → At cfg in_scan in_scan start
  unfolding new_scanner initial_seek new_iterator seek_to_first
  start-At u = record {
    same_cfg = refl;
    no_lock = start-no_lock cfg.isolation_level u;
    started = refl;
    defaults = tt;
    entries = start-entries (λ it. it.entries) (λ es. refl);
    ahead = start-entries (λ it. it.ahead) (λ es. refl);
    front = [];
    suffix = refl;
  }

  pub in_scan-bounded : All (λ v. out_of_bounds cfg v.key ≡ false) in_scan
  unfolding out_of_bounds
  in_scan-bounded =
      All-imp
        (λ v p.
          ap
            (λ (b : Bool).
              if b then not (at_least v.key cfg.lower_bound) else not (below v.key cfg.upper_bound))
            r.forward
          ∙ ground arith)
        in_scan (in_range-below vs cfg.lower_bound cfg.upper_bound)

  pub names : All NamesNoChange in_scan
  names = in_range-All NamesNoChange vs cfg.lower_bound cfg.upper_bound r.names_no_change

  length-At : (s : Scanner) (us : List Version) → At cfg in_scan us s → length us ≤ entries_left s
  length-At s us a = let e = ap length a.ahead ∙ length-map us entry in omega (arith, e)

  -- The first call of `Next` answers the first record in the range.
  pub next-first :
      within cfg.snapshot.cf_lock (lock_options cfg) ≡ []
      → OldestSeen cfg.read_ts in_scan
      → Answers scans names in_scan (next (new_scanner cfg))
  unfolding next new_scanner
  next-first u o =
      next_loop-At scans names (suc (entries_left start)) in_scan start
        (omega (arith, length-At start in_scan (start-At u))) (start-At u) o in_scan-bounded

  -- A later call answers the next one.
  pub next-later :
      (us : List Version) (s : Scanner)
      → At cfg in_scan us s
      → OldestSeen cfg.read_ts us
      → All (λ v. out_of_bounds cfg v.key ≡ false) us
      → Answers scans names us (next s)
  unfolding next
  next-later us s a o b =
      let answers =
        next_loop-At scans names (suc (entries_left s)) us s (omega (arith, length-At s us a)) a o
          b in
      subst (Answers scans names us)
        (sym (
          ap (λ (x : Bool). let s' = started_scanner s x in next_loop (suc (entries_left s')) s')
            a.started))
        answers
