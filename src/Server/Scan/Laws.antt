-- ===== src/Server/Scan/Laws.antt =====
-- `Scan` on a well-formed store: the point reads of all keys in the range.
use gookv.Prelude.{
  ℕ, zero, suc, ◌+◌, ◌-◌, ◌<◌, ◌≡◌, refl, sym, ap, ◌∙◌, Bool, true, false, Option, none, some, List,
  [], ◌∷◌, ◌++◌, length, take, ◌==◌, if◌then◌else◌, arith, Bool-cases, inl, inr, Result, ok, err,
  append-nil, append_assoc, length-append,
}
use gookv.TxnTypes.Write.{Write}
use gookv.Mvcc.Key.{encode_key}
use gookv.Mvcc.Snapshot.{seek}
use gookv.Mvcc.Versions.{Version}
use gookv.Mvcc.Scanning.Values.{answer_of, value_of}
use gookv.Mvcc.Scanning.Rows.{records, row_of, Answers}
use gookv.Mvcc.Scanning.Start.{Ready, scans, names, next-later}
use gookv.Mvcc.Scanner.{
  ScannerConfig, Scanner, next, Handled, found, absent, value_missing, endless, loaded, value_at,
}
use gookv.Server.Scan.{Rows, ScanResult, rows, failed, wants_more, on_answer, scan_loop}

abbrev Records : Type 0
Records = List (List ℕ × (Write × ℕ))

abbrev no_records : Records
no_records = []

abbrev cons : List ℕ → Option (List ℕ) → ScanResult → ScanResult
cons key value (rows rs) = rows ((key, value) ∷ rs)
cons key value (failed answer) = failed answer

-- The row of a record, or the failure that its missing value is.
abbrev add_row : List ℕ → Handled → ScanResult → ScanResult
add_row key (found value) rest = cons key value rest
add_row key other rest = failed (row_of key other)

-- The rows of records, one after the other, up to the first missing value.
unfoldable pub rows_of : ScannerConfig → Records → ScanResult
rows_of cfg [] = rows []
rows_of cfg ((key, w) ∷ rest) = add_row key (answer_of cfg key (some w)) (rows_of cfg rest)

-- A limit of 0 is none.
unfoldable pub first_records : ℕ → Records → Records
first_records limit rs = if limit == 0 then rs else take limit rs

abbrev pub after_rows : Rows → ScanResult → ScanResult
after_rows rs (rows qs) = rows (rs ++ qs)
after_rows rs (failed answer) = failed answer

pub after_rows-nil : (r : ScanResult) → after_rows [] r ≡ r
after_rows-nil (rows qs) = refl
after_rows-nil (failed answer) = refl

-- The records that a scan with `n` rows still takes.
abbrev pub left : ℕ → ℕ → Records → Records
left limit n rs = if limit == 0 then rs else take (limit - n) rs

pub left-first : (limit : ℕ) (rs : Records) → left limit 0 rs ≡ first_records limit rs
unfolding first_records
left-first limit rs =
    let e : limit - 0 ≡ limit = omega arith in ap (λ n. if limit == 0 then rs else take n rs) e

take-nil : (n : ℕ) → take n no_records ≡ []
take-nil zero = refl
take-nil (suc n) = refl

left-cons :
    (limit : ℕ) (results : Rows) (r : List ℕ × (Write × ℕ)) (rs : Records)
    → wants_more limit results ≡ true
    → left limit (length results) (r ∷ rs) ≡ r ∷ left limit (length results + 1) rs
left-cons limit results r rs w = elim (Bool-cases (limit == 0)) [
  | inl none_set ↦ rw none_set refl
  | inr set ↦
      let n : limit - length results ≡ suc (limit - (length results + 1)) = ground arith in
      rw (set, n) refl
]

left-nil : (limit n : ℕ) → left limit n [] ≡ []
left-nil limit n = elim (Bool-cases (limit == 0)) [
  | inl none_set ↦ rw none_set refl
  | inr set ↦ rw set (take-nil (limit - n))
]

left-none :
    (limit : ℕ) (results : Rows) (rs : Records)
    → wants_more limit results ≡ false
    → left limit (length results) rs ≡ []
left-none limit results rs w =
    let set : (limit == 0) ≡ false = ground arith in
    let n : limit - length results ≡ 0 = ground arith in rw (set, n) refl

-- A record that is found has a value, or its value is missing.
abbrev IsValue : Handled → Type 0
IsValue (found value) = Unit
IsValue (value_missing start_ts e) = Unit
IsValue other = ⊥

loaded-IsValue : (ts : ℕ) (r : Result (List ℕ)) → IsValue (loaded ts r)
loaded-IsValue ts (ok v) = tt
loaded-IsValue ts (err e) = tt

value_of-IsValue :
    (cfg : ScannerConfig) (key : List ℕ) (ts : ℕ) (b : Bool) (o : Option (List ℕ))
    → IsValue (value_of cfg key ts b o)
unfolding value_of
value_of-IsValue cfg key ts true o = tt
value_of-IsValue cfg key ts false (some v) = tt
value_of-IsValue cfg key ts false none =
    loaded-IsValue ts (value_at (seek cfg.snapshot.cf_default (encode_key key ts)) key ts)

after_rows-cons :
    (results : Rows) (key : List ℕ) (value : Option (List ℕ)) (r : ScanResult)
    → after_rows (results ++ ((key, value) ∷ [])) r ≡ after_rows results (cons key value r)
after_rows-cons results key value (rows qs) = ap rows (append_assoc results ((key, value) ∷ []) qs)
after_rows-cons results key value (failed answer) = refl

-- The step of `Scan` at a record, where the further rows are right.
on_answer-row :
    (after : List ℕ → Option (List ℕ) → ScanResult) (results : Rows) (key : List ℕ)
    (rest : ScanResult) (x : Handled)
    → IsValue x
    → ((value : Option (List ℕ))
        → after key value ≡ after_rows (results ++ ((key, value) ∷ [])) rest)
    → on_answer after results (row_of key x) ≡ after_rows results (add_row key x rest)
on_answer-row after results key rest (found value) i ih =
    ih value ∙ after_rows-cons results key value rest
on_answer-row after results key rest absent i ih = absurd i
on_answer-row after results key rest (value_missing start_ts e) i ih = refl
on_answer-row after results key rest endless i ih = absurd i

module _ {cfg : ScannerConfig} {vs : List Version} (r : Ready cfg vs) where
  -- The loop of `Scan`, from a scanner whose next answer is right.
  pub scan_loop-Answers :
      (fuel limit : ℕ) (us : List Version) (s : Scanner) (results : Rows)
      → length us < fuel
      → Answers (scans r) (names r) us (next s)
      → scan_loop fuel limit s results
        ≡ after_rows results (rows_of cfg (left limit (length results) (records us cfg.read_ts)))
  unfolding scan_loop rows_of answer_of
  scan_loop-Answers zero limit us s results f a = absurd (omega arith)
  scan_loop-Answers (suc fuel) limit us s results f a =
      elim (Bool-cases (wants_more limit results)) [
        | inr full ↦
            rw (full, left-none limit results (records us cfg.read_ts) full)
              (ap rows (sym (append-nil results)))
        | inl more ↦ elim a [
          | inl (empty, done) ↦
              rw (more, empty, left-nil limit (length results), done)
                (ap rows (sym (append-nil results)))
          | inr (key, w, x) ↦
              let after : List ℕ → Option (List ℕ) → ScanResult =
                λ k value. scan_loop fuel limit (next s).0 (results ++ ((k, value) ∷ [])) in
              let rest =
                rows_of cfg (left limit (length results + 1) (records x.rest cfg.read_ts)) in
              let further : (value : Option (List ℕ))
                  → after key value ≡ after_rows (results ++ ((key, value) ∷ [])) rest =
                λ value. rw (← length-append results ((key, value) ∷ [])) (
                  scan_loop-Answers fuel limit x.rest (next s).0 (results ++ ((key, value) ∷ []))
                    (omega (arith, f, x.shorter))
                    (next-later r x.rest (next s).0 x.here x.seen x.bounded)) in
              rw
                (
                  more,
                  x.split,
                  left-cons limit results (key, w) (records x.rest cfg.read_ts) more,
                  x.answer,
                )
                (on_answer-row after results key rest (answer_of cfg key (some w))
                  (value_of-IsValue cfg key w.0.start_ts cfg.key_only w.0.short_value) further)
        ]
      ]
