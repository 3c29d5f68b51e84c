-- ===== src/Mvcc/Scanning/Rows.antt =====
-- `Next` of a forward scan over entries that hold versions.
use gookv.Prelude.{
  ℕ, zero, suc, ◌+◌, ◌<◌, ◌≤◌, ◌≡◌, refl, ap, ◌∙◌, Bool, true, false, Option, none, some, List, [],
  ◌∷◌, map, length, if◌then◌else◌, arith, All, ok, err, Result, inl, inr, Option-cases, ap₂, ◌⊎◌,
}
use gookv.TxnTypes.Write.{Write}
use gookv.Mvcc.Key.{encode_key}
use gookv.Mvcc.Key.Laws.{decode-encode_key}
use gookv.Mvcc.Snapshot.{seek}
use gookv.Mvcc.Versions.{Version, entry}
use gookv.Mvcc.Versions.Keys.{
  after_key, keys_of, readable, reader_at, readable-after_key, OldestSeen, OldestSeen-starts_with,
  OldestSeen-after_key, after_key-first, All-after_key, length-after_key,
}
use gookv.Mvcc.Reader.Writes.{NamesNoChange}
use gookv.Mvcc.Scanning.At.{At, Scans, At-IsStorable, At-IsSorted}
use gookv.Mvcc.Scanning.Values.{answer_of}
use gookv.Mvcc.Scanning.Next.{handle_write-At}
use gookv.Mvcc.Scanning.Values.{value_of}
use gookv.Mvcc.Scanner.{
  ScannerConfig, Scanner, value_at, loaded, write_user_key, current_user_key, out_of_bounds,
  next_loop, on_key, on_handled, Handled, found, absent, value_missing, endless, Scanned, row,
  exhausted, default_not_found, never, choose_key, handle_write,
}

-- The answer of `Next` for a record that is found.
abbrev pub row_of : List ℕ → Handled → Scanned
row_of key (found x) = row key x
row_of key absent = exhausted
row_of key (value_missing start_ts e) = default_not_found key start_ts e
row_of key endless = never

-- The records that a timestamp reads in the versions, each with its key.
abbrev pub records : List Version → ℕ → List (List ℕ × (Write × ℕ))
records vs ts = readable (reader_at vs ts) (keys_of vs)

module _ {cfg : ScannerConfig} {all : List Version} (h : Scans cfg all)
    (n : All NamesNoChange all) where
  write_user_key-At :
      (vs : List Version) (s : Scanner)
      → At cfg all vs s
      → write_user_key s.write_cursor.ahead ≡ write_user_key (map entry vs)
  write_user_key-At vs s a = ap write_user_key a.ahead

  -- The cursor of CF_WRITE names the current key, where there is no lock.
  current_user_key-At :
      (v : Version) (vs : List Version) (s : Scanner)
      → At cfg all (v ∷ vs) s
      → current_user_key s ≡ (s, some (v.key, true, false))
  unfolding choose_key write_user_key
  current_user_key-At v vs s a =
      let decoded =
        decode-encode_key v.key v.commit_ts (At-IsStorable h (v ∷ vs) s a).0.commit_ts_fits in
      let first : write_user_key (map entry (v ∷ vs)) ≡ some v.key =
        rw (write_user_key, decoded) refl in
      ap₂ (choose_key s) (ap write_user_key a.ahead ∙ first) a.no_lock

  current_user_key-end : (s : Scanner) → At cfg all [] s → current_user_key s ≡ (s, none)
  unfolding choose_key write_user_key
  current_user_key-end s a = ap₂ (choose_key s) (ap write_user_key a.ahead) a.no_lock

  next_loop-suc :
      (fuel : ℕ) (v : Version) (vs : List Version) (s : Scanner)
      → At cfg all (v ∷ vs) s
      → out_of_bounds cfg v.key ≡ false
      → next_loop (suc fuel) s
        ≡ on_handled (next_loop fuel) v.key (handle_write s v.key).0 (handle_write s v.key).1
  unfolding next_loop on_key
  next_loop-suc fuel v vs s a b =
      ap (on_key (next_loop fuel)) (current_user_key-At v vs s a)
      ∙ ap
          (λ (x : Bool).
            if x
            then (s, exhausted)
            else on_handled (next_loop fuel) v.key (handle_write s v.key).0
                (handle_write s v.key).1)
          (ap (λ (c : ScannerConfig). out_of_bounds c v.key) a.same_cfg ∙ b)

  next_loop-end :
      (fuel : ℕ) (s : Scanner) → At cfg all [] s → next_loop (suc fuel) s ≡ (s, exhausted)
  unfolding next_loop on_key
  next_loop-end fuel s a = ap (on_key (next_loop fuel)) (current_user_key-end s a)

  -- `Next` answered the first record, and stands in front of versions with the others.
  pub record Row (vs : List Version) (key : List ℕ) (w : Write × ℕ) (r : Scanner × Scanned)
      : Type 0 where
    pub rest : List Version
    pub here : At cfg all rest r.0
    pub shorter : length rest < length vs
    pub seen : OldestSeen cfg.read_ts rest
    pub bounded : All (λ v. out_of_bounds cfg v.key ≡ false) rest
    pub split : records vs cfg.read_ts ≡ (key, w) ∷ records rest cfg.read_ts
    pub answer : r.1 ≡ row_of key (answer_of cfg key (some w))

  abbrev pub Answers : List Version → Scanner × Scanned → Type 0
  Answers vs r =
      ((records vs cfg.read_ts ≡ []) × (r.1 ≡ exhausted))
      ⊎ ((key : List ℕ) × (w : Write × ℕ) × Row vs key w r)

  At-processed :
      (vs : List Version) (s : Scanner)
      → At cfg all vs s
      → At cfg all vs
          (record s { stats = record s.stats { processed_keys = s.stats.processed_keys + 1 } })
  At-processed vs s a = record {
    same_cfg = a.same_cfg;
    no_lock = a.no_lock;
    started = a.started;
    defaults = a.defaults;
    entries = a.entries;
    ahead = a.ahead;
    front = a.front;
    suffix = a.suffix;
  }

  on_loaded-At :
      (again : Scanner → Scanner × Scanned) (vs : List Version) (s : Scanner) (key : List ℕ)
      (ts : ℕ) (r : Result (List ℕ))
      → At cfg all vs s
      → let x = loaded ts r in
        At cfg all vs (on_handled again key s x).0 × ((on_handled again key s x).1 ≡ row_of key x)
  unfolding on_handled
  on_loaded-At again vs s key ts (ok v) a = (At-processed vs s a, refl)
  on_loaded-At again vs s key ts (err e) a = (a, refl)

  on_handled-At :
      (again : Scanner → Scanner × Scanned) (vs : List Version) (s : Scanner) (key : List ℕ)
      (ts : ℕ) (b : Bool) (o : Option (List ℕ))
      → At cfg all vs s
      → let x = value_of cfg key ts b o in
        At cfg all vs (on_handled again key s x).0 × ((on_handled again key s x).1 ≡ row_of key x)
  unfolding on_handled value_of
  on_handled-At again vs s key ts true o a = (At-processed vs s a, refl)
  on_handled-At again vs s key ts false (some v) a = (At-processed vs s a, refl)
  on_handled-At again vs s key ts false none a =
      on_loaded-At again vs s key ts
        (value_at (seek cfg.snapshot.cf_default (encode_key key ts)) key ts) a

  -- The rows behind the first key are those of the whole list, if the first key is not readable.
  later_row :
      (v : Version) (vs : List Version) (r : Scanner × Scanned)
      → length (after_key vs v.key) ≤ length vs
      → records (v ∷ vs) cfg.read_ts ≡ records (after_key vs v.key) cfg.read_ts
      → Answers (after_key vs v.key) r
      → Answers (v ∷ vs) r
  later_row v vs r l e (inl (none_left, q)) = inl (e ∙ none_left, q)
  later_row v vs r l e (inr (key, w, x)) = inr (
    key,
    w,
    record {
      rest = x.rest;
      here = x.here;
      shorter = omega (arith, x.shorter, l);
      seen = x.seen;
      bounded = x.bounded;
      split = e ∙ x.split;
      answer = x.answer;
    },
  )

  pub next_loop-At :
      (fuel : ℕ) (vs : List Version) (s : Scanner)
      → length vs < fuel
      → At cfg all vs s
      → OldestSeen cfg.read_ts vs
      → All (λ v. out_of_bounds cfg v.key ≡ false) vs
      → Answers vs (next_loop fuel s)
  unfolding on_handled answer_of readable keys_of
  next_loop-At zero vs s f a o b = absurd (omega arith)
  next_loop-At (suc fuel) [] s f a o b =
      inl (refl, ap (λ (r : Scanner × Scanned). r.1) (next_loop-end fuel s a))
  next_loop-At (suc fuel) (v ∷ vs) s f a o b =
      let rest = after_key vs v.key in
      let (there, handled) =
        handle_write-At h n v vs s a (OldestSeen-starts_with v vs v.key cfg.read_ts refl o) in
      let there' : At cfg all rest (handle_write s v.key).0 =
        rw (after_key-first v vs v.key refl) at there in
      let split = readable-after_key v vs cfg.read_ts (At-IsSorted h (v ∷ vs) s a) in
      let l = length-after_key vs v.key in
      let o' = OldestSeen-after_key vs v.key cfg.read_ts o.1 in
      let b' = All-after_key (λ v'. out_of_bounds cfg v'.key ≡ false) vs v.key b.1 in
      let step = next_loop-suc fuel v vs s a b.0 in
      elim (Option-cases (reader_at (v ∷ vs) cfg.read_ts v.key)) [
        | inl unread ↦
            let handled' : (handle_write s v.key).1 ≡ absent =
              handled ∙ ap (answer_of cfg v.key) unread in
            rw (step, handled')
              (later_row v vs _ l
                (split
                  ∙ ap
                      (λ (o : Option (Write × ℕ)). elim o [
                        | none ↦ records rest cfg.read_ts
                        | some w ↦ (v.key, w) ∷ records rest cfg.read_ts
                      ])
                      unread)
                (next_loop-At fuel rest (handle_write s v.key).0 (omega (arith, f, l)) there' o'
                  b'))
        | inr (w, read) ↦
            let handled' : (handle_write s v.key).1 ≡ answer_of cfg v.key (some w) =
              handled ∙ ap (answer_of cfg v.key) read in
            let (here, answer) =
              on_handled-At (next_loop fuel) rest (handle_write s v.key).0 v.key w.0.start_ts
                cfg.key_only w.0.short_value there' in
            rw (step, handled')
              (inr (
                v.key,
                w,
                record {
                  rest = rest;
                  here = here;
                  shorter = omega (arith, l);
                  seen = o';
                  bounded = b';
                  split =
                      split
                      ∙ ap
                          (λ (o : Option (Write × ℕ)). elim o [
                            | none ↦ records rest cfg.read_ts
                            | some w ↦ (v.key, w) ∷ records rest cfg.read_ts
                          ])
                          read;
                  answer = answer;
                },
              ))
      ]
