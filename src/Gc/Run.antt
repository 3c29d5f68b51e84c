-- ===== src/Gc/Run.antt =====
-- `GC` on a well-formed store: the loop ends, and walks through the versions of the key.
use mathlib.Core.Path.{subst}
use gookv.Prelude.{
  ℕ, zero, suc, ◌<◌, ◌≡◌, refl, ap, ◌∙◌, true, Option, none, some, List, [], ◌∷◌, length, ltb,
  if◌then◌else◌, arith, All, Bool-cases, inl, inr, Result, ok, ◌>>=◌, length-map,
}
use gookv.Prelude.Order.{equal_bytes, eq_of_equal_bytes}
use gookv.Codec.Number.{IsU64}
use gookv.TxnTypes.Timestamp.{ts_max, prev}
use gookv.Mvcc.Snapshot.{Snapshot}
use gookv.Mvcc.Txn.{MvccTxn}
use gookv.Mvcc.Versions.{Version, entry, IsStorable, versions_from, first_of_key}
use gookv.Mvcc.Versions.Next.{versions_from-prev, versions_from-All}
use gookv.Mvcc.Reader.{seek_write, Found}
use gookv.Mvcc.Reader.Writes.{seek_write-entries, length-versions_from}
use gookv.Mvcc.Holds.{Holds}
use gookv.Gc.{
  GcState, rewind, remove_idempotent, remove_all, Collected, count_found, drop_version, done,
  drop_old, Verdict, keep_put, meet_delete, drop_record, step_over, verdict, minus_one, Again,
  on_older, on_verdict, on_record, on_found, gc_loop, gc,
}

abbrev pub count : Collected → Collected
count (txn, info) = (txn, count_found info)

-- The state `gcStateRemoveAll` drops every version of the key.
unfoldable pub dropped : List ℕ → Collected → List Version → Collected
dropped key c [] = c
dropped key c (v ∷ vs) =
    let rest = dropped key (drop_old key v.write v.commit_ts (count c)) vs in
    if equal_bytes v.key key then rest else c

-- The state `gcStateRemoveIdempotent` drops lock and rollback records up to the newest put, which
-- stays, or the newest delete, which goes after everything below it.
unfoldable pub settled : List ℕ → Collected → List Version → Collected
settled key c [] = c
settled key c (v ∷ vs) =
    let all_below = dropped key (count c) vs in
    let further = settled key (drop_version key v.commit_ts (count c)) vs in
    let passed = settled key (count c) vs in
    if equal_bytes v.key key
    then elim (verdict v.write) [
      | keep_put ↦ all_below
      | meet_delete ↦ drop_version key v.commit_ts all_below
      | drop_record ↦ further
      | step_over ↦ passed
    ]
    else c

-- The state `gcStateRewind` passes the versions above the safe point.
unfoldable pub rewound : List ℕ → ℕ → Collected → List Version → Collected
rewound key safe_point c [] = c
rewound key safe_point c (v ∷ vs) =
    let rest = rewound key safe_point (count c) vs in
    if equal_bytes v.key key
    then (if ltb safe_point v.commit_ts then rest else settled key c (v ∷ vs))
    else c

-- No version was committed at timestamp 0.
abbrev pub IsPositive : Version → Type 0
IsPositive v = 0 < v.commit_ts

module _ {s : Snapshot} {vs : List Version} (h : Holds s vs) (p : All IsPositive vs) (key : List ℕ)
    (safe_point : ℕ) where
  -- The versions from a timestamp on are `us`.
  record From (ts : ℕ) (us : List Version) : Type 0 where
    fits : IsU64 ts
    from : versions_from vs key ts ≡ us

  abbrev again : ℕ → Again
  again fuel = λ state ts marker c. gc_loop fuel s key safe_point state ts marker c

  seek-From :
      (ts : ℕ) (us : List Version) → From ts us → seek_write s key ts ≡ ok (first_of_key us key)
  seek-From ts us f =
      seek_write-entries s vs key ts h.entries h.storable f.fits
      ∙ ap (λ (l : List Version). ok (first_of_key l key)) f.from

  From-rest :
      (ts : ℕ) (v : Version) (us : List Version)
      → From ts (v ∷ us)
      → equal_bytes v.key key ≡ true
      → From (minus_one v.commit_ts) us
  unfolding minus_one prev
  From-rest ts v us f same =
      let k = eq_of_equal_bytes v.key key same in
      let positive : 0 < v.commit_ts =
        (subst (All IsPositive) f.from (versions_from-All IsPositive vs key ts p)).0 in
      let st : IsStorable v =
        (subst (All IsStorable) f.from (versions_from-All IsStorable vs key ts h.storable)).0 in
      let fit = st.commit_ts_fits in
      let less_one : minus_one v.commit_ts ≡ prev v.commit_ts = ground arith in
      record {
        fits = ground arith;
        from =
            ap (versions_from vs key) less_one
            ∙ versions_from-prev vs key ts v us h.sorted f.from k positive;
      }

  -- A round of the loop at the front of `us`.
  gc_loop-From :
      (fuel ts : ℕ) (us : List Version) (state : GcState) (marker : Option ℕ) (c : Collected)
      → From ts us
      → gc_loop (suc fuel) s key safe_point state ts marker c
        ≡ on_found (again fuel) s key safe_point state marker c (first_of_key us key)
  unfolding gc_loop
  gc_loop-From fuel ts us state marker c f =
      ap (λ (r : Result Found). r >>= on_found (again fuel) s key safe_point state marker c)
        (seek-From ts us f)

  remove_all-From :
      (fuel ts : ℕ) (us : List Version) (marker : Option ℕ) (c : Collected)
      → length us < fuel
      → From ts us
      → gc_loop fuel s key safe_point remove_all ts marker c
        ≡ ok (done key marker (dropped key c us))
  unfolding dropped on_found on_record first_of_key
  remove_all-From zero ts us marker c l f = absurd (omega arith)
  remove_all-From (suc fuel) ts [] marker c l f = gc_loop-From fuel ts [] remove_all marker c f
  remove_all-From (suc fuel) ts (v ∷ us) marker c l f =
      gc_loop-From fuel ts (v ∷ us) remove_all marker c f
      ∙ elim (Bool-cases (equal_bytes v.key key)) [
        | inl same ↦ rw same (
            remove_all-From fuel (minus_one v.commit_ts) us marker
              (drop_old key v.write v.commit_ts (count c)) (omega (arith, l))
              (From-rest ts v us f same))
        | inr other ↦ rw other refl
      ]

  -- The search for an older record in front of a delete decides as what is left of the versions.
  on_older-From :
      (fuel ts commit_ts : ℕ) (us : List Version) (c : Collected)
      → length us < fuel
      → From (minus_one commit_ts) us
      → on_older (again fuel) key commit_ts none c (first_of_key us key)
        ≡ ok (drop_version key commit_ts (dropped key c us))
  unfolding done dropped first_of_key
  on_older-From fuel ts commit_ts [] c l f = refl
  on_older-From fuel ts commit_ts (w ∷ us) c l f = elim (Bool-cases (equal_bytes w.key key)) [
    | inl same ↦ rw same (
        rw (dropped, same) at
          (remove_all-From fuel (minus_one commit_ts) (w ∷ us) (some commit_ts) c l f))
    | inr other ↦ rw other refl
  ]

  on_verdict-From :
      (fuel ts : ℕ) (v : Version) (us : List Version) (c : Collected) (x : Verdict)
      → length us < fuel
      → From (minus_one v.commit_ts) us
      → ((c' : Collected)
          → gc_loop fuel s key safe_point remove_idempotent (minus_one v.commit_ts) none c'
            ≡ ok (settled key c' us))
      → on_verdict (again fuel) (seek_write s key (minus_one v.commit_ts)) key v.commit_ts none c x
        ≡ ok (elim x [
          | keep_put ↦ dropped key c us
          | meet_delete ↦ drop_version key v.commit_ts (dropped key c us)
          | drop_record ↦ settled key (drop_version key v.commit_ts c) us
          | step_over ↦ settled key c us
        ])
  unfolding on_verdict done
  on_verdict-From fuel ts v us c keep_put l f ih =
      remove_all-From fuel (minus_one v.commit_ts) us none c l f
  on_verdict-From fuel ts v us c meet_delete l f ih =
      ap (λ (r : Result Found). r >>= on_older (again fuel) key v.commit_ts none c)
        (seek-From (minus_one v.commit_ts) us f)
      ∙ on_older-From fuel ts v.commit_ts us c l f
  on_verdict-From fuel ts v us c drop_record l f ih = ih (drop_version key v.commit_ts c)
  on_verdict-From fuel ts v us c step_over l f ih = ih c

  remove_idempotent-From :
      (fuel ts : ℕ) (us : List Version) (c : Collected)
      → length us < fuel
      → From ts us
      → gc_loop fuel s key safe_point remove_idempotent ts none c ≡ ok (settled key c us)
  unfolding settled on_found on_record first_of_key done
  remove_idempotent-From zero ts us c l f = absurd (omega arith)
  remove_idempotent-From (suc fuel) ts [] c l f = gc_loop-From fuel ts [] remove_idempotent none c f
  remove_idempotent-From (suc fuel) ts (v ∷ us) c l f =
      let l' : length us < fuel = omega (arith, l) in
      gc_loop-From fuel ts (v ∷ us) remove_idempotent none c f
      ∙ elim (Bool-cases (equal_bytes v.key key)) [
        | inl same ↦
            let rest = From-rest ts v us f same in
            rw same (
              on_verdict-From fuel ts v us (count c) (verdict v.write) l' rest
                (λ c'. remove_idempotent-From fuel (minus_one v.commit_ts) us c' l' rest))
        | inr other ↦ rw other refl
      ]

  rewind-From :
      (fuel ts : ℕ) (us : List Version) (c : Collected)
      → length us < fuel
      → From ts us
      → gc_loop fuel s key safe_point rewind ts none c ≡ ok (rewound key safe_point c us)
  unfolding rewound settled on_found on_record first_of_key done
  rewind-From zero ts us c l f = absurd (omega arith)
  rewind-From (suc fuel) ts [] c l f = gc_loop-From fuel ts [] rewind none c f
  rewind-From (suc fuel) ts (v ∷ us) c l f =
      let l' : length us < fuel = omega (arith, l) in
      gc_loop-From fuel ts (v ∷ us) rewind none c f ∙ elim (Bool-cases (equal_bytes v.key key)) [
        | inl same ↦
            let rest = From-rest ts v us f same in
            elim (Bool-cases (ltb safe_point v.commit_ts)) [
              | inl above ↦
                  rw (same, above) (rewind-From fuel (minus_one v.commit_ts) us (count c) l' rest)
              | inr below ↦
                  rw (same, below)
                    (on_verdict-From fuel ts v us (count c) (verdict v.write) l' rest
                      (λ c'. remove_idempotent-From fuel (minus_one v.commit_ts) us c' l' rest))
            ]
        | inr other ↦ rw other refl
      ]

  -- On a well-formed store without versions at timestamp 0, `GC` ends without an error, and collects
  -- what the walk through the versions of the key collects.
  pub gc-rewound :
      (txn : MvccTxn)
      → gc txn s key safe_point
        ≡ ok (
            rewound key safe_point
              (txn, record { found_versions = 0; deleted_versions = 0; is_completed = true })
              (versions_from vs key ts_max))
  unfolding gc
  gc-rewound txn =
      rewind-From (suc (length s.cf_write)) ts_max (versions_from vs key ts_max)
        (txn, record { found_versions = 0; deleted_versions = 0; is_completed = true })
        (omega
          (arith, length-versions_from vs key ts_max, ap length h.entries ∙ length-map vs entry))
        (record { fits = omega arith; from = refl })
