-- ===== src/Txn/Actions/Conflicts.antt =====
-- What the conflict check of a prewrite decides, in terms of the committed versions.
use gookv.Prelude.{
  ℕ, zero, suc, ◌≤◌, ◌≡◌, refl, ◌∙◌, ap, Bool, false, not, ◌&&◌, ◌||◌, List, [], ◌∷◌, map, take,
  leb, ltb, if◌then◌else◌, arith, Ordering, All, Bool-cases, inl, inr, ◌⊎◌,
}
use gookv.Prelude.Order.{compare_bytes, equal_bytes, eq_of_equal_bytes, eq_of_compare_bytes}
use gookv.Codec.Number.{IsU64}
use gookv.TxnTypes.Timestamp.{ts_max, prev, prev-IsU64}
use gookv.Mvcc.Snapshot.{Snapshot}
use gookv.Mvcc.Versions.{
  Version, entry, position, precedes, IsStorable, IsSorted, versions_from, first_of_key,
}
use gookv.Mvcc.Versions.Next.{
  versions_from-prev, versions_from-All, versions_from-IsSorted, Reaches, Reaches-tail,
  versions_from-Reaches,
}
use gookv.Mvcc.Reader.Writes.{seek_write-entries}
use gookv.Txn.Outcome.{Outcome, done, failed, write_conflict}
use gookv.Txn.Actions.{is_skipped, judge, check_newer}

-- The versions of a key that are newer than a transaction.
unfoldable pub newer_versions : List Version → List ℕ → ℕ → List Version
newer_versions [] key start_ts = []
newer_versions (v ∷ vs) key start_ts =
    let rest = newer_versions vs key start_ts in
    if equal_bytes v.key key && ltb start_ts v.commit_ts then v ∷ rest else rest

-- One of the versions changes data.
unfoldable pub changes_data : List Version → Bool
changes_data [] = false
changes_data (v ∷ vs) = not (is_skipped v.write) || changes_data vs

abbrev pub verdict : Bool → Outcome (Unit {0})
verdict conflict = if conflict then failed write_conflict else done tt

-- The loop, over the versions behind its position.
scan : ℕ → List Version → List ℕ → ℕ → Outcome (Unit {0})
scan zero vs key start_ts = done tt
scan (suc rounds) [] key start_ts = done tt
scan (suc rounds) (v ∷ vs) key start_ts =
    let older = scan rounds vs key start_ts in
    if equal_bytes v.key key
    then (if leb v.commit_ts start_ts
        then done tt
        else if is_skipped v.write
        then older
        else failed write_conflict)
    else done tt

-- One round of the loop, given the rounds that follow.
at_position :
    (rounds : ℕ) (snapshot : Snapshot) (vs : List Version) (key : List ℕ) (start_ts ts : ℕ)
    (l : List Version)
    → versions_from vs key ts ≡ l
    → ((us : ℕ)
        → IsU64 us
        → check_newer rounds snapshot key start_ts us
          ≡ scan rounds (versions_from vs key us) key start_ts)
    → All IsStorable l
    → IsSorted vs
    → judge (check_newer rounds snapshot key start_ts) start_ts (first_of_key l key)
      ≡ scan (suc rounds) l key start_ts
unfolding judge scan first_of_key
at_position rounds snapshot vs key start_ts ts [] e ih st so = refl
at_position rounds snapshot vs key start_ts ts (v ∷ rest) e ih st so = ground (
  arith,
  eq_of_equal_bytes v.key key,
  ih (prev v.commit_ts) (prev-IsU64 v.commit_ts st.0.commit_ts_fits),
  versions_from-prev vs key ts v rest so e,
)

check_newer-scan :
    (rounds : ℕ) (snapshot : Snapshot) (vs : List Version) (key : List ℕ) (start_ts ts : ℕ)
    → snapshot.cf_write ≡ map entry vs
    → All IsStorable vs
    → IsSorted vs
    → IsU64 ts
    → check_newer rounds snapshot key start_ts ts
      ≡ scan rounds (versions_from vs key ts) key start_ts
unfolding check_newer scan
check_newer-scan zero snapshot vs key start_ts ts e st so h = refl
check_newer-scan (suc rounds) snapshot vs key start_ts ts e st so h =
    rw (seek_write-entries snapshot vs key ts e st h) (
      at_position rounds snapshot vs key start_ts ts (versions_from vs key ts) refl
        (λ us k. check_newer-scan rounds snapshot vs key start_ts us e st so k)
        (versions_from-All IsStorable vs key ts st) so)

-- Behind a version that is past the key, or of the key and not newer, no version is newer.
none-newer :
    (v : Version) (vs : List Version) (key : List ℕ) (start_ts : ℕ)
    → All (λ w. position v w.key w.commit_ts ≡ Ordering.lt) vs
    → (compare_bytes v.key key ≡ Ordering.gt) ⊎ ((v.key ≡ key) × (v.commit_ts ≤ start_ts))
    → newer_versions vs key start_ts ≡ []
unfolding newer_versions
none-newer v [] key start_ts s h = refl
none-newer v (w ∷ vs) key start_ts s h =
    let rest = none-newer v vs key start_ts s.1 h in ground (arith, eq_of_compare_bytes w.key key)

none-newer_old :
    (v : Version) (vs : List Version) (key : List ℕ) (start_ts : ℕ)
    → All (λ w. position v w.key w.commit_ts ≡ Ordering.lt) vs
    → v.key ≡ key
    → v.commit_ts ≤ start_ts
    → newer_versions vs key start_ts ≡ []
none-newer_old v vs key start_ts s k p = none-newer v vs key start_ts s (inr (k, p))

scan-newer :
    (rounds : ℕ) (vs : List Version) (key : List ℕ) (start_ts : ℕ)
    → IsSorted vs
    → Reaches vs key
    → scan rounds vs key start_ts
      ≡ verdict (changes_data (take rounds (newer_versions vs key start_ts)))
unfolding scan newer_versions changes_data
scan-newer zero vs key start_ts s r = refl
scan-newer (suc rounds) [] key start_ts s r = refl
scan-newer (suc rounds) (v ∷ vs) key start_ts s r = elim (Bool-cases (equal_bytes v.key key)) [
  | inl same ↦
      let k = eq_of_equal_bytes v.key key same in
      ground (
        arith,
        none-newer_old v vs key start_ts s.0 k,
        scan-newer rounds vs key start_ts s.1 (Reaches-tail v vs key s.0 k),
      )
  | inr other ↦ ground (arith, none-newer v vs key start_ts s.0 (inl (ground arith)))
]

newer_versions-versions_from :
    (vs : List Version) (key : List ℕ) (start_ts : ℕ)
    → All IsStorable vs
    → newer_versions (versions_from vs key ts_max) key start_ts ≡ newer_versions vs key start_ts
unfolding newer_versions versions_from
newer_versions-versions_from [] key start_ts s = refl
newer_versions-versions_from (v ∷ vs) key start_ts s = elim (Bool-cases (precedes v key ts_max)) [
  | inl d ↦
      rw (d, versions_from)
        (ground (arith, s.0.commit_ts_fits, newer_versions-versions_from vs key start_ts s.1))
  | inr d ↦ rw (d, versions_from)
]

-- The conflict check of a prewrite, on a store that holds the versions `vs`: it looks at the first
-- `rounds` versions of the key that are newer than the transaction, and reports a conflict exactly
-- when one of these changes data.
pub check_newer-verdict :
    (rounds : ℕ) (snapshot : Snapshot) (vs : List Version) (key : List ℕ) (start_ts : ℕ)
    → snapshot.cf_write ≡ map entry vs
    → All IsStorable vs
    → IsSorted vs
    → check_newer rounds snapshot key start_ts ts_max
      ≡ verdict (changes_data (take rounds (newer_versions vs key start_ts)))
check_newer-verdict rounds snapshot vs key start_ts e st so =
    check_newer-scan rounds snapshot vs key start_ts ts_max e st so (omega arith)
    ∙ scan-newer rounds (versions_from vs key ts_max) key start_ts
        (versions_from-IsSorted vs key ts_max so) (versions_from-Reaches vs key)
    ∙ ap (λ l. verdict (changes_data (take rounds l)))
        (newer_versions-versions_from vs key start_ts st)
