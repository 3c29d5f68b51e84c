-- ===== src/Mvcc/Reader/Records.antt =====
-- The search for the record of a transaction, on entries that hold versions.
use gookv.Prelude.{
  ℕ, ◌<◌, ◌≤◌, ◌≡◌, refl, ◌∙◌, ap, ◌&&◌, Option, none, some, List, [], ◌∷◌, map, ◌==◌,
  if◌then◌else◌, arith, Ordering, All, ok, Bool-cases, inl, inr, ◌⊎◌,
}
use gookv.Prelude.Order.{compare_bytes, equal_bytes, eq_of_equal_bytes, eq_of_compare_bytes}
use gookv.TxnTypes.Timestamp.{ts_max}
use gookv.TxnTypes.Write.{Write}
use gookv.Mvcc.Snapshot.{Snapshot}
use gookv.Mvcc.Versions.{Version, entry, position, precedes, IsStorable, IsSorted, versions_from}
use gookv.Mvcc.Versions.Next.{
  versions_from-IsSorted, versions_from-All, Reaches, Reaches-tail, versions_from-Reaches,
}
use gookv.Mvcc.Reader.{txn_record_loop, get_txn_commit_record}
use gookv.Mvcc.Reader.Writes.{decode_entry-entry, same_user_key, seek-entries}

-- No transaction commits before it starts.
abbrev pub StartsBefore : Version → Type 0
StartsBefore v = v.write.start_ts ≤ v.commit_ts

-- The newest record of a transaction on a key.
unfoldable pub own_record : List Version → List ℕ → ℕ → Option (Write × ℕ)
own_record [] key start_ts = none
own_record (v ∷ vs) key start_ts =
    let older = own_record vs key start_ts in
    if equal_bytes v.key key && v.write.start_ts == start_ts
    then some (v.write, v.commit_ts)
    else older

none-owned :
    (v : Version) (vs : List Version) (key : List ℕ) (start_ts : ℕ)
    → All (λ w. position v w.key w.commit_ts ≡ Ordering.lt) vs
    → All StartsBefore vs
    → (compare_bytes v.key key ≡ Ordering.gt) ⊎ ((v.key ≡ key) × (v.commit_ts < start_ts))
    → own_record vs key start_ts ≡ none
unfolding own_record
none-owned v [] key start_ts s b h = refl
none-owned v (w ∷ vs) key start_ts s b h =
    let rest = none-owned v vs key start_ts s.1 b.1 h in
    let first : w.write.start_ts ≤ w.commit_ts = b.0 in
    ground (arith, eq_of_compare_bytes w.key key)

none-owned_old :
    (v : Version) (vs : List Version) (key : List ℕ) (start_ts : ℕ)
    → All (λ w. position v w.key w.commit_ts ≡ Ordering.lt) vs
    → All StartsBefore vs
    → v.key ≡ key
    → v.commit_ts < start_ts
    → own_record vs key start_ts ≡ none
none-owned_old v vs key start_ts s b k p = none-owned v vs key start_ts s b (inr (k, p))

txn_record_loop-entries :
    (vs : List Version) (key : List ℕ) (start_ts : ℕ)
    → IsSorted vs
    → All IsStorable vs
    → All StartsBefore vs
    → Reaches vs key
    → txn_record_loop key start_ts (map entry vs) ≡ ok (own_record vs key start_ts)
unfolding txn_record_loop own_record
txn_record_loop-entries [] key start_ts s st b r = refl
txn_record_loop-entries (v ∷ vs) key start_ts s st b r =
    rw (same_user_key v key, decode_entry-entry v st.0)
      (elim (Bool-cases (equal_bytes v.key key)) [
        | inl same ↦
            let k = eq_of_equal_bytes v.key key same in
            ground (
              arith,
              none-owned_old v vs key start_ts s.0 b.1 k,
              txn_record_loop-entries vs key start_ts s.1 st.1 b.1 (Reaches-tail v vs key s.0 k),
            )
        | inr other ↦ ground (arith, none-owned v vs key start_ts s.0 b.1 (inl (ground arith)))
      ])

own_record-versions_from :
    (vs : List Version) (key : List ℕ) (start_ts : ℕ)
    → All IsStorable vs
    → own_record (versions_from vs key ts_max) key start_ts ≡ own_record vs key start_ts
unfolding own_record versions_from
own_record-versions_from [] key start_ts s = refl
own_record-versions_from (v ∷ vs) key start_ts s = elim (Bool-cases (precedes v key ts_max)) [
  | inl d ↦
      rw (d, versions_from)
        (ground (arith, s.0.commit_ts_fits, own_record-versions_from vs key start_ts s.1))
  | inr d ↦ rw (d, versions_from)
]

-- On entries that hold versions, sorted, each of which can be read back and was committed at or
-- after its start, `GetTxnCommitRecord` ends, and finds the newest record of the transaction on the
-- key, if there is one: its early stop loses nothing.
pub get_txn_commit_record-entries :
    (snapshot : Snapshot) (vs : List Version) (key : List ℕ) (start_ts : ℕ)
    → snapshot.cf_write ≡ map entry vs
    → All IsStorable vs
    → All StartsBefore vs
    → IsSorted vs
    → get_txn_commit_record snapshot key start_ts ≡ ok (own_record vs key start_ts)
unfolding get_txn_commit_record
get_txn_commit_record-entries snapshot vs key start_ts e s b so =
    rw (e, seek-entries vs key ts_max (omega arith) s)
      (txn_record_loop-entries (versions_from vs key ts_max) key start_ts
          (versions_from-IsSorted vs key ts_max so) (versions_from-All IsStorable vs key ts_max s)
          (versions_from-All StartsBefore vs key ts_max b) (versions_from-Reaches vs key)
        ∙ ap ok (own_record-versions_from vs key start_ts s))
