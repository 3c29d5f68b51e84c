-- ===== src/Mvcc/Reader/Recorded.antt =====
-- The record of a transaction once it has been written.
use gookv.Prelude.{
  ◌≡◌, ◌&&◌, none, some, List, [], ◌∷◌, ◌==◌, arith, Ordering-cases, Bool-cases, inl, inr,
}
use gookv.Prelude.Order.{equal_bytes, equal_bytes_self}
use gookv.Mvcc.Versions.{Version, position}
use gookv.Mvcc.Versions.Insert.{insert_version}
use gookv.Mvcc.Reader.Records.{own_record}

-- A transaction that had no record on the key has the one that is written.
pub own_record-insert :
    (vs : List Version) (v : Version)
    → own_record vs v.key v.write.start_ts ≡ none
    → own_record (insert_version vs v) v.key v.write.start_ts ≡ some (v.write, v.commit_ts)
unfolding own_record insert_version
own_record-insert [] v h = ground (arith, equal_bytes_self v.key)
own_record-insert (x ∷ vs) v h =
    elim (Bool-cases (equal_bytes x.key v.key && x.write.start_ts == v.write.start_ts)) [
      | inl own ↦ ground (arith, own, h)
      | inr other ↦
          let older = rw (other, own_record) at h in
          elim (Ordering-cases (position x v.key v.commit_ts)) [
            | inl lt ↦
                rw (lt, insert_version) (rw (other, own_record) (own_record-insert vs v older))
            | inr (inl eq) ↦ rw (eq, insert_version) (ground (arith, equal_bytes_self v.key))
            | inr (inr gt) ↦ rw (gt, insert_version) (ground (arith, equal_bytes_self v.key))
          ]
    ]
