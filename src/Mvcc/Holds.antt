-- ===== src/Mvcc/Holds.antt =====
-- A well-formed store: CF_WRITE holds versions in the order of their keys, each of which can be read
-- back, names no last change, and was committed at or after its start.
use gookv.Prelude.{ℕ, ◌≡◌, List, map, All, ok}
use gookv.Codec.Number.{IsU64}
use gookv.TxnTypes.Write.{marshal}
use gookv.Mvcc.Key.{encode_key}
use gookv.Mvcc.Snapshot.{Snapshot}
use gookv.Mvcc.Txn.{cf_write, put}
use gookv.Mvcc.Txn.Apply.{apply}
use gookv.Mvcc.Versions.{Version, entry, IsStorable, IsSorted}
use gookv.Mvcc.Versions.Insert.{
  insert_version, put_entry-entries, insert_version-IsSorted, All-insert,
}
use gookv.Mvcc.Versions.Visible.{visible_versions, latest_put}
use gookv.Mvcc.Reader.{get_write, get_txn_commit_record}
use gookv.Mvcc.Reader.Writes.{NamesNoChange, get_write-entries}
use gookv.Mvcc.Reader.Records.{StartsBefore, own_record, get_txn_commit_record-entries}

pub record Holds (s : Snapshot) (vs : List Version) : Type 0 where
  pub entries : s.cf_write ≡ map entry vs
  pub storable : All IsStorable vs
  pub names_no_change : All NamesNoChange vs
  pub starts_before : All StartsBefore vs
  pub sorted : IsSorted vs

-- A version that may be written.
pub record IsWritable (v : Version) : Type 0 where
  pub storable : IsStorable v
  pub names_no_change : NamesNoChange v
  pub starts_before : StartsBefore v

-- Writing the entry of a version that can be read back, names no last change, and was committed at
-- or after its start, to a well-formed store gives the well-formed store with that version
-- inserted.
pub put_write-Holds :
    (s : Snapshot) (vs : List Version) (v : Version)
    → Holds s vs
    → IsWritable v
    → Holds
        (apply s (put cf_write (encode_key v.key v.commit_ts) (marshal v.write)))
        (insert_version vs v)
unfolding apply
put_write-Holds s vs v h w = record {
  entries = rw h.entries (put_entry-entries vs v h.storable w.storable);
  storable = All-insert IsStorable vs v w.storable h.storable;
  names_no_change = All-insert NamesNoChange vs v w.names_no_change h.names_no_change;
  starts_before = All-insert StartsBefore vs v w.starts_before h.starts_before;
  sorted = insert_version-IsSorted vs v h.sorted;
}

module _ {s : Snapshot} {vs : List Version} (h : Holds s vs) where
  pub get_write_lem :
      (key : List ℕ) (ts : ℕ)
      → IsU64 ts
      → get_write s key ts ≡ ok (latest_put (visible_versions vs key ts))
  get_write_lem key ts f =
      get_write-entries s vs key ts h.entries h.storable h.names_no_change h.sorted f

  pub get_txn_commit_record_lem :
      (key : List ℕ) (start_ts : ℕ)
      → get_txn_commit_record s key start_ts ≡ ok (own_record vs key start_ts)
  get_txn_commit_record_lem key start_ts =
      get_txn_commit_record-entries s vs key start_ts h.entries h.storable h.starts_before h.sorted
