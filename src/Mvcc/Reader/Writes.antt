-- ===== src/Mvcc/Reader/Writes.antt =====
-- The readers of CF_WRITE on entries that hold versions.
use gookv.Prelude.{
  ℕ, zero, suc, ◌≡◌, refl, List, [], ◌∷◌, map, arith, All, ok, ◌≤◌, length, length-map,
}
use gookv.Prelude.Order.{equal_bytes}
use gookv.Codec.Number.{IsU64}
use gookv.TxnTypes.Write.{Write, marshal}
use gookv.TxnTypes.Write.RoundTrip.{unmarshal_write-marshal}
use gookv.Mvcc.Key.{encode_key, encode_lock_key, truncate_to_user_key}
use gookv.Mvcc.Key.Laws.{
  decode-encode_key, truncate-encode_key, compare-encode_key, compare-encode_lock_key,
}
use gookv.Mvcc.Snapshot.{Entries, Snapshot, seek}
use gookv.Mvcc.Versions.{Version, entry, IsStorable, versions_from, first_of_key, IsSorted}
use gookv.Mvcc.Versions.Next.{versions_from-All}
use gookv.Mvcc.Versions.Visible.{run_of_key, latest_put, visible_versions, run-versions_from}
use gookv.Mvcc.Reader.{behind, get_write_loop, get_write, decode_entry, first_write, seek_write}

pub decode_entry-entry :
    (v : Version)
    → IsStorable v
    → decode_entry (encode_key v.key v.commit_ts) (marshal v.write) ≡ ok (v.write, v.commit_ts)
unfolding decode_entry
decode_entry-entry v s = rw (
  decode-encode_key v.key v.commit_ts s.commit_ts_fits,
  unmarshal_write-marshal v.write s.write_fits,
  s.write_stored,
)

-- A stored version belongs to the key for which its user key is that key.
pub same_user_key :
    (v : Version) (key : List ℕ)
    → equal_bytes (truncate_to_user_key (encode_key v.key v.commit_ts)) (encode_lock_key key)
      ≡ equal_bytes v.key key
same_user_key v key =
    ground (arith, truncate-encode_key v.key v.commit_ts, compare-encode_lock_key v.key key)

pub seek-entries :
    (vs : List Version) (key : List ℕ) (ts : ℕ)
    → IsU64 ts
    → All IsStorable vs
    → seek (map entry vs) (encode_key key ts) ≡ map entry (versions_from vs key ts)
unfolding seek versions_from
seek-entries [] key ts h s = refl
seek-entries (v ∷ vs) key ts h s =
    ground (arith, compare-encode_key v.key key v.commit_ts ts, seek-entries vs key ts)

first_write-entries :
    (vs : List Version) (key : List ℕ)
    → All IsStorable vs
    → first_write (map entry vs) key ≡ ok (first_of_key vs key)
unfolding first_write first_of_key
first_write-entries [] key s = refl
first_write-entries (v ∷ vs) key s =
    rw (same_user_key v key, decode_entry-entry v s.0) (ground arith)

-- On entries that hold versions, `SeekWrite` returns the first version from (key, ts) on, if it
-- belongs to the key.
pub seek_write-entries :
    (snapshot : Snapshot) (vs : List Version) (key : List ℕ) (ts : ℕ)
    → snapshot.cf_write ≡ map entry vs
    → All IsStorable vs
    → IsU64 ts
    → seek_write snapshot key ts ≡ ok (first_of_key (versions_from vs key ts) key)
unfolding seek_write
seek_write-entries snapshot vs key ts e s h =
    rw (e, seek-entries vs key ts h s)
      (first_write-entries (versions_from vs key ts) key (versions_from-All IsStorable vs key ts s))

-- No record names its last change, as no action of the code sets one.
abbrev pub NamesNoChange : Version → Type 0
NamesNoChange v = v.write.last_change.ts ≡ 0

behind-same :
    (cf : Entries) (key : List ℕ) (w : Write) (rest : Entries)
    → w.last_change.ts ≡ 0
    → behind cf key w rest ≡ rest
unfolding behind
behind-same cf key w rest n = ground arith

get_write_loop-entries :
    (fuel : ℕ) (cf : Entries) (vs : List Version) (key : List ℕ)
    → length vs ≤ fuel
    → All IsStorable vs
    → All NamesNoChange vs
    → get_write_loop fuel cf key (map entry vs) ≡ ok (latest_put (run_of_key vs key))
unfolding get_write_loop latest_put run_of_key
get_write_loop-entries zero cf [] key f s n = refl
get_write_loop-entries (suc fuel) cf [] key f s n = refl
get_write_loop-entries zero cf (v ∷ vs) key f s n = absurd (omega arith)
get_write_loop-entries (suc fuel) cf (v ∷ vs) key f s n =
    rw
      (same_user_key v key, decode_entry-entry v s.0, behind-same cf key v.write (map entry vs) n.0)
      (ground (arith, get_write_loop-entries fuel cf vs key (omega arith) s.1 n.1))

pub length-versions_from :
    (vs : List Version) (key : List ℕ) (ts : ℕ) → length (versions_from vs key ts) ≤ length vs
unfolding versions_from
length-versions_from [] key ts = omega arith
length-versions_from (v ∷ vs) key ts = ground (arith, length-versions_from vs key ts)

-- On entries that hold versions, sorted, each of which can be read back and names no last change,
-- `GetWrite` ends, and returns the newest version of the key that the timestamp sees and that is no
-- lock or rollback record, if it is a put.
pub get_write-entries :
    (snapshot : Snapshot) (vs : List Version) (key : List ℕ) (ts : ℕ)
    → snapshot.cf_write ≡ map entry vs
    → All IsStorable vs
    → All NamesNoChange vs
    → IsSorted vs
    → IsU64 ts
    → get_write snapshot key ts ≡ ok (latest_put (visible_versions vs key ts))
unfolding get_write
get_write-entries snapshot vs key ts e s n so h = rw (
  e,
  seek-entries vs key ts h s,
  length-map vs entry,
  get_write_loop-entries (length vs) (map entry vs) (versions_from vs key ts) key
      (length-versions_from vs key ts) (versions_from-All IsStorable vs key ts s)
      (versions_from-All NamesNoChange vs key ts n),
  run-versions_from vs key ts so,
)
