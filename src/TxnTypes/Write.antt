-- ===== src/TxnTypes/Write.antt =====
-- pkg/txntypes/write.go: a commit or rollback record and its binary form. A write type is the byte
-- that Go stores; a slice that the code compares with nil is an option. Allocation is not modelled.
pub mod Fields
pub mod RoundTrip
use gookv.Prelude.{
  ℕ, zero, suc, Bool, true, false, not, ◌&&◌, ◌||◌, ◌%◌, Option, none, some, List, [], ◌∷◌, ◌++◌,
  length, ltb, ◌==◌, if◌then◌else◌, Result, ok, err, unexpected_eof, unknown_write_tag, ◌>>=◌,
}
use gookv.Codec.Number.{put_uint64}
use gookv.Codec.Varint.{put_uvarint}
use gookv.TxnTypes.Timestamp.{is_zero}
use gookv.TxnTypes.Wire.{read_varint, read_uint64_be, read_short_value}
use gookv.TxnTypes.Wire.Fields.{Handler, read_fields}

abbrev pub write_type_put : ℕ
write_type_put = b'P'

abbrev pub write_type_delete : ℕ
write_type_delete = b'D'

abbrev pub write_type_lock : ℕ
write_type_lock = b'L'

abbrev pub write_type_rollback : ℕ
write_type_rollback = b'R'

abbrev pub short_value_max_len : ℕ
short_value_max_len = 255

-- pkg/txntypes/lock.go
pub record LastChange : Type 0 where
  pub ts : ℕ
  pub estimated_versions : ℕ

pub record Write : Type 0 where
  pub write_type : ℕ
  pub start_ts : ℕ
  pub short_value : Option (List ℕ)
  pub has_overlapped_rollback : Bool
  pub gc_fence : Option ℕ
  pub last_change : LastChange
  pub txn_source : ℕ

abbrev pub no_change : LastChange
no_change = record { ts = 0; estimated_versions = 0 }

-- `Write{WriteType: t, StartTS: ts}`, every other field at its zero value.
abbrev pub new_write : ℕ → ℕ → Write
new_write t ts = record {
  write_type = t;
  start_ts = ts;
  short_value = none;
  has_overlapped_rollback = false;
  gc_fence = none;
  last_change = no_change;
  txn_source = 0;
}

abbrev pub tag_short_value : ℕ
tag_short_value = b'v'

abbrev pub tag_overlapped_rollback : ℕ
tag_overlapped_rollback = b'R'

abbrev pub tag_gc_fence : ℕ
tag_gc_fence = b'F'

abbrev pub tag_last_change : ℕ
tag_last_change = b'l'

abbrev pub tag_txn_source : ℕ
tag_txn_source = b'S'

-- `len(s) > 0`: nil and the empty slice alike are not written.
unfoldable pub marshal_short_value : Option (List ℕ) → List ℕ
marshal_short_value none = []
marshal_short_value (some []) = []
marshal_short_value (some (b ∷ bs)) = tag_short_value ∷ (length (b ∷ bs) % 256) ∷ b ∷ bs

unfoldable pub marshal_overlapped_rollback : Bool → List ℕ
marshal_overlapped_rollback b = if b then tag_overlapped_rollback ∷ [] else []

unfoldable pub marshal_gc_fence : Option ℕ → List ℕ
marshal_gc_fence none = []
marshal_gc_fence (some ts) = tag_gc_fence ∷ put_uint64 ts

unfoldable pub marshal_last_change : LastChange → List ℕ
marshal_last_change c =
    if is_zero c.ts
    then []
    else tag_last_change ∷ (put_uint64 c.ts ++ put_uvarint c.estimated_versions)

-- The tag is the record's: 'S' in a write, 's' in a lock.
unfoldable pub marshal_txn_source : ℕ → ℕ → List ℕ
marshal_txn_source tag n = if ltb 0 n then tag ∷ put_uvarint n else []

unfoldable pub marshal : Write → List ℕ
marshal w =
    w.write_type
    ∷ (put_uvarint w.start_ts
        ++ (marshal_short_value w.short_value
            ++ (marshal_overlapped_rollback w.has_overlapped_rollback
                ++ (marshal_gc_fence w.gc_fence
                    ++ (marshal_last_change w.last_change
                        ++ marshal_txn_source tag_txn_source w.txn_source)))))

unfoldable pub read_last_change : List ℕ → Result (LastChange × List ℕ)
read_last_change bytes = do
  (ts, rest) ← read_uint64_be bytes
  (n, rest') ← read_varint rest
  ok (record { ts = ts; estimated_versions = n }, rest')

-- The switch of `UnmarshalWrite`.
unfoldable pub read_field : Handler Write
read_field tag bytes w =
    if tag == tag_short_value
    then (do (v, rest) ← read_short_value bytes; ok (record w { short_value = some v }, rest))
    else if tag == tag_overlapped_rollback
    then ok (record w { has_overlapped_rollback = true }, bytes)
    else if tag == tag_gc_fence
    then (do (ts, rest) ← read_uint64_be bytes; ok (record w { gc_fence = some ts }, rest))
    else if tag == tag_last_change
    then (do (c, rest) ← read_last_change bytes; ok (record w { last_change = c }, rest))
    else if tag == tag_txn_source
    then (do (n, rest) ← read_varint bytes; ok (record w { txn_source = n }, rest))
    else err unknown_write_tag

unfoldable pub unmarshal_write : List ℕ → Result Write
unmarshal_write [] = err unexpected_eof
unmarshal_write (t ∷ bytes) = do
  (ts, rest) ← read_varint bytes
  read_fields read_field rest (new_write t ts)

unfoldable pub need_value : Write → Bool
need_value w =
    w.write_type == write_type_put
    && elim w.short_value [ none ↦ true | some [] ↦ true | some (b ∷ bs) ↦ false ]

unfoldable pub is_data_changed : Write → Bool
is_data_changed w = w.write_type == write_type_put || w.write_type == write_type_delete
