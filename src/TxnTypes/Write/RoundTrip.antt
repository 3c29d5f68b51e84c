-- ===== src/TxnTypes/Write/RoundTrip.antt =====
-- Reading a marshalled write back.
use mathlib.Core.Option
use gookv.Prelude.{
  ap, Result-cases, inl, inr, ℕ, ◌≤◌, ◌≡◌, ◌≢◌, Option, none, some, List, [], ◌∷◌, length, arith,
  ok, err, append-nil, if◌then◌else◌, out_of_fuel,
}
use gookv.Codec.Number.{IsU64}
use gookv.TxnTypes.Timestamp.{is_zero}
use gookv.TxnTypes.Wire.{read_varint}
use gookv.TxnTypes.Wire.Fields.{read_fields, fields_loop, read_fields-ne-out_of_fuel}
use gookv.TxnTypes.Wire.Reading.{read_varint-put, read_varint-Shrinks}
use gookv.TxnTypes.Write.{
  Write, LastChange, no_change, new_write, marshal, unmarshal_write, read_field, tag_txn_source,
  marshal_txn_source,
}
use gookv.TxnTypes.Write.Fields.{
  read_field-IsReader, with_short_value, with_overlapped_rollback, with_gc_fence, with_last_change,
  with_txn_source, short_value_lem, overlapped_rollback_lem, gc_fence_lem, last_change_lem,
  txn_source_lem,
}

-- Every number fits its width, and the short value fits its length byte.
pub record IsValid (w : Write) : Type 0 where
  pub start_ts_fits : IsU64 w.start_ts
  pub short_value_fits : length (Option.get_or w.short_value []) ≤ 255
  pub gc_fence_fits : IsU64 (Option.get_or w.gc_fence 0)
  pub last_change_fits : IsU64 w.last_change.ts
  pub versions_fit : IsU64 w.last_change.estimated_versions
  pub txn_source_fits : IsU64 w.txn_source

-- An empty short value reads back as nil, and so does the change of a zero timestamp.
abbrev pub stored_value : Option (List ℕ) → Option (List ℕ)
stored_value none = none
stored_value (some []) = none
stored_value (some (b ∷ bs)) = some (b ∷ bs)

abbrev pub stored_change : LastChange → LastChange
stored_change c = if is_zero c.ts then no_change else c

abbrev pub stored : Write → Write
stored w = record w {
  short_value = stored_value w.short_value;
  last_change = stored_change w.last_change;
}

stored-eq :
    (w : Write)
    → with_txn_source w.txn_source (
        with_last_change w.last_change (
          with_gc_fence w.gc_fence (
            with_overlapped_rollback w.has_overlapped_rollback
              (with_short_value w.short_value (new_write w.write_type w.start_ts)))))
      ≡ stored w
stored-eq w = ground arith

-- `UnmarshalWrite` reads back every write whose numbers and lengths fit their widths from what
-- `Marshal` wrote, up to an empty short value and the estimate that goes with a zero last change,
-- which are not stored.
pub unmarshal_write-marshal : (w : Write) → IsValid w → unmarshal_write (marshal w) ≡ ok (stored w)
unfolding unmarshal_write marshal
unmarshal_write-marshal w v =
    rw
      (
        read_varint-put w.start_ts _ v.start_ts_fits,
        short_value_lem _ _ w.short_value v.short_value_fits,
        overlapped_rollback_lem _ _ w.has_overlapped_rollback,
        gc_fence_lem _ _ w.gc_fence v.gc_fence_fits,
        last_change_lem _ _ w.last_change v.last_change_fits v.versions_fit,
        ← append-nil (marshal_txn_source tag_txn_source w.txn_source),
        txn_source_lem [] _ w.txn_source v.txn_source_fits,
      )
      (unfold read_fields fields_loop in ap ok (stored-eq w))

-- `UnmarshalWrite` ends on every input, by a write or an error of the code.
pub unmarshal_write-ne-out_of_fuel : (bytes : List ℕ) → unmarshal_write bytes ≢ err out_of_fuel
unfolding unmarshal_write
unmarshal_write-ne-out_of_fuel [] = λ e. cc
unmarshal_write-ne-out_of_fuel (t ∷ bytes) = elim (Result-cases (read_varint bytes)) [
  | inl ((ts, rest), e) ↦
      rw e (read_fields-ne-out_of_fuel read_field read_field-IsReader rest (new_write t ts))
  | inr (x, e) ↦ rw e (λ r. (read_varint-Shrinks bytes).fails (ground arith))
]
