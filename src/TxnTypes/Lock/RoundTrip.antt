-- ===== src/TxnTypes/Lock/RoundTrip.antt =====
-- Reading a marshalled lock back.
use mathlib.Core.Option
use gookv.Prelude.{
  Result-cases, inl, inr, ℕ, ◌≤◌, ◌≡◌, ◌≢◌, refl, List, [], ◌∷◌, length, arith, ok, err, append-nil,
  if◌then◌else◌, out_of_fuel, All,
}
use gookv.Codec.Number.{IsU64}
use gookv.TxnTypes.Wire.{read_varint, read_var_bytes}
use gookv.TxnTypes.Wire.Fields.{read_fields, fields_loop, read_fields-ne-out_of_fuel}
use gookv.TxnTypes.Wire.Reading.{read_varint-put, read_var_bytes-append, read_varint-Shrinks}
use gookv.TxnTypes.Write.RoundTrip.{stored_value, stored_change}
use gookv.TxnTypes.Lock.{
  Lock, new_lock, marshal, marshal_optional, unmarshal_lock, read_field, marshal_number,
  tag_generation,
}
use gookv.TxnTypes.Lock.Fields.{read_field-IsReader, read_var_bytes-Shrinks}
use gookv.TxnTypes.Lock.Optional.{
  with_short_value, with_for_update_ts, with_txn_size, with_min_commit_ts, with_secondaries,
  with_rollback_ts, with_last_change, with_txn_source, with_pessim_conflict, with_generation,
  short_value_lem, for_update_ts_lem, txn_size_lem, min_commit_ts_lem, secondaries_lem,
  rollback_ts_lem, last_change_lem, txn_source_lem, pessim_conflict_lem, generation_lem,
}

-- Every number and every length fits its width.
pub record IsValid (l : Lock) : Type 0 where
  pub primary_fits : IsU64 (length l.primary)
  pub start_ts_fits : IsU64 l.start_ts
  pub ttl_fits : IsU64 l.ttl
  pub short_value_fits : length (Option.get_or l.short_value []) ≤ 255
  pub for_update_ts_fits : IsU64 l.for_update_ts
  pub txn_size_fits : IsU64 l.txn_size
  pub min_commit_ts_fits : IsU64 l.min_commit_ts
  pub secondaries_fit : IsU64 (length l.secondaries)
  pub each_secondary_fits : All (λ k. IsU64 (length k)) l.secondaries
  pub rollback_ts_fit : IsU64 (length l.rollback_ts)
  pub each_rollback_ts_fits : All IsU64 l.rollback_ts
  pub last_change_fits : IsU64 l.last_change.ts
  pub versions_fit : IsU64 l.last_change.estimated_versions
  pub txn_source_fits : IsU64 l.txn_source
  pub generation_fits : IsU64 l.generation

-- What a lock loses on disk: an empty short value, the estimate that goes with a zero last change,
-- and secondaries without async commit.
abbrev pub stored : Lock → Lock
stored l = record l {
  short_value = stored_value l.short_value;
  secondaries = if l.use_async_commit then l.secondaries else [];
  last_change = stored_change l.last_change;
}

-- The loop rebuilds the fields in the order in which they were written.
rebuilt : Lock → Lock → Lock
rebuilt l base = with_generation l.generation (
    with_pessim_conflict l.pessimistic_lock_with_conflict (
      with_txn_source l.txn_source (
        with_last_change l.last_change (
          with_rollback_ts l.rollback_ts (
            with_secondaries l.use_async_commit l.secondaries (
              with_min_commit_ts l.min_commit_ts (
                with_txn_size l.txn_size
                  (with_for_update_ts l.for_update_ts (with_short_value l.short_value base)))))))))

rebuilt-new_lock :
    (l : Lock) → rebuilt l (new_lock l.lock_type l.primary l.start_ts l.ttl) ≡ stored l
unfolding rebuilt
rebuilt-new_lock l = ground arith

read_fields-marshal_optional :
    (l base : Lock)
    → IsValid l
    → read_fields read_field (marshal_optional l) base ≡ ok (rebuilt l base)
unfolding marshal_optional rebuilt
read_fields-marshal_optional l base v =
    rw
      (
        short_value_lem _ _ l.short_value v.short_value_fits,
        for_update_ts_lem _ _ l.for_update_ts v.for_update_ts_fits,
        txn_size_lem _ _ l.txn_size v.txn_size_fits,
        min_commit_ts_lem _ _ l.min_commit_ts v.min_commit_ts_fits,
        secondaries_lem _ _ l.use_async_commit l.secondaries v.secondaries_fit
            v.each_secondary_fits,
        rollback_ts_lem _ _ l.rollback_ts v.rollback_ts_fit v.each_rollback_ts_fits,
        last_change_lem _ _ l.last_change v.last_change_fits v.versions_fit,
        txn_source_lem _ _ l.txn_source v.txn_source_fits,
        pessim_conflict_lem _ _ l.pessimistic_lock_with_conflict,
        ← append-nil (marshal_number tag_generation l.generation),
        generation_lem [] _ l.generation v.generation_fits,
      )
      (unfold read_fields fields_loop in refl)

-- `UnmarshalLock` reads back every lock whose numbers and lengths fit their widths from what
-- `Marshal` wrote, up to an empty short value, the estimate that goes with a zero last change, and
-- secondaries of a lock that does not use async commit, which are not stored.
pub unmarshal_lock-marshal : (l : Lock) → IsValid l → unmarshal_lock (marshal l) ≡ ok (stored l)
unfolding unmarshal_lock marshal
unmarshal_lock-marshal l v = rw (
  read_var_bytes-append l.primary _ v.primary_fits,
  read_varint-put l.start_ts _ v.start_ts_fits,
  read_varint-put l.ttl _ v.ttl_fits,
  read_fields-marshal_optional l _ v,
  rebuilt-new_lock l,
)

-- `UnmarshalLock` ends on every input, by a lock or an error of the code.
pub unmarshal_lock-ne-out_of_fuel : (bytes : List ℕ) → unmarshal_lock bytes ≢ err out_of_fuel
unfolding unmarshal_lock
unmarshal_lock-ne-out_of_fuel [] = λ e. cc
unmarshal_lock-ne-out_of_fuel (t ∷ bytes) = elim (Result-cases (read_var_bytes bytes)) [
  | inl ((primary, rest), e) ↦ rw e (elim (Result-cases (read_varint rest)) [
    | inl ((ts, rest'), e') ↦ rw e' (elim (Result-cases (read_varint rest')) [
      | inl ((ttl, rest''), e'') ↦ rw e'' (
          read_fields-ne-out_of_fuel read_field read_field-IsReader rest''
            (new_lock t primary ts ttl))
      | inr (x, e'') ↦ rw e'' (λ r. (read_varint-Shrinks rest').fails (ground arith))
    ])
    | inr (x, e') ↦ rw e' (λ r. (read_varint-Shrinks rest).fails (ground arith))
  ])
  | inr (x, e) ↦ rw e (λ r. (read_var_bytes-Shrinks bytes).fails (ground arith))
]
