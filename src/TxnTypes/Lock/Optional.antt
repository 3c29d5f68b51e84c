-- ===== src/TxnTypes/Lock/Optional.antt =====
-- What the loop of `UnmarshalLock` does on each field that `Marshal` writes.
use native.Mathlib.Nat.{mod-eq_of_lt}
use mathlib.Core.Option
use gookv.Prelude.{
  ℕ, ◌%◌, ◌≤◌, ◌≡◌, refl, Bool, true, false, ◌||◌, Option, none, some, List, [], ◌∷◌, ◌++◌, length,
  arith, ok, append_assoc, ltb, if◌then◌else◌, Bool-cases, inl, inr, All,
}
use gookv.TxnTypes.Timestamp.{is_zero}
use gookv.Codec.Number.{IsU64, put_uint64}
use gookv.Codec.Varint.{put_uvarint}
use gookv.TxnTypes.Wire.{read_uint64_be, read_short_value, append_var_bytes, read_var_bytes}
use gookv.TxnTypes.Wire.Fields.{read_fields, read_fields-step}
use gookv.TxnTypes.Wire.Reading.{
  read_varint-put, read_uint64_be-put, read_var_bytes-append, split_at-append,
}
use gookv.TxnTypes.Write.{
  LastChange, read_last_change, marshal_short_value, marshal_last_change, marshal_txn_source,
}
use gookv.TxnTypes.Write.RoundTrip.{stored_value}
use gookv.TxnTypes.Lock.{
  Lock, read_field, read_counted, append_each, marshal_number, marshal_secondaries,
  marshal_rollback_ts, marshal_pessim_conflict, tag_short_value, tag_for_update_ts, tag_txn_size,
  tag_min_commit_ts, tag_txn_source, tag_generation, tag_pessim_conflict,
}
use gookv.TxnTypes.Lock.Fields.{read_field-IsReader, read_each-append_each}

-- A field that is not written keeps what the lock holds.
abbrev pub with_short_value : Option (List ℕ) → Lock → Lock
with_short_value v l = record l {
  short_value = elim (stored_value v) [ none ↦ l.short_value | some x ↦ some x ];
}

abbrev pub with_for_update_ts : ℕ → Lock → Lock
with_for_update_ts v l = record l { for_update_ts = if ltb 0 v then v else l.for_update_ts }

abbrev pub with_txn_size : ℕ → Lock → Lock
with_txn_size v l = record l { txn_size = if ltb 0 v then v else l.txn_size }

abbrev pub with_min_commit_ts : ℕ → Lock → Lock
with_min_commit_ts v l = record l { min_commit_ts = if ltb 0 v then v else l.min_commit_ts }

abbrev pub with_txn_source : ℕ → Lock → Lock
with_txn_source v l = record l { txn_source = if ltb 0 v then v else l.txn_source }

abbrev pub with_generation : ℕ → Lock → Lock
with_generation v l = record l { generation = if ltb 0 v then v else l.generation }

abbrev pub with_secondaries : Bool → List (List ℕ) → Lock → Lock
with_secondaries b keys l = record l {
  use_async_commit = b || l.use_async_commit;
  secondaries = if b then keys else l.secondaries;
}

abbrev pub with_rollback_ts : List ℕ → Lock → Lock
with_rollback_ts tss l = record l {
  rollback_ts = elim tss [ [] ↦ l.rollback_ts | ts ∷ rest ↦ ts ∷ rest ];
}

abbrev pub with_last_change : LastChange → Lock → Lock
with_last_change c l = record l { last_change = if is_zero c.ts then l.last_change else c }

abbrev pub with_pessim_conflict : Bool → Lock → Lock
with_pessim_conflict b l = record l {
  pessimistic_lock_with_conflict = b || l.pessimistic_lock_with_conflict;
}

module _ (xs : List ℕ) (l : Lock) where
  abbrev Reads : List ℕ → Lock → Type 0
  Reads bytes l' = read_fields read_field (bytes ++ xs) l ≡ read_fields read_field xs l'

  step :
      (tag : ℕ) (bytes : List ℕ) (l' : Lock)
      → read_field tag (bytes ++ xs) l ≡ ok (l', xs)
      → Reads (tag ∷ bytes) l'
  step tag bytes l' e = read_fields-step read_field read_field-IsReader tag (bytes ++ xs) l l' xs e

  number_lem :
      (tag v old : ℕ) (set : ℕ → Lock)
      → IsU64 v
      → (read_field tag (put_uint64 v ++ xs) l ≡ ok (set v, xs))
      → set old ≡ l
      → Reads (marshal_number tag v) (set (if ltb 0 v then v else old))
  unfolding marshal_number
  number_lem tag v old set h e same = elim (Bool-cases (ltb 0 v)) [
    | inl z ↦ rw z (step tag (put_uint64 v) (set v) e)
    | inr z ↦ rw (z, same)
  ]

  pub short_value_lem :
      (v : Option (List ℕ))
      → length (Option.get_or v []) ≤ 255
      → Reads (marshal_short_value v) (with_short_value v l)
  unfolding marshal_short_value
  short_value_lem none h = refl
  short_value_lem (some []) h = refl
  short_value_lem (some (b ∷ bs)) h = step tag_short_value ((length (b ∷ bs) % 256) ∷ b ∷ bs) _ (
      unfold read_field read_short_value in
      rw (mod-eq_of_lt {n = length (b ∷ bs)} {m = 256} (omega arith), split_at-append (b ∷ bs) xs))

  pub for_update_ts_lem :
      (v : ℕ) → IsU64 v → Reads (marshal_number tag_for_update_ts v) (with_for_update_ts v l)
  for_update_ts_lem v h =
      number_lem _ v l.for_update_ts (λ n. record l { for_update_ts = n }) h
        (unfold read_field in rw (read_uint64_be-put v xs h)) refl

  pub txn_size_lem : (v : ℕ) → IsU64 v → Reads (marshal_number tag_txn_size v) (with_txn_size v l)
  txn_size_lem v h =
      number_lem _ v l.txn_size (λ n. record l { txn_size = n }) h
        (unfold read_field in rw (read_uint64_be-put v xs h)) refl

  pub min_commit_ts_lem :
      (v : ℕ) → IsU64 v → Reads (marshal_number tag_min_commit_ts v) (with_min_commit_ts v l)
  min_commit_ts_lem v h =
      number_lem _ v l.min_commit_ts (λ n. record l { min_commit_ts = n }) h
        (unfold read_field in rw (read_uint64_be-put v xs h)) refl

  pub generation_lem :
      (v : ℕ) → IsU64 v → Reads (marshal_number tag_generation v) (with_generation v l)
  generation_lem v h =
      number_lem _ v l.generation (λ n. record l { generation = n }) h
        (unfold read_field in rw (read_uint64_be-put v xs h)) refl

  pub secondaries_lem :
      (b : Bool) (keys : List (List ℕ))
      → IsU64 (length keys)
      → All (λ k. IsU64 (length k)) keys
      → Reads (marshal_secondaries b keys) (with_secondaries b keys l)
  unfolding marshal_secondaries
  secondaries_lem false keys h p = refl
  secondaries_lem true keys h p = step _ _ _ (
      unfold read_field read_counted in
      simp (
        append_assoc,
        read_varint-put (length keys) (append_each (append_var_bytes []) keys ++ xs) h,
        read_each-append_each read_var_bytes (append_var_bytes []) (λ k. IsU64 (length k))
            read_var_bytes-append keys xs p,
      ))

  pub rollback_ts_lem :
      (tss : List ℕ)
      → IsU64 (length tss)
      → All IsU64 tss
      → Reads (marshal_rollback_ts tss) (with_rollback_ts tss l)
  unfolding marshal_rollback_ts
  rollback_ts_lem [] h p = refl
  rollback_ts_lem (ts ∷ rest) h p = step _ _ _ (
      unfold read_field read_counted in
      simp (
        append_assoc,
        read_varint-put (length (ts ∷ rest)) (append_each put_uint64 (ts ∷ rest) ++ xs) h,
        read_each-append_each read_uint64_be put_uint64 IsU64 read_uint64_be-put (ts ∷ rest) xs p,
      ))

  pub last_change_lem :
      (c : LastChange)
      → IsU64 c.ts
      → IsU64 c.estimated_versions
      → Reads (marshal_last_change c) (with_last_change c l)
  unfolding marshal_last_change
  last_change_lem c h k = elim (Bool-cases (is_zero c.ts)) [
    | inl z ↦ simp z
    | inr z ↦ simp z (
        step _ _ _ (
          unfold read_field read_last_change in
          simp (
            append_assoc,
            read_uint64_be-put c.ts (put_uvarint c.estimated_versions ++ xs) h,
            read_varint-put c.estimated_versions xs k,
          )))
  ]

  pub txn_source_lem :
      (v : ℕ) → IsU64 v → Reads (marshal_txn_source tag_txn_source v) (with_txn_source v l)
  unfolding marshal_txn_source
  txn_source_lem v h = elim (Bool-cases (ltb 0 v)) [
    | inl z ↦ rw z (step _ _ _ (unfold read_field in rw (read_varint-put v xs h)))
    | inr z ↦ rw z
  ]

  pub pessim_conflict_lem :
      (b : Bool) → Reads (marshal_pessim_conflict b) (with_pessim_conflict b l)
  unfolding marshal_pessim_conflict
  pessim_conflict_lem false = refl
  pessim_conflict_lem true = step tag_pessim_conflict [] _ (unfold read_field in refl)
