-- ===== src/TxnTypes/Write/Fields.antt =====
-- The readers of the optional fields of a write.
use gookv.Prelude.{
  ℕ, ◌≤◌, ◌≡◌, refl, Bool, true, false, Option, none, some, List, [], ◌∷◌, ◌++◌, length, arith, err,
  append_assoc, ltb, if◌then◌else◌, unknown_write_tag, Bool-cases, inl, inr,
}
use native.Mathlib.Nat.{mod-eq_of_lt}
use mathlib.Core.Option
use gookv.TxnTypes.Timestamp.{is_zero}
use gookv.Codec.Number.{IsU64}
use gookv.Codec.Varint.{put_uvarint}
use gookv.TxnTypes.Wire.{read_varint, read_uint64_be, read_short_value}
use gookv.TxnTypes.Wire.Fields.{IsReader, Shrinks, read_fields, read_fields-step}
use gookv.TxnTypes.Wire.Reading.{
  read_varint-put, read_uint64_be-put, split_at-append, >>=-Shrinks, if-Shrinks, ok-Shrinks,
  read_varint-Shrinks, read_uint64_be-Shrinks, read_short_value-Shrinks,
}
use gookv.TxnTypes.Write.{
  Write, LastChange, read_field, read_last_change, marshal_short_value, marshal_overlapped_rollback,
  marshal_gc_fence, marshal_last_change, marshal_txn_source, tag_txn_source, tag_short_value,
}

pub read_last_change-Shrinks : (bytes : List ℕ) → Shrinks (read_last_change bytes) bytes
unfolding read_last_change
read_last_change-Shrinks bytes =
    >>=-Shrinks (read_uint64_be bytes) bytes _ (read_uint64_be-Shrinks bytes) λ ts rest.
      >>=-Shrinks (read_varint rest) rest _ (read_varint-Shrinks rest) λ n rest'. ok-Shrinks _ rest'

err-Shrinks : (bytes : List ℕ) → Shrinks {A = Write} (err unknown_write_tag) bytes
err-Shrinks bytes = record { shorter = λ b rest e. cc; fails = λ e. cc }

pub read_field-IsReader : IsReader read_field
unfolding read_field
read_field-IsReader = record {
  reads = λ tag bytes w.
      if-Shrinks _ _ _ bytes
        (>>=-Shrinks _ bytes _ (read_short_value-Shrinks bytes) λ v rest. ok-Shrinks _ rest)
        (if-Shrinks _ _ _ bytes (ok-Shrinks _ bytes) (
          if-Shrinks _ _ _ bytes
            (>>=-Shrinks _ bytes _ (read_uint64_be-Shrinks bytes) λ v rest. ok-Shrinks _ rest)
            (if-Shrinks _ _ _ bytes
              (>>=-Shrinks _ bytes _ (read_last_change-Shrinks bytes) λ v rest. ok-Shrinks _ rest)
              (if-Shrinks _ _ _ bytes
                (>>=-Shrinks _ bytes _ (read_varint-Shrinks bytes) λ v rest. ok-Shrinks _ rest)
                (err-Shrinks bytes)))));
}

-- What reading each written field does to a write.
abbrev pub with_short_value : Option (List ℕ) → Write → Write
with_short_value none w = w
with_short_value (some []) w = w
with_short_value (some (b ∷ bs)) w = record w { short_value = some (b ∷ bs) }

abbrev pub with_overlapped_rollback : Bool → Write → Write
with_overlapped_rollback b w = if b then record w { has_overlapped_rollback = true } else w

abbrev pub with_gc_fence : Option ℕ → Write → Write
with_gc_fence none w = w
with_gc_fence (some ts) w = record w { gc_fence = some ts }

abbrev pub with_last_change : LastChange → Write → Write
with_last_change c w = if is_zero c.ts then w else record w { last_change = c }

abbrev pub with_txn_source : ℕ → Write → Write
with_txn_source n w = if ltb 0 n then record w { txn_source = n } else w

module _ (xs : List ℕ) (w : Write) where
  pub short_value_lem :
      (v : Option (List ℕ))
      → (length (Option.get_or v []) ≤ 255)
      → read_fields read_field (marshal_short_value v ++ xs) w
        ≡ read_fields read_field xs (with_short_value v w)
  unfolding marshal_short_value
  short_value_lem none h = refl
  short_value_lem (some []) h = refl
  short_value_lem (some (b ∷ bs)) h =
      read_fields-step read_field read_field-IsReader tag_short_value _ w _ xs (
        unfold read_field read_short_value in
        rw
          (mod-eq_of_lt {n = length (b ∷ bs)} {m = 256} (omega arith), split_at-append (b ∷ bs) xs))

  pub overlapped_rollback_lem :
      (b : Bool)
      → read_fields read_field (marshal_overlapped_rollback b ++ xs) w
        ≡ read_fields read_field xs (with_overlapped_rollback b w)
  unfolding marshal_overlapped_rollback
  overlapped_rollback_lem false = refl
  overlapped_rollback_lem true =
      read_fields-step read_field read_field-IsReader _ _ w _ xs (unfold read_field in refl)

  pub gc_fence_lem :
      (v : Option ℕ)
      → IsU64 (Option.get_or v 0)
      → read_fields read_field (marshal_gc_fence v ++ xs) w
        ≡ read_fields read_field xs (with_gc_fence v w)
  unfolding marshal_gc_fence
  gc_fence_lem none h = refl
  gc_fence_lem (some ts) h =
      read_fields-step read_field read_field-IsReader _ _ w _ xs
        (unfold read_field in rw (read_uint64_be-put ts xs h))

  pub last_change_lem :
      (c : LastChange)
      → IsU64 c.ts
      → IsU64 c.estimated_versions
      → read_fields read_field (marshal_last_change c ++ xs) w
        ≡ read_fields read_field xs (with_last_change c w)
  unfolding marshal_last_change
  last_change_lem c h k = elim (Bool-cases (is_zero c.ts)) [
    | inl z ↦ simp z
    | inr z ↦ simp z (
        read_fields-step read_field read_field-IsReader _ _ w _ xs (
          unfold read_field read_last_change in
          simp (
            append_assoc,
            read_uint64_be-put c.ts (put_uvarint c.estimated_versions ++ xs) h,
            read_varint-put c.estimated_versions xs k,
          )))
  ]

  pub txn_source_lem :
      (n : ℕ)
      → IsU64 n
      → read_fields read_field (marshal_txn_source tag_txn_source n ++ xs) w
        ≡ read_fields read_field xs (with_txn_source n w)
  unfolding marshal_txn_source
  txn_source_lem n h = elim (Bool-cases (ltb 0 n)) [
    | inl z ↦ rw z (
        read_fields-step read_field read_field-IsReader _ _ w _ xs
          (unfold read_field in rw (read_varint-put n xs h)))
    | inr z ↦ rw z
  ]
