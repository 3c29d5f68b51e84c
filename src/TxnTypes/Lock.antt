-- ===== src/TxnTypes/Lock.antt =====
-- pkg/txntypes/lock.go: the lock of a running transaction on a key, and its binary form. The
-- short value, the last change and the source are written as in a write. Allocation is not
-- modelled: where a count in the bytes is larger than memory, Go stops in `make`, and the model
-- goes on to report that the bytes end.
pub mod Fields
pub mod Optional
pub mod RoundTrip
use gookv.Prelude.{
  ℕ, zero, suc, ◌+◌, ◌*◌, ◌%◌, ◌^◌, Bool, true, false, Option, none, some, List, [], ◌∷◌, ◌++◌,
  length, ltb, leb, ◌==◌, if◌then◌else◌, Result, ok, err, unexpected_eof, unknown_lock_tag, ◌>>=◌,
}
use gookv.Codec.Number.{put_uint64, u64_mod}
use gookv.Codec.Varint.{put_uvarint}
use gookv.TxnTypes.Timestamp.{is_zero, physical}
use gookv.TxnTypes.Wire.{
  append_var_bytes, read_varint, read_var_bytes, read_uint64_be, read_short_value,
}
use gookv.TxnTypes.Wire.Fields.{Handler, read_fields}
use gookv.TxnTypes.Write.{
  LastChange, no_change, marshal_short_value, marshal_last_change, marshal_txn_source,
  read_last_change,
}

abbrev pub lock_type_put : ℕ
lock_type_put = b'P'

abbrev pub lock_type_delete : ℕ
lock_type_delete = b'D'

abbrev pub lock_type_lock : ℕ
lock_type_lock = b'L'

abbrev pub lock_type_pessimistic : ℕ
lock_type_pessimistic = b'S'

pub record Lock : Type 0 where
  pub lock_type : ℕ
  pub primary : List ℕ
  pub start_ts : ℕ
  pub ttl : ℕ
  pub short_value : Option (List ℕ)
  pub for_update_ts : ℕ
  pub txn_size : ℕ
  pub min_commit_ts : ℕ
  pub use_async_commit : Bool
  pub secondaries : List (List ℕ)
  pub rollback_ts : List ℕ
  pub last_change : LastChange
  pub txn_source : ℕ
  pub pessimistic_lock_with_conflict : Bool
  pub generation : ℕ

-- `Lock{LockType: t, Primary: p, StartTS: ts, TTL: ttl}`, every other field at its zero value.
abbrev pub new_lock : ℕ → List ℕ → ℕ → ℕ → Lock
new_lock t p ts ttl = record {
  lock_type = t;
  primary = p;
  start_ts = ts;
  ttl = ttl;
  short_value = none;
  for_update_ts = 0;
  txn_size = 0;
  min_commit_ts = 0;
  use_async_commit = false;
  secondaries = [];
  rollback_ts = [];
  last_change = no_change;
  txn_source = 0;
  pessimistic_lock_with_conflict = false;
  generation = 0;
}

abbrev pub tag_short_value : ℕ
tag_short_value = b'v'

abbrev pub tag_for_update_ts : ℕ
tag_for_update_ts = b'f'

abbrev pub tag_txn_size : ℕ
tag_txn_size = b't'

abbrev pub tag_min_commit_ts : ℕ
tag_min_commit_ts = b'c'

abbrev pub tag_async_commit_keys : ℕ
tag_async_commit_keys = b'a'

abbrev pub tag_rollback_ts : ℕ
tag_rollback_ts = b'r'

abbrev pub tag_last_change : ℕ
tag_last_change = b'l'

abbrev pub tag_txn_source : ℕ
tag_txn_source = b's'

abbrev pub tag_pessim_conflict : ℕ
tag_pessim_conflict = b'F'

abbrev pub tag_generation : ℕ
tag_generation = b'g'

-- `if v > 0 { tag, uint64 }`, as four of the fields are written.
unfoldable pub marshal_number : ℕ → ℕ → List ℕ
marshal_number tag v = if ltb 0 v then tag ∷ put_uint64 v else []

unfoldable pub append_each {ℓ} : {A : Type ℓ} → (A → List ℕ) → List A → List ℕ
append_each f [] = []
append_each f (a ∷ rest) = f a ++ append_each f rest

unfoldable pub marshal_secondaries : Bool → List (List ℕ) → List ℕ
marshal_secondaries use_async_commit secondaries =
    if use_async_commit
    then tag_async_commit_keys
      ∷ (put_uvarint (length secondaries) ++ append_each (append_var_bytes []) secondaries)
    else []

unfoldable pub marshal_rollback_ts : List ℕ → List ℕ
marshal_rollback_ts [] = []
marshal_rollback_ts (ts ∷ rest) =
    tag_rollback_ts ∷ (put_uvarint (length (ts ∷ rest)) ++ append_each put_uint64 (ts ∷ rest))

unfoldable pub marshal_pessim_conflict : Bool → List ℕ
marshal_pessim_conflict b = if b then tag_pessim_conflict ∷ [] else []

unfoldable pub marshal_optional : Lock → List ℕ
marshal_optional l =
    marshal_short_value l.short_value
    ++ (marshal_number tag_for_update_ts l.for_update_ts
        ++ (marshal_number tag_txn_size l.txn_size
            ++ (marshal_number tag_min_commit_ts l.min_commit_ts
                ++ (marshal_secondaries l.use_async_commit l.secondaries
                    ++ (marshal_rollback_ts l.rollback_ts
                        ++ (marshal_last_change l.last_change
                            ++ (marshal_txn_source tag_txn_source l.txn_source
                                ++ (marshal_pessim_conflict l.pessimistic_lock_with_conflict
                                    ++ marshal_number tag_generation l.generation))))))))

unfoldable pub marshal : Lock → List ℕ
marshal l =
    l.lock_type
    ∷ (append_var_bytes [] l.primary
        ++ (put_uvarint l.start_ts ++ (put_uvarint l.ttl ++ marshal_optional l)))

-- `for i := 0; i < count; i++`
unfoldable pub read_each {ℓ} :
    {A : Type ℓ} → (List ℕ → Result (A × List ℕ)) → ℕ → List ℕ → Result (List A × List ℕ)
read_each r zero bytes = ok ([], bytes)
read_each r (suc count) bytes = do
  (a, rest) ← r bytes
  (more, rest') ← read_each r count rest
  ok (a ∷ more, rest')

unfoldable pub read_counted {ℓ} :
    {A : Type ℓ} → (List ℕ → Result (A × List ℕ)) → List ℕ → Result (List A × List ℕ)
read_counted r bytes = do (count, rest) ← read_varint bytes; read_each r count rest

-- The switch of `UnmarshalLock`.
unfoldable pub read_field : Handler Lock
read_field tag bytes l =
    if tag == tag_short_value
    then (do (v, rest) ← read_short_value bytes; ok (record l { short_value = some v }, rest))
    else if tag == tag_for_update_ts
    then (do (v, rest) ← read_uint64_be bytes; ok (record l { for_update_ts = v }, rest))
    else if tag == tag_txn_size
    then (do (v, rest) ← read_uint64_be bytes; ok (record l { txn_size = v }, rest))
    else if tag == tag_min_commit_ts
    then (do (v, rest) ← read_uint64_be bytes; ok (record l { min_commit_ts = v }, rest))
    else if tag == tag_async_commit_keys
    then (do
      (keys, rest) ← read_counted read_var_bytes bytes
      ok (record l { use_async_commit = true; secondaries = keys }, rest))
    else if tag == tag_rollback_ts
    then (do
      (tss, rest) ← read_counted read_uint64_be bytes
      ok (record l { rollback_ts = tss }, rest))
    else if tag == tag_last_change
    then (do (c, rest) ← read_last_change bytes; ok (record l { last_change = c }, rest))
    else if tag == tag_txn_source
    then (do (n, rest) ← read_varint bytes; ok (record l { txn_source = n }, rest))
    else if tag == tag_pessim_conflict
    then ok (record l { pessimistic_lock_with_conflict = true }, bytes)
    else if tag == tag_generation
    then (do (v, rest) ← read_uint64_be bytes; ok (record l { generation = v }, rest))
    else err unknown_lock_tag

unfoldable pub unmarshal_lock : List ℕ → Result Lock
unmarshal_lock [] = err unexpected_eof
unmarshal_lock (t ∷ bytes) = do
  (primary, rest) ← read_var_bytes bytes
  (ts, rest') ← read_varint rest
  (ttl, rest'') ← read_varint rest'
  read_fields read_field rest'' (new_lock t primary ts ttl)

-- `lockPhysicalMS + l.TTL` wraps as a uint64.
unfoldable pub is_expired : Lock → ℕ → Bool
is_expired l current_ts = leb ((physical l.start_ts + l.ttl) % u64_mod) (physical current_ts)
