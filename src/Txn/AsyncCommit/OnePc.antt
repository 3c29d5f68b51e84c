-- ===== src/Txn/AsyncCommit/OnePc.antt =====
-- What the commit in one phase leaves in the store.
use mathlib.Core.Option
use gookv.Prelude.{
  Result, ok, err, Result-cases, not, ◌==◌, take, ap, ap₂, ◌∙◌, Bool, ℕ, ◌≡◌, ◌≢◌, ◌≤◌, refl,
  Option, none, some, List, [], ◌∷◌, All, map, length, if◌then◌else◌, arith, Bool-cases,
  Option-cases, inl, inr, true, false, ltb, ◌⊎◌,
}
use gookv.Codec.Number.{IsU64}
use gookv.TxnTypes.Write.{Write, new_write, marshal}
use gookv.TxnTypes.Write.RoundTrip.{stored_value}
use gookv.Mvcc.Key.{encode_key}
use gookv.Mvcc.Snapshot.{Snapshot}
use gookv.Mvcc.Txn.{MvccTxn, new_mvcc_txn, put_value, put_write, put, cf_write, cf_default}
use gookv.Mvcc.Txn.Apply.{apply, apply_all, apply_all-snoc}
use gookv.Mvcc.Versions.{Version}
use gookv.Mvcc.Versions.Insert.{insert_version}
use gookv.Mvcc.Versions.Written.{Written, insert_version-Written}
use gookv.Mvcc.Holds.{Holds, IsWritable, put_write-Holds}
use gookv.Txn.Outcome.{TxnError, unreadable, write_conflict, key_is_locked}
use gookv.Txn.Actions.Conflicts.{newer_versions, changes_data, verdict}
use gookv.Txn.AsyncCommit.Laws.{check_newest-verdict}
use gookv.Mvcc.Reader.{load_lock}
use gookv.TxnTypes.Lock.{Lock}
use gookv.Txn.Actions.{
  Mutation, MutationOp, op_put, op_delete, op_lock, inline_value, put_large_value,
}
use gookv.Txn.Actions.Lifecycle.{locks-Holds}
use gookv.Txn.AsyncCommit.{
  OnePcProps, one_pc_write, commit_1pc, prewrite_and_commit_1pc, any_error, check_1pc, error_of,
  mutation_op_to_write_type,
}

-- The version that the commit publishes for a mutation.
abbrev pub one_pc_version : OnePcProps → Mutation → Version
one_pc_version props m = record {
  key = m.key;
  commit_ts = props.commit_ts;
  write = one_pc_write props m;
}

-- The byte of a mutation's record: 'P', 'D' or 'L'.
abbrev type_byte : MutationOp → ℕ
type_byte op_put = 80
type_byte op_delete = 68
type_byte op_lock = 76

-- The value that a record carries itself: one of at most 255 bytes.
abbrev carried : Option (List ℕ) → Option (List ℕ)
carried none = none
carried (some v) = if ltb 255 (length v) then none else some v

-- What a mutation publishes: a version of its key at the commit timestamp, with its start, its type
-- and its value.
pub record Publishes (props : OnePcProps) (m : Mutation) (v : Version) : Type 0 where
  pub key : v.key ≡ m.key
  pub commit_ts : v.commit_ts ≡ props.commit_ts
  pub write :
      v.write ≡ record (new_write (type_byte m.op) props.start_ts) { short_value = carried m.value }

-- The versions after all mutations have been published, one after the other.
unfoldable pub Published : OnePcProps → List Version → List Mutation → List Version → Type 0
Published props vs [] vs' = vs' ≡ vs
Published props vs (m ∷ ms) vs' =
    (v : Version) × (mid : List Version) × Publishes props m v
    × Written vs v mid
    × Published props mid ms vs'

-- The newest version of the key that is newer than the start changes data.
abbrev pub conflict_at : List Version → OnePcProps → Mutation → Bool
conflict_at vs props m = changes_data (take 1 (newer_versions vs m.key props.start_ts))

-- The error of a mutation, by the lock on its key.
abbrev pub judgement : Result (Option Lock) → ℕ → Bool → Option TxnError
judgement (err e) start_ts conflict = some (unreadable e)
judgement (ok none) start_ts conflict = if conflict then some write_conflict else none
judgement (ok (some lock)) start_ts conflict =
    if not (lock.start_ts == start_ts)
    then some key_is_locked
    else if conflict
    then some write_conflict
    else none

error_of-verdict : (b : Bool) → error_of (verdict b) ≡ (if b then some write_conflict else none)
unfolding error_of
error_of-verdict true = refl
error_of-verdict false = refl

check_1pc-judgement :
    (s : Snapshot) (vs : List Version) (props : OnePcProps) (m : Mutation)
    → Holds s vs
    → error_of (check_1pc s props m)
      ≡ judgement (load_lock s m.key) props.start_ts (conflict_at vs props m)
unfolding check_1pc error_of
check_1pc-judgement s vs props m h =
    let newest =
      ap error_of (check_newest-verdict s vs m.key props.start_ts h)
      ∙ error_of-verdict (conflict_at vs props m) in
    elim (Result-cases (load_lock s m.key)) [
      | inl (o, e) ↦ elim (Option-cases o) [
        | inl f ↦ rw (e, f) newest
        | inr (lock, f) ↦ elim (Bool-cases (lock.start_ts == props.start_ts)) [
          | inl own ↦ rw (e, f, own) newest
          | inr other ↦ rw (e, f, other) refl
        ]
      ]
      | inr (x, e) ↦ rw e refl
    ]

errors-judgement :
    (s : Snapshot) (vs : List Version) (props : OnePcProps) (ms : List Mutation)
    → Holds s vs
    → map (λ m. error_of (check_1pc s props m)) ms
      ≡ map (λ m. judgement (load_lock s m.key) props.start_ts (conflict_at vs props m)) ms
errors-judgement s vs props [] h = refl
errors-judgement s vs props (m ∷ ms) h =
    ap₂ (◌∷◌) (check_1pc-judgement s vs props m h) (errors-judgement s vs props ms h)

-- One of the errors is set.
unfoldable pub HasError : List (Option TxnError) → Type 0
HasError [] = ⊥
HasError (some e ∷ es) = Unit
HasError (none ∷ es) = HasError es

any_error-HasError : (es : List (Option TxnError)) → any_error es ≡ true → HasError es
unfolding any_error HasError
any_error-HasError [] p = ground arith
any_error-HasError (some e ∷ es) p = tt
any_error-HasError (none ∷ es) p = any_error-HasError es p

any_error-none : (es : List (Option TxnError)) → any_error es ≡ false → All (λ e. e ≡ none) es
unfolding any_error
any_error-none [] p = tt
any_error-none (some e ∷ es) p = ground arith
any_error-none (none ∷ es) p = (refl, any_error-none es p)

carried-inline : (v : Option (List ℕ)) → inline_value v ≡ carried v
unfolding inline_value
carried-inline none = refl
carried-inline (some v) = ground arith

type_byte-op : (op : MutationOp) → mutation_op_to_write_type op ≡ type_byte op
unfolding mutation_op_to_write_type
type_byte-op op_put = refl
type_byte-op op_delete = refl
type_byte-op op_lock = refl

one_pc_version-Publishes :
    (props : OnePcProps) (m : Mutation) → Publishes props m (one_pc_version props m)
unfolding one_pc_write
one_pc_version-Publishes props m = record {
  key = refl;
  commit_ts = refl;
  write = λ i. record (new_write (type_byte-op m.op i) props.start_ts) {
    short_value = carried-inline m.value i;
  };
}

-- A value that is not empty, since an empty one is not stored.
abbrev pub IsKept : Mutation → Type 0
IsKept m = m.value ≢ some []

stored-kept : (v : Option (List ℕ)) → v ≢ some [] → stored_value (inline_value v) ≡ inline_value v
unfolding inline_value
stored-kept none n = refl
stored-kept (some []) n = absurd (n refl)
stored-kept (some (b ∷ bs)) n = ground arith

fits-inline : (v : Option (List ℕ)) → length (Option.get_or (inline_value v) []) ≤ 255
unfolding inline_value
fits-inline none = omega arith
fits-inline (some v) = ground arith

one_pc_version-IsWritable :
    (props : OnePcProps) (m : Mutation)
    → props.start_ts ≤ props.commit_ts
    → IsU64 props.commit_ts
    → IsKept m
    → IsWritable (one_pc_version props m)
unfolding one_pc_write
one_pc_version-IsWritable props m le f k = record {
  storable = record {
    commit_ts_fits = f;
    write_fits = record {
      start_ts_fits = omega (arith, le, f);
      short_value_fits = fits-inline m.value;
      gc_fence_fits = omega arith;
      last_change_fits = omega arith;
      versions_fit = omega arith;
      txn_source_fits = omega arith;
    };
    write_stored = λ i. record (new_write (mutation_op_to_write_type m.op) props.start_ts) {
      short_value = stored-kept m.value k i;
    };
  };
  names_no_change = refl;
  starts_before = le;
}

put_large_value-cf_write :
    (s : Snapshot) (txn : MvccTxn) (m : Mutation) (start_ts : ℕ)
    → (apply_all s (put_large_value txn m start_ts).modifies).cf_write
      ≡ (apply_all s txn.modifies).cf_write
unfolding put_large_value put_value apply
put_large_value-cf_write s txn m start_ts = elim (Option-cases m.value) [
  | inl e ↦ ground (arith, e)
  | inr (v, e) ↦
      ground
        (arith, e, apply_all-snoc s txn.modifies (put cf_default (encode_key m.key start_ts) v))
]

put_write-snoc :
    (s : Snapshot) (txn : MvccTxn) (key : List ℕ) (commit_ts : ℕ) (w : Write)
    → apply_all s (put_write txn key commit_ts w).modifies
      ≡ apply (apply_all s txn.modifies) (put cf_write (encode_key key commit_ts) (marshal w))
unfolding put_write
put_write-snoc s txn key commit_ts w = apply_all-snoc s txn.modifies _

commit_1pc-Published :
    (s : Snapshot) (txn : MvccTxn) (vs : List Version) (props : OnePcProps) (ms : List Mutation)
    → Holds (apply_all s txn.modifies) vs
    → props.start_ts ≤ props.commit_ts
    → IsU64 props.commit_ts
    → All IsKept ms
    → (vs' : List Version) × Holds (apply_all s (commit_1pc txn props ms).modifies) vs'
      × Published props vs ms vs'
unfolding commit_1pc Published
commit_1pc-Published s txn vs props [] h le f k = (vs, h, refl)
commit_1pc-Published s txn vs props (m ∷ ms) h le f k =
    let v = one_pc_version props m in
    let valued = put_large_value txn m props.start_ts in
    let h' =
      locks-Holds (apply_all s txn.modifies) (apply_all s valued.modifies) vs
        (put_large_value-cf_write s txn m props.start_ts) h in
    let next =
      put_write-Holds (apply_all s valued.modifies) vs v h'
        (one_pc_version-IsWritable props m le f k.0) in
    let (vs', holds, published) =
      commit_1pc-Published s (put_write valued m.key props.commit_ts (one_pc_write props m))
        (insert_version vs v) props ms
        (rw (put_write-snoc s valued m.key props.commit_ts (one_pc_write props m)) next) le f k.1 in
    (
      vs',
      holds,
      (
        v,
        insert_version vs v,
        one_pc_version-Publishes props m,
        insert_version-Written vs v h.sorted,
        published,
      ),
    )

-- In a well-formed store, with a start not after the commit timestamp and no empty value, the
-- one-phase commit is atomic. Its result for a mutation is an error exactly where the lock on its key
-- cannot be read or is another transaction's, or where the newest version of the key that is newer
-- than the start changes data. Either one of the results is an error, and nothing at all is written,
-- or none is, and the store is well-formed with the versions of all the mutations published one
-- after the other, each in the place of a version of its key at the commit timestamp if there is one.
pub one_pc_is_atomic :
    (s : Snapshot) (vs : List Version) (props : OnePcProps) (ms : List Mutation)
    → Holds s vs
    → props.start_ts ≤ props.commit_ts
    → IsU64 props.commit_ts
    → All IsKept ms
    → ((prewrite_and_commit_1pc (new_mvcc_txn props.start_ts) s props ms).0
        ≡ map (λ m. judgement (load_lock s m.key) props.start_ts (conflict_at vs props m)) ms)
      × ((HasError (prewrite_and_commit_1pc (new_mvcc_txn props.start_ts) s props ms).0
            × ((prewrite_and_commit_1pc (new_mvcc_txn props.start_ts) s props ms).1.modifies ≡ []))
          ⊎ (All
                (λ e. e ≡ none)
                (prewrite_and_commit_1pc (new_mvcc_txn props.start_ts) s props ms).0
              × ((vs' : List Version) × Holds
                    (apply_all s
                      (prewrite_and_commit_1pc (new_mvcc_txn props.start_ts) s props ms).1.modifies)
                    vs'
                  × Published props vs ms vs')))
unfolding prewrite_and_commit_1pc new_mvcc_txn apply_all
one_pc_is_atomic s vs props ms h le f k =
    let errs = map (λ m. error_of (check_1pc s props m)) ms in
    (
      errors-judgement s vs props ms h,
      elim (Bool-cases (any_error errs)) [
        | inl bad ↦ inl (any_error-HasError errs bad, rw bad refl)
        | inr good ↦ inr (
          any_error-none errs good,
          rw good (commit_1pc-Published s (new_mvcc_txn props.start_ts) vs props ms h le f k),
        )
      ],
    )
