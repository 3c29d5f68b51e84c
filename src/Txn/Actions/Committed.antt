-- ===== src/Txn/Actions/Committed.antt =====
-- The store after a prewrite and the commit of its lock.
use mathlib.Core.Option
use gookv.Prelude.{
  ℕ, ◌≡◌, ◌<◌, ◌≤◌, refl, ◌∙◌, ap, Option, none, some, List, [], ◌∷◌, All, length, arith, ok,
}
use gookv.Prelude.Order.{equal_bytes_self}
use gookv.Codec.Number.{IsU64}
use gookv.TxnTypes.Lock.{Lock}
use gookv.TxnTypes.Lock.RoundTrip.{IsValid, stored}
use gookv.TxnTypes.Write.{short_value_max_len, write_type_put}
use gookv.TxnTypes.Write.RoundTrip.{stored_value}
use gookv.Mvcc.Snapshot.{Snapshot}
use gookv.Mvcc.Txn.{new_mvcc_txn, put_write, unlock_key}
use gookv.Mvcc.Txn.Apply.{apply, apply_all}
use gookv.Mvcc.Versions.{Version}
use gookv.Mvcc.Versions.Insert.{visible-insert_newest}
use gookv.Mvcc.Versions.Visible.{visible_versions, latest_put}
use gookv.Mvcc.Reader.{load_lock, get_value, get_write}
use gookv.Mvcc.Holds.{Holds, get_write_lem}
use gookv.Txn.Outcome.{done}
use gookv.Txn.Actions.{
  PrewriteProps, Mutation, op_put, mutation_op_to_lock_type, lock_type_to_write_type, inline_value,
  prewrite_lock, commit,
}
use gookv.Txn.Actions.Lifecycle.{
  IsCommittable, commit_version, commit_txn, commit-done, Holds-commit_txn, load_lock-commit_txn,
}
use gookv.Txn.Actions.Prewritten.{prewritten, Holds-locked, load_lock-locked, get_value-prewritten}

get_value-commit_txn :
    (s : Snapshot) (key : List ℕ) (commit_ts : ℕ) (lock : Lock) (j : List ℕ) (ts : ℕ)
    → get_value (apply_all s (commit_txn key lock.start_ts commit_ts lock).modifies) j ts
      ≡ get_value s j ts
unfolding apply_all apply put_write unlock_key new_mvcc_txn commit_version get_value
get_value-commit_txn s key commit_ts lock j ts = refl

inline-short :
    (v : Option (List ℕ)) → length (Option.get_or (stored_value (inline_value v)) []) ≤ 255
unfolding inline_value
inline-short none = omega arith
inline-short (some []) = omega arith
inline-short (some (b ∷ v)) = ground arith

stored-twice : (v : Option (List ℕ)) → stored_value (stored_value v) ≡ stored_value v
stored-twice none = refl
stored-twice (some []) = refl
stored-twice (some (b ∷ v)) = refl

stored_lock-IsCommittable :
    (props : PrewriteProps) (m : Mutation) (commit_ts : ℕ)
    → props.start_ts ≤ commit_ts
    → IsU64 commit_ts
    → IsCommittable (stored (prewrite_lock props m)) commit_ts
unfolding prewrite_lock mutation_op_to_lock_type
stored_lock-IsCommittable props m commit_ts le f = record {
  not_pessimistic = ground arith;
  min_commit_ts_le = omega arith;
  starts_before = le;
  commit_ts_fits = f;
  short_value_fits = inline-short m.value;
  short_value_stored = stored-twice (inline_value m.value);
}

put-type :
    (props : PrewriteProps) (m : Mutation) (commit_ts : ℕ)
    → m.op ≡ op_put
    → (commit_version m.key commit_ts (stored (prewrite_lock props m))).write.write_type
      ≡ write_type_put
unfolding commit_version prewrite_lock mutation_op_to_lock_type lock_type_to_write_type
put-type props m commit_ts e = rw e refl

newest-put :
    (v : Version) (vs : List Version)
    → v.write.write_type ≡ write_type_put
    → latest_put (v ∷ vs) ≡ some (v.write, v.commit_ts)
unfolding latest_put
newest-put v vs e = rw e refl

found-prewritten :
    (s : Snapshot) (props : PrewriteProps) (m : Mutation)
    → IsValid (prewrite_lock props m)
    → load_lock (apply_all s (prewritten props m).modifies) m.key
      ≡ ok (some (stored (prewrite_lock props m)))
found-prewritten s props m v =
    let held = load_lock-locked s (prewrite_lock props m) m props.start_ts m.key v in
    rw (equal_bytes_self m.key) at held

pub commit-prewritten :
    (s : Snapshot) (props : PrewriteProps) (m : Mutation) (commit_ts : ℕ)
    → IsValid (prewrite_lock props m)
    → props.start_ts ≤ commit_ts
    → IsU64 commit_ts
    → commit
        (new_mvcc_txn props.start_ts)
        (apply_all s (prewritten props m).modifies)
        m.key
        props.start_ts
        commit_ts
      ≡ done (commit_txn m.key props.start_ts commit_ts (stored (prewrite_lock props m)))
unfolding prewrite_lock
commit-prewritten s props m commit_ts v le f =
    commit-done (apply_all s (prewritten props m).modifies) m.key commit_ts
      (stored (prewrite_lock props m)) (found-prewritten s props m v)
      (stored_lock-IsCommittable props m commit_ts le f)

-- The store after both phases.
abbrev pub committed : Snapshot → PrewriteProps → Mutation → ℕ → Snapshot
committed s props m commit_ts =
    apply_all (apply_all s (prewritten props m).modifies)
      (commit_txn m.key props.start_ts commit_ts (stored (prewrite_lock props m))).modifies

pub get_write-committed :
    (s : Snapshot) (vs : List Version) (props : PrewriteProps) (m : Mutation) (commit_ts : ℕ)
    → Holds s vs
    → m.op ≡ op_put
    → props.start_ts ≤ commit_ts
    → IsU64 commit_ts
    → (ts : ℕ) → IsU64 ts
    → commit_ts ≤ ts
    → All (λ v. v.commit_ts < commit_ts) (visible_versions vs m.key ts)
    → get_write (committed s props m commit_ts) m.key ts
      ≡ ok (
          some ((commit_version m.key commit_ts (stored (prewrite_lock props m))).write, commit_ts))
unfolding prewrite_lock commit_version
get_write-committed s vs props m commit_ts h o le f ts ft from newest =
    let v = commit_version m.key commit_ts (stored (prewrite_lock props m)) in
    let h' =
      Holds-commit_txn (apply_all s (prewritten props m).modifies) vs m.key commit_ts
        (stored (prewrite_lock props m))
        (Holds-locked s vs (prewrite_lock props m) m props.start_ts h)
        (stored_lock-IsCommittable props m commit_ts le f) in
    get_write_lem h' m.key ts ft
    ∙ ap (λ l. ok (latest_put l)) (visible-insert_newest vs v ts from newest)
    ∙ ap ok (newest-put v (visible_versions vs m.key ts) (put-type props m commit_ts o))

pub unlocked-committed :
    (s : Snapshot) (props : PrewriteProps) (m : Mutation) (commit_ts : ℕ)
    → load_lock (committed s props m commit_ts) m.key ≡ ok none
unfolding prewrite_lock
unlocked-committed s props m commit_ts =
    let gone =
      load_lock-commit_txn (apply_all s (prewritten props m).modifies) m.key commit_ts
        (stored (prewrite_lock props m)) m.key in
    rw (equal_bytes_self m.key) at gone

pub get_value-committed :
    (s : Snapshot) (props : PrewriteProps) (m : Mutation) (commit_ts : ℕ) (v : List ℕ)
    → m.op ≡ op_put
    → m.value ≡ some v
    → short_value_max_len < length v
    → get_value (committed s props m commit_ts) m.key props.start_ts ≡ some v
unfolding prewrite_lock
get_value-committed s props m commit_ts v o e large =
    get_value-commit_txn (apply_all s (prewritten props m).modifies) m.key commit_ts
      (stored (prewrite_lock props m)) m.key props.start_ts
    ∙ get_value-prewritten s props m v o e large
