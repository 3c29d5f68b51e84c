-- ===== src/Examples/Data.antt =====
-- A store with three versions, and a transaction's lock on it.
use mathlib.Core.Option
use gookv.Prelude.{
  ℕ, ◌≡◌, ◌≤◌, refl, Bool, true, false, Option, none, some, List, [], ◌∷◌, All, map, length, arith,
  ok,
}
use gookv.Prelude.Order.{compare_bytes, equal_bytes_self}
use gookv.Codec.Number.{IsU64}
use gookv.TxnTypes.Write.{new_write, write_type_put}
use gookv.TxnTypes.Lock.{Lock, new_lock, lock_type_put, marshal}
use gookv.TxnTypes.Lock.RoundTrip.{IsValid}
use gookv.Mvcc.Key.{encode_lock_key}
use gookv.Mvcc.Snapshot.{Snapshot, get}
use gookv.Mvcc.Txn.{put, cf_lock}
use gookv.Mvcc.Txn.Apply.{apply}
use gookv.Mvcc.Versions.{Version, entry, IsSorted}
use gookv.Mvcc.Reader.{load_lock}
use gookv.Mvcc.Reader.Locks.{load_lock-put}
use gookv.Mvcc.Reader.Records.{own_record}
use gookv.Mvcc.Holds.{Holds, IsWritable}
use gookv.Txn.Actions.{
  PrewriteProps, Mutation, op_put, prewrite_lock, inline_value, mutation_op_to_lock_type,
}
use gookv.Txn.Actions.Lifecycle.{locks-Holds, IsCommittable}

abbrev pub key_k : List ℕ
key_k = 107 ∷ []

abbrev pub key_m : List ℕ
key_m = 109 ∷ []

abbrev pub put_version : List ℕ → ℕ → ℕ → ℕ → Version
put_version key commit_ts start_ts byte = record {
  key = key;
  commit_ts = commit_ts;
  write = record (new_write write_type_put start_ts) { short_value = some (byte ∷ []) };
}

pub put_version-IsWritable :
    (key : List ℕ) (commit_ts start_ts byte : ℕ)
    → start_ts ≤ commit_ts
    → IsU64 commit_ts
    → IsWritable (put_version key commit_ts start_ts byte)
put_version-IsWritable key commit_ts start_ts byte le f = record {
  storable = record {
    commit_ts_fits = f;
    write_fits = record {
      start_ts_fits = omega (arith, le, f);
      short_value_fits = omega arith;
      gc_fence_fits = omega arith;
      last_change_fits = omega arith;
      versions_fit = omega arith;
      txn_source_fits = omega arith;
    };
    write_stored = refl;
  };
  names_no_change = refl;
  starts_before = le;
}

abbrev pub versions : List Version
versions = put_version key_k 30 25 65 ∷ put_version key_k 12 10 66 ∷ put_version key_m 12 10 67 ∷ []

abbrev pub store : Snapshot
store = record { cf_default = []; cf_lock = []; cf_write = map entry versions }

versions-IsSorted : IsSorted versions
unfolding compare_bytes
versions-IsSorted = ((refl, (refl, tt)), ((refl, tt), (tt, tt)))

pub store-Holds : Holds store versions
store-Holds =
    let a = put_version-IsWritable key_k 30 25 65 (omega arith) (omega arith) in
    let b = put_version-IsWritable key_k 12 10 66 (omega arith) (omega arith) in
    let c = put_version-IsWritable key_m 12 10 67 (omega arith) (omega arith) in
    record {
      entries = refl;
      storable = (a.storable, (b.storable, (c.storable, tt)));
      names_no_change = (a.names_no_change, (b.names_no_change, (c.names_no_change, tt)));
      starts_before = (a.starts_before, (b.starts_before, (c.starts_before, tt)));
      sorted = versions-IsSorted;
    }

pub store-unlocked : (key : List ℕ) → load_lock store key ≡ ok none
unfolding load_lock get
store-unlocked key = refl

-- The lock of a transaction that started at 40 and puts one byte.
abbrev pub lock : Lock
lock = record (new_lock lock_type_put key_k 40 3000) { short_value = some (68 ∷ []) }

pub written-IsValid :
    (t start_ts ttl for_update_ts min_commit_ts : ℕ) (v : Option (List ℕ)) (a : Bool)
    (ks : List (List ℕ))
    → IsU64 start_ts
    → IsU64 ttl
    → IsU64 for_update_ts
    → IsU64 min_commit_ts
    → length (Option.get_or v []) ≤ 255
    → IsU64 (length ks)
    → All (λ k. IsU64 (length k)) ks
    → IsValid (record (new_lock t key_k start_ts ttl) {
      short_value = v;
      for_update_ts = for_update_ts;
      min_commit_ts = min_commit_ts;
      use_async_commit = a;
      secondaries = ks;
    })
written-IsValid t start_ts ttl for_update_ts min_commit_ts v a ks p q r u w x y = record {
  primary_fits = omega arith;
  start_ts_fits = p;
  ttl_fits = q;
  short_value_fits = w;
  for_update_ts_fits = r;
  txn_size_fits = omega arith;
  min_commit_ts_fits = u;
  secondaries_fit = x;
  each_secondary_fits = y;
  rollback_ts_fit = omega arith;
  each_rollback_ts_fits = tt;
  last_change_fits = omega arith;
  versions_fit = omega arith;
  txn_source_fits = omega arith;
  generation_fits = omega arith;
}

pub lock-IsValid : IsValid lock
lock-IsValid =
    written-IsValid lock_type_put 40 3000 0 0 (some (68 ∷ [])) false [] (omega arith) (omega arith)
      (omega arith) (omega arith) (omega arith) (omega arith) tt

abbrev pub locked_store : Snapshot
locked_store = apply store (put cf_lock (encode_lock_key key_k) (marshal lock))

pub locked_store-Holds : Holds locked_store versions
unfolding apply
locked_store-Holds = locks-Holds store locked_store versions refl store-Holds

pub locked_store-lock : load_lock locked_store key_k ≡ ok (some lock)
locked_store-lock =
    let held = load_lock-put store key_k key_k lock lock-IsValid in
    rw (equal_bytes_self key_k) at held

pub lock-IsCommittable : IsCommittable lock 50
lock-IsCommittable = record {
  not_pessimistic = omega arith;
  min_commit_ts_le = omega arith;
  starts_before = omega arith;
  commit_ts_fits = omega arith;
  short_value_fits = omega arith;
  short_value_stored = refl;
}

-- No version is of a transaction that started at 40.
pub no_record : own_record versions key_k 40 ≡ none
unfolding own_record compare_bytes
no_record = refl

abbrev pub props : PrewriteProps
props = record { start_ts = 40; primary = key_k; lock_ttl = 3000; is_primary = true }

abbrev pub mutation : Mutation
mutation = record { op = op_put; key = key_k; value = some (68 ∷ []) }

pub prewrite_lock-eq : prewrite_lock props mutation ≡ lock
unfolding prewrite_lock mutation_op_to_lock_type inline_value
prewrite_lock-eq = refl

pub prewrite_lock-IsValid : IsValid (prewrite_lock props mutation)
prewrite_lock-IsValid = rw prewrite_lock-eq lock-IsValid
