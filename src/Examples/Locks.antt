-- ===== src/Examples/Locks.antt =====
-- Async commit, the commit in one phase and pessimistic locks, on the store of Examples/Data.
use gookv.Prelude.{
  map, ◌⊎◌, All, none, ℕ, List, ◌≡◌, ◌≤◌, ◌<◌, refl, true, false, none, some, List, [], ◌∷◌, arith,
  ok, take,
}
use gookv.Prelude.Order.{compare_bytes}
use gookv.TxnTypes.Lock.{lock_type_put, lock_type_pessimistic}
use gookv.TxnTypes.Lock.RoundTrip.{IsValid}
use gookv.Mvcc.Txn.{MvccTxn, new_mvcc_txn}
use gookv.Mvcc.Txn.Apply.{apply_all}
use gookv.Mvcc.Reader.{load_lock}
use gookv.Mvcc.PointGetter.{PointGetter, si, get}
use gookv.Mvcc.Holds.{Holds}
use gookv.Txn.Outcome.{done}
use gookv.Txn.Actions.{Mutation, prewrite_lock, mutation_op_to_lock_type, inline_value}
use gookv.Txn.Actions.Conflicts.{newer_versions, changes_data, verdict}
use gookv.Txn.AsyncCommit.{
  AsyncCommitPrewriteProps, min_commit_ts, async_commit_lock, prewrite_async_commit,
  check_async_commit_status, check_newest, OnePcProps, prewrite_and_commit_1pc,
}
use gookv.Txn.AsyncCommit.Laws.{min_commit_ts-bounds, check_newest-verdict, async_commit_is_pending}
use gookv.Mvcc.Versions.{Version}
use gookv.Txn.AsyncCommit.OnePc.{
  judgement, conflict_at, IsKept, HasError, Published, one_pc_is_atomic,
}
use gookv.Txn.Pessimistic.{
  PessimisticLockProps, pessimistic_lock, acquire_pessimistic_lock, pessimistic_rollback,
}
use gookv.Txn.Pessimistic.Laws.{reading, acquire_is_invisible}
use gookv.Txn.Pessimistic.Released.{IsToRelease, pessimistic_rollback_releases}
use gookv.Examples.Data.{
  key_k, key_m, versions, store, store-Holds, store-unlocked, props, mutation, written-IsValid,
  locked_store,
}

abbrev async_props : AsyncCommitPrewriteProps
async_props = record {
  prewrite = props;
  use_async_commit = true;
  secondaries = key_m ∷ [];
  max_commit_ts = 45;
}

async_lock-IsValid : IsValid (async_commit_lock async_props mutation)
unfolding async_commit_lock prewrite_lock mutation_op_to_lock_type inline_value min_commit_ts
async_lock-IsValid =
    written-IsValid lock_type_put 40 3000 0 46 (some (68 ∷ [])) true (key_m ∷ []) (omega arith)
      (omega arith) (omega arith) (omega arith) (omega arith) (omega arith) (omega arith, tt)

no_newer : changes_data (take 64 (newer_versions versions key_k 40)) ≡ false
unfolding newer_versions changes_data compare_bytes
no_newer = refl

no_newest : changes_data (take 1 (newer_versions versions key_k 40)) ≡ false
unfolding newer_versions changes_data compare_bytes
no_newest = refl

min_commit_ts-bounds_example :
    (40 < min_commit_ts 40 45) × (45 < min_commit_ts 40 45) × (min_commit_ts 40 45 ≤ 50)
min_commit_ts-bounds_example =
    min_commit_ts-bounds 40 45 50 (omega arith) (omega arith) (omega arith) (omega arith)

check_newest-verdict_example :
    check_newest store key_k 20 ≡ verdict (changes_data (take 1 (newer_versions versions key_k 20)))
check_newest-verdict_example = check_newest-verdict store versions key_k 20 store-Holds

async_commit_is_pending_example :
    (txn : MvccTxn) × (prewrite_async_commit (new_mvcc_txn 40) store async_props mutation
      ≡ done txn)
    × Holds (apply_all store txn.modifies) versions
    × (check_async_commit_status (apply_all store txn.modifies) key_k 40
        ≡ done (min_commit_ts 40 45))
async_commit_is_pending_example =
    async_commit_is_pending store versions async_props mutation store-Holds (store-unlocked key_k)
      no_newer refl async_lock-IsValid

abbrev one_pc_props : OnePcProps
one_pc_props = record { start_ts = 40; commit_ts = 50; primary = key_k; lock_ttl = 3000 }

kept : IsKept mutation
kept = λ e. cc

abbrev mutations : List Mutation
mutations = mutation ∷ record mutation { key = key_m } ∷ []

one_pc_is_atomic_example :
    ((prewrite_and_commit_1pc (new_mvcc_txn 40) store one_pc_props mutations).0
      ≡ map
          (λ m. judgement (load_lock store m.key) 40 (conflict_at versions one_pc_props m))
          mutations)
    × ((HasError (prewrite_and_commit_1pc (new_mvcc_txn 40) store one_pc_props mutations).0
          × ((prewrite_and_commit_1pc (new_mvcc_txn 40) store one_pc_props mutations).1.modifies
              ≡ []))
        ⊎ (All
              (λ e. e ≡ none)
              (prewrite_and_commit_1pc (new_mvcc_txn 40) store one_pc_props mutations).0
            × ((vs' : List Version) × Holds
                  (apply_all store
                    (prewrite_and_commit_1pc
                      (new_mvcc_txn 40)
                      store
                      one_pc_props
                      mutations).1.modifies)
                  vs'
                × Published one_pc_props versions mutations vs')))
one_pc_is_atomic_example =
    one_pc_is_atomic store versions one_pc_props mutations store-Holds (omega arith) (omega arith)
      (kept, (kept, tt))

abbrev lock_props : PessimisticLockProps
lock_props = record {
  start_ts = 40;
  for_update_ts = 40;
  primary = key_k;
  lock_ttl = 3000;
  wait_timeout = 0;
}

pessimistic_lock-IsValid : IsValid (pessimistic_lock lock_props)
unfolding pessimistic_lock
pessimistic_lock-IsValid =
    written-IsValid lock_type_pessimistic 40 3000 40 0 none false [] (omega arith) (omega arith)
      (omega arith) (omega arith) (omega arith) (omega arith) tt

abbrev reader : PointGetter
reader = record { snapshot = store; ts = 60; isolation_level = si; bypass_locks = [] }

acquire_is_invisible_example :
    (txn : MvccTxn) × (acquire_pessimistic_lock (new_mvcc_txn 40) store lock_props key_k ≡ done txn)
    × (get (reading reader (apply_all store txn.modifies)) key_k ≡ get (reading reader store) key_k)
acquire_is_invisible_example =
    acquire_is_invisible store versions lock_props key_k reader key_k store-Holds
      (store-unlocked key_k) no_newest pessimistic_lock-IsValid

abbrev listed : List (List ℕ)
listed = key_m ∷ key_k ∷ []

pessimistic_rollback_releases_example :
    ((IsToRelease locked_store listed 40 0 key_k
        × (load_lock
              (apply_all locked_store
                (pessimistic_rollback (new_mvcc_txn 40) locked_store listed 40 0).1.modifies)
              key_k
            ≡ ok none))
      ⊎ ((¬ IsToRelease locked_store listed 40 0 key_k)
          × (load_lock
                (apply_all locked_store
                  (pessimistic_rollback (new_mvcc_txn 40) locked_store listed 40 0).1.modifies)
                key_k
              ≡ load_lock locked_store key_k)))
    × ((apply_all locked_store
          (pessimistic_rollback (new_mvcc_txn 40) locked_store listed 40 0).1.modifies).cf_write
        ≡ locked_store.cf_write)
pessimistic_rollback_releases_example = pessimistic_rollback_releases locked_store listed 40 0 key_k
