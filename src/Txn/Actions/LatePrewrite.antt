-- ===== src/Txn/Actions/LatePrewrite.antt =====
-- A prewrite that arrives after the rollback of its transaction.
use gookv.Prelude.{
  ℕ, ◌≡◌, ◌≤◌, ◌∙◌, ap, false, none, List, [], ◌∷◌, take, arith, ok, Ordering-cases, inl, inr,
}
use gookv.Prelude.Order.{eq_of_compare_bytes}
use gookv.Codec.Number.{IsU64}
use gookv.Mvcc.Snapshot.{Snapshot}
use gookv.Mvcc.Txn.{MvccTxn, new_mvcc_txn}
use gookv.Mvcc.Txn.Apply.{apply_all}
use gookv.Mvcc.Versions.{Version, position}
use gookv.Mvcc.Versions.Insert.{insert_version}
use gookv.Mvcc.Reader.{load_lock}
use gookv.Mvcc.Reader.Records.{own_record}
use gookv.Mvcc.Holds.{Holds}
use gookv.Txn.Outcome.{done}
use gookv.Txn.Actions.{PrewriteProps, Mutation, conflict_rounds, prewrite, rollback}
use gookv.Txn.Actions.Conflicts.{newer_versions, changes_data}
use gookv.Txn.Actions.RolledBack.{
  rolled_back, rollback-done, Holds-rolled_back, load_lock-rolled_back, rollback_version,
}
use gookv.Txn.Actions.Prewritten.{prewritten, is_conflict, prewrite-done}

-- A version that is not newer than the transaction is no newer version.
newer-insert_old :
    (vs : List Version) (v : Version) (key : List ℕ) (start_ts : ℕ)
    → v.commit_ts ≤ start_ts
    → newer_versions (insert_version vs v) key start_ts ≡ newer_versions vs key start_ts
unfolding insert_version newer_versions
newer-insert_old [] v key start_ts le = ground arith
newer-insert_old (x ∷ vs) v key start_ts le = elim (Ordering-cases (position x v.key v.commit_ts)) [
  | inl lt ↦ rw (lt, insert_version) (ground (arith, newer-insert_old vs v key start_ts le))
  | inr (inl eq) ↦ rw (eq, insert_version) (ground (arith, eq_of_compare_bytes x.key v.key))
  | inr (inr gt) ↦ rw (gt, insert_version) (ground arith)
]

-- In a well-formed store, where the key has no lock, no conflict and no record of the transaction:
-- the rollback succeeds, and then the prewrite of the same transaction on the key succeeds all the
-- same and writes its lock.
pub late_prewrite_succeeds :
    (s : Snapshot) (vs : List Version) (props : PrewriteProps) (m : Mutation)
    → Holds s vs
    → IsU64 props.start_ts
    → load_lock s m.key ≡ ok none
    → own_record vs m.key props.start_ts ≡ none
    → is_conflict vs m props.start_ts ≡ false
    → (txn : MvccTxn) × (rollback (new_mvcc_txn props.start_ts) s m.key props.start_ts ≡ done txn)
      × (prewrite (new_mvcc_txn props.start_ts) (apply_all s txn.modifies) props m
          ≡ done (prewritten props m))
unfolding rollback_version
late_prewrite_succeeds s vs props m h f e n c =
    let old =
      newer-insert_old vs (rollback_version m.key props.start_ts) m.key props.start_ts
        (omega arith) in
    (
      rolled_back m.key props.start_ts none,
      rollback-done s vs m.key props.start_ts none h e n,
      prewrite-done (apply_all s (rolled_back m.key props.start_ts none).modifies)
          (insert_version vs (rollback_version m.key props.start_ts)) props m
          (Holds-rolled_back s vs m.key props.start_ts none h f)
          (load_lock-rolled_back s m.key props.start_ts none m.key ∙ e)
          (ap (λ l. changes_data (take conflict_rounds l)) old ∙ c),
    )
