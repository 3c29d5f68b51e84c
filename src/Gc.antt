-- ===== src/Gc.antt =====
-- internal/storage/gc/gc.go: the collection of the old versions of one key.
pub mod Removed
pub mod Kept
pub mod Run
pub mod Applied
pub mod Reads
use gookv.Prelude.{
  ℕ, zero, suc, ◌+◌, ◌-◌, Bool, true, false, ◌&&◌, ◌||◌, Option, none, some, List, [], ◌∷◌, length,
  ltb, ◌==◌, if◌then◌else◌, Result, ok, err, ◌>>=◌, out_of_fuel,
}
use gookv.TxnTypes.Timestamp.{ts_max}
use gookv.TxnTypes.Write.{
  Write, write_type_put, write_type_delete, write_type_lock, write_type_rollback,
}
use gookv.Mvcc.Snapshot.{Snapshot}
use gookv.Mvcc.Txn.{MvccTxn, delete_write, delete_value}
use gookv.Mvcc.Reader.{seek_write, Found}

pub data GcState : Type 0 where
  rewind remove_idempotent remove_all : GcState

pub record GcInfo : Type 0 where
  pub found_versions : ℕ
  pub deleted_versions : ℕ
  pub is_completed : Bool

abbrev pub Collected : Type 0
Collected = MvccTxn × GcInfo

abbrev pub count_found : GcInfo → GcInfo
count_found info = record info { found_versions = info.found_versions + 1 }

abbrev pub count_deleted : GcInfo → GcInfo
count_deleted info = record info { deleted_versions = info.deleted_versions + 1 }

-- `txn.DeleteWrite` and `info.DeletedVersions++`.
abbrev pub drop_version : List ℕ → ℕ → Collected → Collected
drop_version key commit_ts (txn, info) = (delete_write txn key commit_ts, count_deleted info)

-- The label `done`: the delete marker goes after everything below it.
unfoldable pub done : List ℕ → Option ℕ → Collected → Collected
done key none c = c
done key (some marker_ts) c = drop_version key marker_ts c

abbrev pub has_large_value : Write → Bool
has_large_value w =
    w.write_type == write_type_put && elim w.short_value [ none ↦ true | some _ ↦ false ]

-- The state `gcStateRemoveAll` at a record.
abbrev pub drop_old : List ℕ → Write → ℕ → Collected → Collected
drop_old key w commit_ts c =
    let (txn, info) = drop_version key commit_ts c in
    if has_large_value w then (delete_value txn key w.start_ts, info) else (txn, info)

-- What the switch of `GC` makes of a record at or below the safe point in the states before
-- `gcStateRemoveAll`.
pub data Verdict : Type 0 where
  keep_put meet_delete drop_record step_over : Verdict

abbrev pub verdict : Write → Verdict
verdict w =
    if w.write_type == write_type_put
    then keep_put
    else if w.write_type == write_type_delete
    then meet_delete
    else if w.write_type == write_type_lock || w.write_type == write_type_rollback
    then drop_record
    else step_over

-- `commitTS - 1` on a uint64.
unfoldable pub minus_one : ℕ → ℕ
minus_one ts = if ts == 0 then ts_max else ts - 1

-- The next round, from its state, timestamp, delete marker, and what is collected.
abbrev pub Again : Type 0
Again = GcState → ℕ → Option ℕ → Collected → Result Collected

-- At a delete marker, the search for an older record decides.
abbrev pub on_older : Again → List ℕ → ℕ → Option ℕ → Collected → Found → Result Collected
on_older again key commit_ts marker c none = ok (done key marker (drop_version key commit_ts c))
on_older again key commit_ts marker c (some _) =
    again remove_all (minus_one commit_ts) (some commit_ts) c

-- A record at or below the safe point, before `gcStateRemoveAll`.
unfoldable pub on_verdict :
    Again → Result Found → List ℕ → ℕ → Option ℕ → Collected → Verdict → Result Collected
on_verdict again older key commit_ts marker c keep_put =
    again remove_all (minus_one commit_ts) marker c
on_verdict again older key commit_ts marker c meet_delete =
    older >>= on_older again key commit_ts marker c
on_verdict again older key commit_ts marker c drop_record =
    again remove_idempotent (minus_one commit_ts) marker (drop_version key commit_ts c)
on_verdict again older key commit_ts marker c step_over =
    again remove_idempotent (minus_one commit_ts) marker c

-- The switch of `GC` at a record.
unfoldable pub on_record :
    Again
    → Result Found
    → List ℕ
    → ℕ
    → GcState
    → Option ℕ
    → Collected
    → Write
    → ℕ
    → Result Collected
on_record again older key safe_point rewind marker c w commit_ts =
    if ltb safe_point commit_ts
    then again rewind (minus_one commit_ts) marker c
    else on_verdict again older key commit_ts marker c (verdict w)
on_record again older key safe_point remove_idempotent marker c w commit_ts =
    on_verdict again older key commit_ts marker c (verdict w)
on_record again older key safe_point remove_all marker c w commit_ts =
    again remove_all (minus_one commit_ts) marker (drop_old key w commit_ts c)

unfoldable pub on_found :
    Again → Snapshot → List ℕ → ℕ → GcState → Option ℕ → Collected → Found → Result Collected
on_found again s key safe_point state marker c none = ok (done key marker c)
on_found again s key safe_point state marker (txn, info) (some (w, commit_ts)) =
    on_record again (seek_write s key (minus_one commit_ts)) key safe_point state marker
      (txn, count_found info) w commit_ts

-- The loop of `GC`. At a record with timestamp 0, `commitTS - 1` would be the newest timestamp; with no
-- such record each round moves to an older version, and the number of entries and one is enough fuel.
unfoldable pub gc_loop :
    ℕ → Snapshot → List ℕ → ℕ → GcState → ℕ → Option ℕ → Collected → Result Collected
gc_loop zero s key safe_point state ts marker c = err out_of_fuel
gc_loop (suc fuel) s key safe_point state ts marker c =
    seek_write s key ts
    >>= on_found (λ state' ts' marker' c'. gc_loop fuel s key safe_point state' ts' marker' c') s
        key safe_point state marker c

unfoldable pub gc : MvccTxn → Snapshot → List ℕ → ℕ → Result Collected
gc txn s key safe_point =
    let info : GcInfo = record { found_versions = 0; deleted_versions = 0; is_completed = true } in
    gc_loop (suc (length s.cf_write)) s key safe_point rewind ts_max none (txn, info)
