-- ===== src/Examples/Scans.antt =====
-- Scans of small stores.
use gookv.Prelude.{◌⊎◌, ◌≡◌, refl, false, none, List, [], ◌∷◌, map, arith, drop}
use gookv.Prelude.Order.{compare_bytes}
use gookv.TxnTypes.Lock.RoundTrip.{stored}
use gookv.Mvcc.Snapshot.{Snapshot}
use gookv.Mvcc.Iterator.{within}
use gookv.Mvcc.Txn.Apply.{apply, put_entry}
use gookv.Mvcc.Versions.{Version, entry, versions_from}
use gookv.Mvcc.Versions.Keys.{after_key, readable}
use gookv.Mvcc.Versions.Range.{in_range}
use gookv.Mvcc.Scanner.{handle_write, absent, key_is_locked}
use gookv.Mvcc.Scanning.At.{At}
use gookv.Mvcc.Scanning.Next.{handle_write_skips}
use gookv.Mvcc.Scanning.Start.{Ready, scans, names, start, start-At}
use gookv.Server.Scan.Locked.{scan_judges_lock, Blocks}
use gookv.Server.Scan.{scan, scan_config, failed}
use gookv.Server.Scan.Laws.{rows_of, first_records}
use gookv.Server.Scan.Reads.{scan_is_point_reads, point_read, keys_in_range}
use gookv.Examples.Data.{
  key_k, key_m, put_version, put_version-IsWritable, versions, store, store-Holds, locked_store,
  locked_store-Holds, lock, lock-IsValid,
}

scan_is_point_reads_example :
    scan store none [] 0 20 false
    ≡ rows_of
        (scan_config store none [] 20 false)
        (first_records 0 (readable (point_read store 20) (keys_in_range versions none [])))
unfolding within in_range compare_bytes
scan_is_point_reads_example =
    scan_is_point_reads store versions none [] 0 20 false store-Holds (omega arith) refl
      (refl, (refl, (refl, tt)))

-- The first key has only a version that a scan at 20 does not see.
abbrev newer_versions : List Version
newer_versions = put_version key_k 30 25 65 ∷ put_version key_m 12 10 67 ∷ []

abbrev newer_store : Snapshot
newer_store = record { cf_default = []; cf_lock = []; cf_write = map entry newer_versions }

newer-Ready : Ready (scan_config newer_store none [] 20 false) newer_versions
unfolding within compare_bytes
newer-Ready =
    let a = put_version-IsWritable key_k 30 25 65 (omega arith) (omega arith) in
    let b = put_version-IsWritable key_m 12 10 67 (omega arith) (omega arith) in
    record {
      forward = refl;
      read_ts_fits = omega arith;
      entries = refl;
      storable = (a.storable, (b.storable, tt));
      names_no_change = (a.names_no_change, (b.names_no_change, tt));
      sorted = ((refl, tt), (tt, tt));
    }

handle_write_skips_example :
    At
      (scan_config newer_store none [] 20 false)
      newer_versions
      (drop 1 (after_key (put_version key_m 12 10 67 ∷ []) key_k))
      (handle_write (start newer-Ready) key_k).0
    × ((handle_write (start newer-Ready) key_k).1 ≡ absent)
unfolding in_range versions_from compare_bytes within
handle_write_skips_example =
    handle_write_skips (scans newer-Ready) (names newer-Ready) (put_version key_k 30 25 65)
      (put_version key_m 12 10 67 ∷ []) (start newer-Ready) (start-At newer-Ready refl) refl

scan_judges_lock_example :
    (Blocks lock 50
      × (scan locked_store none [] 1 50 false ≡ failed (key_is_locked key_k (stored lock))))
    ⊎ ((¬ Blocks lock 50)
        × (scan locked_store none [] 1 50 false
            ≡ rows_of (scan_config locked_store none [] 50 false) (
                first_records 1
                  (readable (point_read locked_store 50) (keys_in_range versions none [])))))
unfolding in_range within apply put_entry compare_bytes
scan_judges_lock_example =
    scan_judges_lock locked_store versions none [] 1 50 false (put_version key_k 30 25 65)
      (put_version key_k 12 10 66 ∷ put_version key_m 12 10 67 ∷ []) lock locked_store-Holds
      (omega arith) (refl, (refl, (refl, tt))) refl refl lock-IsValid
