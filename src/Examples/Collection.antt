-- ===== src/Examples/Collection.antt =====
-- The collection of old versions of a small store.
use gookv.Prelude.{◌≡◌, arith}
use gookv.Mvcc.Txn.Apply.{apply_all}
use gookv.Mvcc.Reader.{get_write}
use gookv.Gc.{Collected}
use gookv.Gc.Reads.{Collects, gc_keeps_reads}
use gookv.Examples.Data.{key_k, versions, store, store-Holds}

gc_keeps_reads_example :
    (c : Collected) × Collects store key_k 35 c
    × (get_write (apply_all store c.0.modifies) key_k 40 ≡ get_write store key_k 40)
gc_keeps_reads_example =
    gc_keeps_reads store versions key_k 35 key_k 40 store-Holds
      (omega arith, (omega arith, (omega arith, tt))) (omega arith) (omega arith)
