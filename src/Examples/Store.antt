-- ===== src/Examples/Store.antt =====
-- Keys, records and the reader, on the store of Examples/Data.
use gookv.Prelude.{◌≡◌, compare, arith, ok}
use gookv.Prelude.Order.{compare_bytes, then_compare}
use gookv.TxnTypes.Write.{marshal, unmarshal_write}
use gookv.TxnTypes.Write.RoundTrip.{stored, unmarshal_write-marshal}
use gookv.TxnTypes.Lock.{unmarshal_lock}
use gookv.TxnTypes.Lock.RoundTrip.{unmarshal_lock-marshal}
use gookv.Mvcc.Key.{encode_key, decode_key}
use gookv.Mvcc.Key.Laws.{compare-encode_key, decode-encode_key}
use gookv.Mvcc.Txn.{put, cf_write}
use gookv.Mvcc.Txn.Apply.{apply}
use gookv.Mvcc.Versions.Insert.{insert_version}
use gookv.Mvcc.Versions.Visible.{visible_versions, latest_put}
use gookv.Mvcc.Reader.{get_write}
use gookv.Mvcc.Reader.Writes.{get_write-entries}
use gookv.Mvcc.Holds.{Holds, put_write-Holds}
use gookv.Examples.Data.{
  key_k, key_m, put_version, put_version-IsWritable, versions, store, store-Holds, lock,
  lock-IsValid,
}

compare-encode_key_example :
    compare_bytes (encode_key key_k 30) (encode_key key_k 12)
    ≡ then_compare (compare_bytes key_k key_k) (compare 12 30)
compare-encode_key_example = compare-encode_key key_k key_k 30 12 (omega arith) (omega arith)

decode-encode_key_example : decode_key (encode_key key_k 30) ≡ ok (key_k, 30)
decode-encode_key_example = decode-encode_key key_k 30 (omega arith)

unmarshal_write-marshal_example :
    unmarshal_write (marshal (put_version key_k 30 25 65).write)
    ≡ ok (stored (put_version key_k 30 25 65).write)
unmarshal_write-marshal_example =
    unmarshal_write-marshal (put_version key_k 30 25 65).write
      (put_version-IsWritable key_k 30 25 65 (omega arith) (omega arith)).storable.write_fits

unmarshal_lock-marshal_example : unmarshal_lock (gookv.TxnTypes.Lock.marshal lock) ≡ ok lock
unmarshal_lock-marshal_example = unmarshal_lock-marshal lock lock-IsValid

get_write-entries_example :
    get_write store key_k 20 ≡ ok (latest_put (visible_versions versions key_k 20))
get_write-entries_example =
    get_write-entries store versions key_k 20 store-Holds.entries store-Holds.storable
      store-Holds.names_no_change store-Holds.sorted (omega arith)

put_write-Holds_example :
    Holds
      (apply store
        (put cf_write (encode_key key_m 50) (marshal (put_version key_m 50 40 68).write)))
      (insert_version versions (put_version key_m 50 40 68))
put_write-Holds_example =
    put_write-Holds store versions (put_version key_m 50 40 68) store-Holds
      (put_version-IsWritable key_m 50 40 68 (omega arith) (omega arith))
