-- ===== src/Mvcc/Key.antt =====
-- internal/storage/mvcc/key.go: a user key and a timestamp in one byte string.
pub mod Laws
use gookv.Prelude.{ℕ, ◌-◌, List, [], length, take, leb, ltb, if◌then◌else◌, Result, ok, err, ◌>>=◌}
use gookv.Codec.Bytes.{encode_bytes, decode_bytes}
use gookv.Codec.Number.{encode_uint64_desc, decode_uint64_desc}

unfoldable pub encode_key : List ℕ → ℕ → List ℕ
encode_key key ts = encode_uint64_desc (encode_bytes [] key) ts

-- A key of CF_LOCK has no timestamp, and 0 is returned for it.
unfoldable pub decode_key : List ℕ → Result (List ℕ × ℕ)
decode_key encoded_key = do
  (key, rest) ← decode_bytes encoded_key
  (if ltb (length rest) 8
      then ok (key, 0)
      else (do (ts, _) ← decode_uint64_desc rest; ok (key, ts)))

unfoldable pub encode_lock_key : List ℕ → List ℕ
encode_lock_key key = encode_bytes [] key

unfoldable pub decode_lock_key : List ℕ → Result (List ℕ)
decode_lock_key encoded_key = do (key, _) ← decode_bytes encoded_key; ok key

unfoldable pub truncate_to_user_key : List ℕ → List ℕ
truncate_to_user_key encoded_key =
    if leb (length encoded_key) 8 then encoded_key else take (length encoded_key - 8) encoded_key

abbrev pub seek_bound : ℕ
seek_bound = 32
