-- ===== src/Mvcc/Key/Laws.antt =====
-- Decoding, cutting and comparing encoded keys.
use gookv.Prelude.{
  ℕ, ◌<◌, ◌≡◌, refl, List, [], ◌++◌, length, ok, arith, ap, compare, append-nil, length-append,
}
use gookv.Prelude.{take-length-append}
use gookv.Prelude.Order.{compare_bytes, then_compare, then_compare-eq}
use gookv.Codec.Bytes.{encode_bytes, decode_bytes, encoded_bytes_length}
use gookv.Codec.Bytes.RoundTrip.{decode-encode_bytes, length-encode_bytes}
use gookv.Codec.Bytes.Order.{compare-encode_bytes}
use gookv.Codec.Number.{IsU64, encode_uint64_desc, put_uint64, be_bytes}
use gookv.Codec.Number.RoundTrip.{decode-encode_uint64_desc}
use gookv.Codec.Number.Order.{compare-encode_uint64}
use gookv.Mvcc.Key.{encode_key, decode_key, encode_lock_key, decode_lock_key, truncate_to_user_key}

length-encode_uint64_desc : (v : ℕ) → length (encode_uint64_desc [] v) ≡ 8
unfolding encode_uint64_desc put_uint64 be_bytes
length-encode_uint64_desc v = refl

-- The encoded user key, with the descending timestamp behind it.
encode_key_parts :
    (key : List ℕ) (ts : ℕ) → encode_key key ts ≡ encode_lock_key key ++ encode_uint64_desc [] ts
unfolding encode_key encode_lock_key encode_uint64_desc
encode_key_parts key ts = refl

-- `DecodeKey` reads back every key and every timestamp of 64 bits that `EncodeKey` was given.
pub decode-encode_key :
    (key : List ℕ) (ts : ℕ) → IsU64 ts → decode_key (encode_key key ts) ≡ ok (key, ts)
decode-encode_key key ts h =
    let back = rw append-nil at (decode-encode_uint64_desc ts [] h) in
    rw (encode_key_parts key ts) (
      unfold decode_key encode_lock_key in
      rw (decode-encode_bytes key (encode_uint64_desc [] ts), length-encode_uint64_desc ts, back))

-- A key of CF_LOCK decodes to its user key, by `DecodeLockKey` and by `DecodeKey`.
pub decode-encode_lock_key :
    (key : List ℕ)
    → (decode_lock_key (encode_lock_key key) ≡ ok key)
      × (decode_key (encode_lock_key key) ≡ ok (key, 0))
unfolding decode_lock_key encode_lock_key decode_key
decode-encode_lock_key key =
    let e : decode_bytes (encode_bytes [] key) ≡ ok (key, []) =
      rw append-nil at (decode-encode_bytes key []) in
    (rw e, rw e)

encode_lock_key_pos : (key : List ℕ) → 0 < length (encode_lock_key key)
unfolding encode_lock_key encoded_bytes_length
encode_lock_key_pos key = omega (arith, length-encode_bytes [] key)

-- Cutting the timestamp off an encoded key leaves the encoded user key.
pub truncate-encode_key :
    (key : List ℕ) (ts : ℕ) → truncate_to_user_key (encode_key key ts) ≡ encode_lock_key key
unfolding truncate_to_user_key
truncate-encode_key key ts =
    let front = encode_lock_key key in
    let back = encode_uint64_desc [] ts in
    rw (encode_key_parts key ts) (
      ground (
        arith,
        encode_lock_key_pos key,
        length-append front back,
        length-encode_uint64_desc ts,
        take-length-append front back,
      ))

compare-encode_uint64_desc :
    (v w : ℕ)
    → IsU64 v
    → IsU64 w
    → compare_bytes (encode_uint64_desc [] v) (encode_uint64_desc [] w) ≡ compare w v
compare-encode_uint64_desc v w h g =
    rw
      (
        ← append-nil (encode_uint64_desc [] v),
        ← append-nil (encode_uint64_desc [] w),
        (compare-encode_uint64 v w [] [] h g).1,
      )
      (unfold compare_bytes in then_compare-eq (compare w v))

-- For timestamps of 64 bits, encoded keys sort by user key, and those of one user key by falling
-- timestamp.
pub compare-encode_key :
    (k j : List ℕ) (ts us : ℕ)
    → IsU64 ts
    → IsU64 us
    → compare_bytes (encode_key k ts) (encode_key j us)
      ≡ then_compare (compare_bytes k j) (compare us ts)
compare-encode_key k j ts us h g =
    rw (encode_key_parts k ts, encode_key_parts j us)
      (unfold encode_lock_key in
        rw compare-encode_bytes
          (ap (then_compare (compare_bytes k j)) (compare-encode_uint64_desc ts us h g)))

pub compare-encode_lock_key :
    (k j : List ℕ) → compare_bytes (encode_lock_key k) (encode_lock_key j) ≡ compare_bytes k j
unfolding encode_lock_key
compare-encode_lock_key k j =
    rw
      (
        ← append-nil (encode_bytes [] k),
        ← append-nil (encode_bytes [] j),
        compare-encode_bytes k j [] [],
      )
      (unfold compare_bytes in then_compare-eq (compare_bytes k j))
