-- ===== src/Codec/Number/RoundTrip.antt =====
-- Reading fixed-width numbers back.
use gookv.Prelude.{ℕ, ◌+◌, ◌*◌, ◌/◌, ◌%◌, ◌^◌, ◌<◌, ◌≡◌, ap, List, [], ◌++◌, arith, ok}
use native.Mathlib.Nat.{div-div-eq-div-mul}
use gookv.Prelude.Int.{ℤ, pos, negsuc}
use gookv.Codec.Number.{
  IsU64, sign_bit, complement, put_uint64, get_uint64, encode_uint64, encode_uint64_desc,
  decode_uint64, decode_uint64_desc, encode_int64, decode_int64, encode_float64, decode_float64,
  encode_int64_to_comparable, decode_comparable_to_int64, encode_float64_to_comparable,
  decode_comparable_to_float64,
}

-- One byte more of the prefix that has been read.
next_byte : (v p : ℕ) → v / (p * 256) * 256 + v / p % 256 ≡ v / p
next_byte v p = rw (← div-div-eq-div-mul v p 256) (omega arith)

pub get-put_uint64 : (v : ℕ) (xs : List ℕ) → IsU64 v → get_uint64 (put_uint64 v ++ xs) ≡ ok (v, xs)
unfolding get_uint64 put_uint64
get-put_uint64 v xs h =
    let top : v / 256 ^ 7 % 256 ≡ v / 256 ^ 7 = omega arith in
    rw
      (
        top,
        next_byte v (256 ^ 6),
        next_byte v (256 ^ 5),
        next_byte v (256 ^ 4),
        next_byte v (256 ^ 3),
        next_byte v (256 ^ 2),
        next_byte v 256,
        next_byte v 1,
      )
      (ap (λ n. ok (n, xs)) (omega arith))

-- `DecodeUint64` reads back what `EncodeUint64` wrote, and returns what follows.
pub decode-encode_uint64 :
    (v : ℕ) (xs : List ℕ) → IsU64 v → decode_uint64 (encode_uint64 [] v ++ xs) ≡ ok (v, xs)
unfolding decode_uint64 encode_uint64
decode-encode_uint64 v xs h = get-put_uint64 v xs h

-- The same for the descending form.
pub decode-encode_uint64_desc :
    (v : ℕ) (xs : List ℕ)
    → IsU64 v
    → decode_uint64_desc (encode_uint64_desc [] v ++ xs) ≡ ok (v, xs)
unfolding decode_uint64_desc encode_uint64_desc
decode-encode_uint64_desc v xs h =
    rw (get-put_uint64 (complement v) xs (omega arith)) (ap (λ n. ok (n, xs)) (omega arith))

-- An int64 lies in the range of 64-bit two's complement.
abbrev pub IsI64 : ℤ → Type 0
IsI64 (pos n) = n < sign_bit
IsI64 (negsuc n) = n < sign_bit

int64-comparable :
    (v : ℤ)
    → IsI64 v
    → IsU64 (encode_int64_to_comparable v)
      × (decode_comparable_to_int64 (encode_int64_to_comparable v) ≡ v)
unfolding encode_int64_to_comparable decode_comparable_to_int64
int64-comparable (pos n) h = ground arith
int64-comparable (negsuc n) h = ground arith

float64-comparable :
    (v : ℕ)
    → IsU64 v
    → IsU64 (encode_float64_to_comparable v)
      × (decode_comparable_to_float64 (encode_float64_to_comparable v) ≡ v)
unfolding encode_float64_to_comparable decode_comparable_to_float64
float64-comparable v h = ground arith

-- `DecodeInt64` reads back every int64 that `EncodeInt64` wrote, and `DecodeFloat64` every 64-bit
-- pattern that `EncodeFloat64` wrote; both return what follows.
pub decode-encode_signed :
    (v : ℤ) (bits : ℕ) (xs : List ℕ)
    → IsI64 v
    → IsU64 bits
    → (decode_int64 (encode_int64 [] v ++ xs) ≡ ok (v, xs))
      × (decode_float64 (encode_float64 [] bits ++ xs) ≡ ok (bits, xs))
unfolding decode_int64 decode_float64 encode_int64 encode_float64 decode_uint64 encode_uint64
decode-encode_signed v bits xs h k =
    let i = int64-comparable v h in
    let f = float64-comparable bits k in
    (
      rw (get-put_uint64 (encode_int64_to_comparable v) xs i.0) (ap (λ n. ok (n, xs)) i.1),
      rw (get-put_uint64 (encode_float64_to_comparable bits) xs f.0) (ap (λ n. ok (n, xs)) f.1),
    )
