-- ===== src/Codec/Number/Order.antt =====
-- The byte order of encoded numbers.
use gookv.Prelude.{
  ℕ, zero, suc, ◌+◌, ◌*◌, ◌/◌, ◌%◌, ◌^◌, ◌<◌, ◌≤◌, ◌≡◌, ◌⊎◌, ap, List, [], ◌++◌, arith, compare,
  Ordering,
}
use native.Mathlib.Nat.{
  div-div-eq-div-mul, div-add-mod', pow-suc, mod-lt, mod-eq_of_lt, mul-le-mul_right,
}
use gookv.Prelude.Int.{ℤ, pos, negsuc, ◌<ℤ◌}
use gookv.Prelude.Order.{compare_bytes, then_compare, then_compare_assoc}
use gookv.Codec.Number.{
  u64_mod, sign_bit, encode_float64, encode_float64_to_comparable, IsU64, complement, be_bytes,
  put_uint64, encode_uint64, encode_uint64_desc, encode_int64, encode_int64_to_comparable,
}
use gookv.Codec.Number.RoundTrip.{IsI64}

pow_pos : (n : ℕ) → 0 < 256 ^ n
pow_pos zero = omega arith
pow_pos (suc n) = omega (arith, pow-suc 256 n, pow_pos n)

compare-complement :
    (v w : ℕ) → IsU64 v → IsU64 w → compare (complement v) (complement w) ≡ compare w v
compare-complement v w hv hw = ground arith

-- The low digits of `v`: one digit of base 256, and what stands below it.
mod-split : (v p : ℕ) → v % (p * 256) ≡ v / p % 256 * p + v % p
mod-split v p = omega (
  arith,
  div-add-mod' v (p * 256),
  div-add-mod' v p,
  ap (λ (t : ℕ). t * p) (div-add-mod' (v / p) 256),
  ap (λ (t : ℕ). t * (p * 256)) (div-div-eq-div-mul v p 256),
)

digit-lt : (p d e r s : ℕ) → r < p → d < e → d * p + r < e * p + s
digit-lt p d e r s hr h = grind (arith, mul-le-mul_right p h)

compare_digits :
    (p d e r s : ℕ)
    → r < p
    → s < p
    → compare (d * p + r) (e * p + s) ≡ then_compare (compare d e) (compare r s)
compare_digits p d e r s hr hs = ground (arith, digit-lt p d e r s, digit-lt p e d s r)

-- The order of the `n` low bytes.
compare-be_bytes :
    (n v w : ℕ) (xs ys : List ℕ)
    → compare_bytes (be_bytes n v ++ xs) (be_bytes n w ++ ys)
      ≡ then_compare (compare (v % 256 ^ n) (w % 256 ^ n)) (compare_bytes xs ys)
unfolding be_bytes compare_bytes
compare-be_bytes zero v w xs ys = ground arith
compare-be_bytes (suc n) v w xs ys =
    let p = 256 ^ n in
    rw (
      compare-be_bytes n v w xs ys,
      pow-suc 256 n,
      mod-split v p,
      mod-split w p,
      compare_digits p (v / p % 256) (w / p % 256) (v % p) (w % p) (mod-lt v (pow_pos n))
          (mod-lt w (pow_pos n)),
      then_compare_assoc,
    )

pub compare-put_uint64 :
    (v w : ℕ) (xs ys : List ℕ)
    → IsU64 v
    → IsU64 w
    → compare_bytes (put_uint64 v ++ xs) (put_uint64 w ++ ys)
      ≡ then_compare (compare v w) (compare_bytes xs ys)
unfolding put_uint64
compare-put_uint64 v w xs ys hv hw = rw (
  compare-be_bytes 8 v w xs ys,
  mod-eq_of_lt {n = v} {m = 256 ^ 8} hv,
  mod-eq_of_lt {n = w} {m = 256 ^ 8} hw,
)

-- The bytes of `EncodeUint64` compare as the uint64 numbers, and those of `EncodeUint64Desc` the
-- other way round; what follows them matters only between equal numbers.
pub compare-encode_uint64 :
    (v w : ℕ) (xs ys : List ℕ)
    → IsU64 v
    → IsU64 w
    → (compare_bytes (encode_uint64 [] v ++ xs) (encode_uint64 [] w ++ ys)
        ≡ then_compare (compare v w) (compare_bytes xs ys))
      × (compare_bytes (encode_uint64_desc [] v ++ xs) (encode_uint64_desc [] w ++ ys)
          ≡ then_compare (compare w v) (compare_bytes xs ys))
unfolding encode_uint64 encode_uint64_desc
compare-encode_uint64 v w xs ys hv hw = (
  compare-put_uint64 v w xs ys hv hw,
  rw (compare-put_uint64 (complement v) (complement w) xs ys (omega arith) (omega arith))
      (ap (λ o. then_compare o (compare_bytes xs ys)) (compare-complement v w hv hw)),
)

-- The order of floats that are no NaN, by their bit patterns: the sign first, then the magnitude.
abbrev pub FloatLt : ℕ → ℕ → Type 0
FloatLt u v =
    ((u < v) × (v < sign_bit)) ⊎ ((sign_bit ≤ u) × (v < sign_bit)) ⊎ ((sign_bit ≤ v) × (v < u))

int64-comparable-lt :
    (v w : ℤ)
    → IsI64 v
    → IsI64 w
    → v <ℤ w
    → (encode_int64_to_comparable v < encode_int64_to_comparable w)
      × (encode_int64_to_comparable w < u64_mod)
unfolding encode_int64_to_comparable
int64-comparable-lt (pos m) (pos n) hv hw h = ground arith
int64-comparable-lt (pos m) (negsuc n) hv hw h = ground arith
int64-comparable-lt (negsuc m) (pos n) hv hw h = ground arith
int64-comparable-lt (negsuc m) (negsuc n) hv hw h = ground arith

float64-comparable-lt :
    (v w : ℕ)
    → IsU64 v
    → IsU64 w
    → FloatLt v w
    → (encode_float64_to_comparable v < encode_float64_to_comparable w)
      × (encode_float64_to_comparable w < u64_mod)
unfolding encode_float64_to_comparable
float64-comparable-lt v w hv hw h = ground arith

put_uint64-lt :
    (v w : ℕ) (xs ys : List ℕ)
    → (v < w) × (w < u64_mod)
    → compare_bytes (put_uint64 v ++ xs) (put_uint64 w ++ ys) ≡ Ordering.lt
put_uint64-lt v w xs ys h =
    rw (compare-put_uint64 v w xs ys (omega arith) (omega arith)) (ground arith)

-- A smaller int64 has the smaller encoding under `EncodeInt64`, negative numbers included.
pub encode_int64-lt :
    (v w : ℤ) (xs ys : List ℕ)
    → IsI64 v
    → IsI64 w
    → v <ℤ w
    → compare_bytes (encode_int64 [] v ++ xs) (encode_int64 [] w ++ ys) ≡ Ordering.lt
unfolding encode_int64 encode_uint64
encode_int64-lt v w xs ys hv hw h = put_uint64-lt _ _ xs ys (int64-comparable-lt v w hv hw h)

-- A smaller float64, by the sign and then the magnitude of its 64-bit pattern, has the smaller
-- encoding under `EncodeFloat64`.
pub encode_float64-lt :
    (v w : ℕ) (xs ys : List ℕ)
    → IsU64 v
    → IsU64 w
    → FloatLt v w
    → compare_bytes (encode_float64 [] v ++ xs) (encode_float64 [] w ++ ys) ≡ Ordering.lt
unfolding encode_float64 encode_uint64
encode_float64-lt v w xs ys hv hw h = put_uint64-lt _ _ xs ys (float64-comparable-lt v w hv hw h)
