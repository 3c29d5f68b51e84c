-- ===== src/Codec/Number.antt =====
-- pkg/codec/number.go: fixed-width big-endian numbers, ascending and descending, signed numbers
-- and floats in comparable form. A uint64 is a number below 2 ^ 64, an int64 is an integer of
-- `Prelude.Int`, and a float64 is its bit pattern, which is all that the code looks at.
-- `put_uint64` and `get_uint64` stand for `PutUint64` and `Uint64` of encoding/binary.
pub mod RoundTrip
pub mod Order
use gookv.Prelude.{
  ℕ, zero, suc, ◌+◌, ◌-◌, ◌*◌, ◌/◌, ◌%◌, ◌^◌, ◌<◌, List, [], ◌∷◌, ◌++◌, ltb, if◌then◌else◌,
}
use gookv.Prelude.{Result, ok, err, insufficient_data, ◌>>=◌}
use gookv.Prelude.Int.{ℤ, pos, negsuc}

abbrev pub u64_mod : ℕ
u64_mod = 2 ^ 64

abbrev pub sign_bit : ℕ
sign_bit = 2 ^ 63

abbrev pub IsU64 : ℕ → Type 0
IsU64 v = v < u64_mod

-- The `n` low bytes of `v`, the highest first.
unfoldable pub be_bytes : ℕ → ℕ → List ℕ
be_bytes zero v = []
be_bytes (suc n) v = (v / 256 ^ n % 256) ∷ be_bytes n v

unfoldable pub put_uint64 : ℕ → List ℕ
unfolding be_bytes
put_uint64 v = be_bytes 8 v

unfoldable pub get_uint64 : List ℕ → Result (ℕ × List ℕ)
get_uint64 (a ∷ b ∷ c ∷ d ∷ e ∷ f ∷ g ∷ h ∷ rest) =
    ok (((((((a * 256 + b) * 256 + c) * 256 + d) * 256 + e) * 256 + f) * 256 + g) * 256 + h, rest)
get_uint64 _ = err insufficient_data

unfoldable pub encode_uint64 : List ℕ → ℕ → List ℕ
encode_uint64 dst v = dst ++ put_uint64 v

-- `^v` on a uint64.
abbrev pub complement : ℕ → ℕ
complement v = u64_mod - 1 - v

unfoldable pub encode_uint64_desc : List ℕ → ℕ → List ℕ
encode_uint64_desc dst v = dst ++ put_uint64 (complement v)

unfoldable pub decode_uint64 : List ℕ → Result (ℕ × List ℕ)
decode_uint64 bytes = get_uint64 bytes

unfoldable pub decode_uint64_desc : List ℕ → Result (ℕ × List ℕ)
decode_uint64_desc bytes = do (v, rest) ← get_uint64 bytes; ok (complement v, rest)

-- `v ^ (1 << 63)`
abbrev flip_sign : ℕ → ℕ
flip_sign v = if ltb v sign_bit then v + sign_bit else v - sign_bit

-- `uint64(v)` and `int64(u)`: two's complement.
abbrev pub uint64_of : ℤ → ℕ
uint64_of (pos n) = n
uint64_of (negsuc n) = u64_mod - 1 - n

abbrev pub int64_of : ℕ → ℤ
int64_of u = if ltb u sign_bit then pos u else negsuc (u64_mod - 1 - u)

unfoldable pub encode_int64_to_comparable : ℤ → ℕ
encode_int64_to_comparable v = flip_sign (uint64_of v)

unfoldable pub decode_comparable_to_int64 : ℕ → ℤ
decode_comparable_to_int64 u = int64_of (flip_sign u)

unfoldable pub encode_int64 : List ℕ → ℤ → List ℕ
encode_int64 dst v = encode_uint64 dst (encode_int64_to_comparable v)

unfoldable pub decode_int64 : List ℕ → Result (ℤ × List ℕ)
decode_int64 bytes = do (u, rest) ← decode_uint64 bytes; ok (decode_comparable_to_int64 u, rest)

unfoldable pub encode_float64_to_comparable : ℕ → ℕ
encode_float64_to_comparable bits = if ltb bits sign_bit then flip_sign bits else complement bits

unfoldable pub decode_comparable_to_float64 : ℕ → ℕ
decode_comparable_to_float64 u = if ltb u sign_bit then complement u else flip_sign u

unfoldable pub encode_float64 : List ℕ → ℕ → List ℕ
encode_float64 dst v = encode_uint64 dst (encode_float64_to_comparable v)

unfoldable pub decode_float64 : List ℕ → Result (ℕ × List ℕ)
decode_float64 bytes = do (u, rest) ← decode_uint64 bytes; ok (decode_comparable_to_float64 u, rest)
