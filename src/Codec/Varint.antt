-- ===== src/Codec/Varint.antt =====
-- pkg/codec/number.go: variable-length numbers. `put_uvarint`, `uvarint` and the zigzag forms stand
-- for `PutUvarint`, `Uvarint`, `PutVarint` and `Varint` of encoding/binary.
pub mod RoundTrip
use gookv.Prelude.{
  ℕ, zero, suc, ◌+◌, ◌-◌, ◌*◌, ◌/◌, ◌%◌, ◌^◌, Bool, true, false, List, [], ◌∷◌, ◌++◌, ltb, ◌==◌,
  ◌&&◌, if◌then◌else◌,
}
use gookv.Prelude.{Result, ok, err, insufficient_data, invalid_encoded_key}
use gookv.Prelude.Int.{ℤ, pos, negsuc}
use gookv.Codec.Number.{u64_mod, complement, uint64_of, int64_of}

abbrev pub max_varint_len64 : ℕ
max_varint_len64 = 10

-- Seven bits a byte, the lowest first, with the top bit set on every byte but the last. The first
-- argument is the room that is left in the buffer.
unfoldable pub put_uvarint_loop : ℕ → ℕ → List ℕ
put_uvarint_loop zero v = []
put_uvarint_loop (suc room) v =
    let more = put_uvarint_loop room (v / 128) in
    if ltb v 128 then v ∷ [] else (v % 128 + 128) ∷ more

unfoldable pub put_uvarint : ℕ → List ℕ
put_uvarint v = put_uvarint_loop max_varint_len64 v

-- The three answers of `Uvarint`: a value with what follows it (n > 0), a buffer that ends too
-- early (n = 0), and a value that does not fit 64 bits (n < 0).
pub data Uvarint : Type 0 where
  value : ℕ → List ℕ → Uvarint
  too_short too_long : Uvarint

-- `i` counts the bytes read, `x` is what they hold, and `s` is 7 * i.
unfoldable pub uvarint_loop : ℕ → ℕ → ℕ → List ℕ → Uvarint
uvarint_loop i x s [] = too_short
uvarint_loop i x s (b ∷ rest) =
    let more = uvarint_loop (i + 1) (x + b % 128 * 2 ^ s) (s + 7) rest in
    if i == max_varint_len64
    then too_long
    else if ltb b 128
    then (if i == max_varint_len64 - 1 && ltb 1 b then too_long else value (x + b * 2 ^ s) rest)
    else more

unfoldable pub uvarint : List ℕ → Uvarint
uvarint bytes = uvarint_loop 0 0 0 bytes

unfoldable pub encode_varint : List ℕ → ℕ → List ℕ
encode_varint dst v = dst ++ put_uvarint v

unfoldable pub decode_varint : List ℕ → Result (ℕ × List ℕ)
decode_varint bytes = elim (uvarint bytes) [
  | value v rest ↦ ok (v, rest)
  | too_short ↦ err insufficient_data
  | too_long ↦ err invalid_encoded_key
]

-- `uint64(x) << 1`, inverted if `x` is negative.
unfoldable pub zigzag : ℤ → ℕ
zigzag (pos n) = uint64_of (pos n) * 2 % u64_mod
zigzag (negsuc n) = complement (uint64_of (negsuc n) * 2 % u64_mod)

-- `^x` on an int64.
abbrev complement_int64 : ℤ → ℤ
complement_int64 (pos n) = negsuc n
complement_int64 (negsuc n) = pos n

unfoldable pub unzigzag : ℕ → ℤ
unzigzag ux = let x = int64_of (ux / 2) in if ux % 2 == 0 then x else complement_int64 x

unfoldable pub encode_signed_varint : List ℕ → ℤ → List ℕ
encode_signed_varint dst v = dst ++ put_uvarint (zigzag v)

unfoldable pub decode_signed_varint : List ℕ → Result (ℤ × List ℕ)
decode_signed_varint bytes = elim (uvarint bytes) [
  | value v rest ↦ ok (unzigzag v, rest)
  | too_short ↦ err insufficient_data
  | too_long ↦ err invalid_encoded_key
]
