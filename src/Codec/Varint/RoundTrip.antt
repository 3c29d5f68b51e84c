-- ===== src/Codec/Varint/RoundTrip.antt =====
-- Reading variable-length numbers back.
use gookv.Prelude.{
  ℕ, zero, suc, ◌+◌, ◌*◌, ◌/◌, ◌%◌, ◌^◌, ◌<◌, ◌≤◌, ◌≡◌, ap, List, [], ◌++◌, arith, ok, length,
}
use native.Mathlib.Nat.{div-add-mod}
use native.Mathlib.Numerals.{towards_suc}
use gookv.Prelude.Int.{ℤ, pos, negsuc}
use gookv.Codec.Number.{IsU64}
use gookv.Codec.Number.RoundTrip.{IsI64}
use gookv.Codec.Varint.{
  put_uvarint_loop, put_uvarint, value, uvarint_loop, uvarint, encode_varint, decode_varint, zigzag,
  unzigzag, encode_signed_varint, decode_signed_varint,
}

-- What fits in the last `room` bytes of ten: one bit in the tenth, seven in each other.
abbrev capacity : ℕ → ℕ
capacity zero = 1
capacity (suc zero) = 2
capacity (suc (suc room)) = 128 * capacity (suc room)

pow-add_seven : (s : ℕ) → 2 ^ (s + 7) ≡ 128 * 2 ^ s
pow-add_seven s = simp towards_suc (omega arith)

-- A value is its low seven bits and the rest, both shifted by `s`.
seven_bits : (v x s : ℕ) → x + v % 128 * 2 ^ s + v / 128 * 2 ^ (s + 7) ≡ x + v * 2 ^ s
seven_bits v x s =
    rw (pow-add_seven s) (omega (arith, ap (λ (t : ℕ). t * 2 ^ s) (div-add-mod v 128)))

uvarint_loop-put :
    (room i x s v : ℕ) (xs : List ℕ)
    → i + suc room ≡ 10
    → v < capacity (suc room)
    → uvarint_loop i x s (put_uvarint_loop (suc room) v ++ xs) ≡ value (x + v * 2 ^ s) xs
unfolding uvarint_loop put_uvarint_loop
uvarint_loop-put zero i x s v xs hi hv = ground arith
uvarint_loop-put (suc room) i x s v xs hi hv = ground (
  arith,
  seven_bits v x s,
  uvarint_loop-put room (i + 1) (x + v % 128 * 2 ^ s) (s + 7) (v / 128) xs,
)

pub uvarint-put_uvarint :
    (v : ℕ) (xs : List ℕ) → IsU64 v → uvarint (put_uvarint v ++ xs) ≡ value v xs
unfolding uvarint put_uvarint
uvarint-put_uvarint v xs h = ground (arith, uvarint_loop-put 9 0 0 0 v xs)

zigzag-unzigzag : (v : ℤ) → IsI64 v → IsU64 (zigzag v) × (unzigzag (zigzag v) ≡ v)
unfolding zigzag unzigzag
zigzag-unzigzag (pos n) h = ground arith
zigzag-unzigzag (negsuc n) h = ground arith

-- `DecodeVarint` reads back every uint64 that `EncodeVarint` wrote, and `DecodeSignedVarint` every
-- int64 that `EncodeSignedVarint` wrote; both return what follows.
pub decode-encode_varint :
    (v : ℕ) (w : ℤ) (xs : List ℕ)
    → IsU64 v
    → IsI64 w
    → (decode_varint (encode_varint [] v ++ xs) ≡ ok (v, xs))
      × (decode_signed_varint (encode_signed_varint [] w ++ xs) ≡ ok (w, xs))
unfolding decode_varint encode_varint decode_signed_varint encode_signed_varint
decode-encode_varint v w xs hv hw =
    let z = zigzag-unzigzag w hw in
    (
      rw (uvarint-put_uvarint v xs hv, decode_varint),
      rw (uvarint-put_uvarint (zigzag w) xs z.0, decode_signed_varint) (ap (λ n. ok (n, xs)) z.1),
    )

length-put_uvarint_loop : (room v : ℕ) → length (put_uvarint_loop room v) ≤ room
unfolding put_uvarint_loop
length-put_uvarint_loop zero v = omega arith
length-put_uvarint_loop (suc room) v = ground (arith, length-put_uvarint_loop room (v / 128))
