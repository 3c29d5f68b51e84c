-- ===== src/Codec/Bytes/RoundTrip.antt =====
-- Reading encoded byte strings back.
use gookv.Prelude.{
  ℕ, ◌+◌, ◌<◌, ◌≡◌, refl, ap, ◌∙◌, List, [], ◌∷◌, ◌++◌, map, arith, length, All, length-append,
  append_assoc, ok,
}
use gookv.Codec.Bytes.{
  encode_groups, encode_bytes, encode_bytes_desc, encoded_bytes_length, decode_loop, decode_bytes,
  decode_desc_loop, decode_bytes_desc, invert,
}

-- The nine lengths of a group.
decode_loop-encode_groups :
    (us xs result : List ℕ) → decode_loop result (encode_groups us ++ xs) ≡ ok (result ++ us, xs)
unfolding decode_loop encode_groups
decode_loop-encode_groups (a ∷ b ∷ c ∷ d ∷ e ∷ f ∷ g ∷ h ∷ rest) xs result =
    decode_loop-encode_groups rest xs (result ++ (a ∷ b ∷ c ∷ d ∷ e ∷ f ∷ g ∷ h ∷ []))
    ∙ ap (λ r. ok (r, xs)) (append_assoc result (a ∷ b ∷ c ∷ d ∷ e ∷ f ∷ g ∷ h ∷ []) rest)
decode_loop-encode_groups _ xs result = refl

-- `DecodeBytes` reads back the string that `EncodeBytes` was given, and returns what follows.
pub decode-encode_bytes : (us xs : List ℕ) → decode_bytes (encode_bytes [] us ++ xs) ≡ ok (us, xs)
unfolding decode_bytes encode_bytes
decode-encode_bytes us xs = decode_loop-encode_groups us xs []

length-encode_groups : (us : List ℕ) → length (encode_groups us) ≡ encoded_bytes_length (length us)
unfolding encode_groups encoded_bytes_length
length-encode_groups (a ∷ b ∷ c ∷ d ∷ e ∷ f ∷ g ∷ h ∷ rest) =
    omega (arith, length-encode_groups rest)
length-encode_groups _ = refl

-- `EncodedBytesLength` is the length that `EncodeBytes` appends.
pub length-encode_bytes :
    (dst us : List ℕ) → length (encode_bytes dst us) ≡ length dst + encoded_bytes_length (length us)
unfolding encode_bytes
length-encode_bytes dst us = rw (length-append dst (encode_groups us), length-encode_groups us)

abbrev pub IsByte : ℕ → Type 0
IsByte b = b < 256

decode_desc_loop-encode_groups :
    (us xs result : List ℕ)
    → All IsByte us
    → decode_desc_loop result (map invert (encode_groups us) ++ xs) ≡ ok (result ++ us, xs)
unfolding decode_desc_loop encode_groups
decode_desc_loop-encode_groups (a ∷ b ∷ c ∷ d ∷ e ∷ f ∷ g ∷ h ∷ rest) xs result p = ground (
  arith,
  decode_desc_loop-encode_groups rest xs (result ++ (a ∷ b ∷ c ∷ d ∷ e ∷ f ∷ g ∷ h ∷ []))
      (ground arith),
  append_assoc result (a ∷ b ∷ c ∷ d ∷ e ∷ f ∷ g ∷ h ∷ []) rest,
)
decode_desc_loop-encode_groups _ xs result p = ground arith

-- `DecodeBytesDesc` reads back every string of bytes that `EncodeBytesDesc` was given, and returns
-- what follows.
pub decode-encode_bytes_desc :
    (us xs : List ℕ)
    → All IsByte us
    → decode_bytes_desc (encode_bytes_desc [] us ++ xs) ≡ ok (us, xs)
unfolding decode_bytes_desc encode_bytes_desc
decode-encode_bytes_desc us xs p = decode_desc_loop-encode_groups us xs [] p
