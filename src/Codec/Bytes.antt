-- ===== src/Codec/Bytes.antt =====
-- pkg/codec/bytes.go: the memcomparable encoding of byte strings. A byte slice is a list of
-- numbers below 256; `dst` and what is appended to it are one list, since no caller keeps an alias
-- of the buffer, and the capacity that `reallocBytes` reserves is not observable.
pub mod Slots
pub mod RoundTrip
pub mod Canonical
pub mod Order
use gookv.Prelude.{
  ℕ, zero, suc, ◌+◌, ◌-◌, ◌*◌, ◌/◌, Bool, true, false, ◌&&◌, List, [], ◌∷◌, ◌++◌, map, length, take,
  drop, replicate, ltb, ◌==◌, if◌then◌else◌,
}
use gookv.Prelude.{Result, ok, err, insufficient_data, invalid_encoded_key}

abbrev pub enc_group_size : ℕ
enc_group_size = 8

abbrev pub enc_marker : ℕ
enc_marker = 255

abbrev pub enc_pad : ℕ
enc_pad = 0

unfoldable pub encoded_bytes_length : ℕ → ℕ
encoded_bytes_length src_len = (src_len / enc_group_size + 1) * (enc_group_size + 1)

-- The last group: `data` is shorter than a group here.
unfoldable pub final_group : List ℕ → List ℕ
final_group data' =
    let pad_count = enc_group_size - length data' in
    data' ++ (replicate pad_count enc_pad ++ ((enc_marker - pad_count) ∷ []))

-- The loop `for len(data) >= encGroupSize`, and the group behind it.
unfoldable pub encode_groups : List ℕ → List ℕ
unfolding final_group
encode_groups (a ∷ b ∷ c ∷ d ∷ e ∷ f ∷ g ∷ h ∷ rest) =
    a ∷ b ∷ c ∷ d ∷ e ∷ f ∷ g ∷ h ∷ enc_marker ∷ encode_groups rest
encode_groups rest = final_group rest

unfoldable pub encode_bytes : List ℕ → List ℕ → List ℕ
unfolding encode_groups
encode_bytes dst data' = dst ++ encode_groups data'

-- `^b` on a byte.
abbrev pub invert : ℕ → ℕ
invert b = 255 - b

unfoldable pub encode_bytes_desc : List ℕ → List ℕ → List ℕ
unfolding encode_groups
encode_bytes_desc dst data' = dst ++ map invert (encode_groups data')

unfoldable pub all_pad : List ℕ → Bool
all_pad [] = true
all_pad (b ∷ bs) = b == enc_pad && all_pad bs

-- What `DecodeBytes` does with a group whose marker is not `encMarker`.
unfoldable pub decode_final : List ℕ → ℕ → List ℕ → List ℕ → Result (List ℕ × List ℕ)
unfolding all_pad
decode_final group marker result rest =
    let pad_count = enc_marker - marker in
    let real_len = enc_group_size - pad_count in
    if ltb enc_group_size pad_count
    then err invalid_encoded_key
    else if all_pad (drop real_len group)
    then ok (result ++ take real_len group, rest)
    else err invalid_encoded_key

-- The loop of `DecodeBytes`; `result` is what it has collected. Fewer than nine bytes are too few.
unfoldable pub decode_loop : List ℕ → List ℕ → Result (List ℕ × List ℕ)
unfolding decode_final
decode_loop result (a ∷ b ∷ c ∷ d ∷ e ∷ f ∷ g ∷ h ∷ marker ∷ rest) =
    let group : List ℕ = a ∷ b ∷ c ∷ d ∷ e ∷ f ∷ g ∷ h ∷ [] in
    let more = decode_loop (result ++ group) rest in
    if marker == enc_marker then more else decode_final group marker result rest
decode_loop result _ = err insufficient_data

unfoldable pub decode_bytes : List ℕ → Result (List ℕ × List ℕ)
unfolding decode_loop
decode_bytes data' = decode_loop [] data'

-- The loop of `DecodeBytesDesc` inverts each group and its marker as it goes.
unfoldable pub decode_desc_loop : List ℕ → List ℕ → Result (List ℕ × List ℕ)
unfolding decode_final
decode_desc_loop result (a ∷ b ∷ c ∷ d ∷ e ∷ f ∷ g ∷ h ∷ m ∷ rest) =
    let group : List ℕ = map invert (a ∷ b ∷ c ∷ d ∷ e ∷ f ∷ g ∷ h ∷ []) in
    let marker = invert m in
    let more = decode_desc_loop (result ++ group) rest in
    if marker == enc_marker then more else decode_final group marker result rest
decode_desc_loop result _ = err insufficient_data

unfoldable pub decode_bytes_desc : List ℕ → Result (List ℕ × List ℕ)
unfolding decode_desc_loop
decode_bytes_desc data' = decode_desc_loop [] data'
