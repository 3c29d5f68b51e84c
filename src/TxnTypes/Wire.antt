-- ===== src/TxnTypes/Wire.antt =====
-- pkg/txntypes/util.go, and the loop over tagged fields that `UnmarshalWrite` and `UnmarshalLock`
-- share.
pub mod Fields
pub mod Reading
use gookv.Prelude.{
  ℕ, zero, suc, ◌-◌, List, [], ◌∷◌, ◌++◌, length, take, drop, ltb, if◌then◌else◌, ◌%◌,
}
use gookv.Prelude.{Result, ok, err, unexpected_eof, insufficient_data, ◌>>=◌}
use gookv.Codec.Number.{put_uint64, get_uint64, u64_mod}
use gookv.Codec.Varint.{put_uvarint, uvarint, Uvarint, value, too_short, too_long}

unfoldable pub append_uint64_be : List ℕ → ℕ → List ℕ
append_uint64_be b v = b ++ put_uint64 v

unfoldable pub append_varint : List ℕ → ℕ → List ℕ
append_varint b v = b ++ put_uvarint v

unfoldable pub append_var_bytes : List ℕ → List ℕ → List ℕ
append_var_bytes b bytes = append_varint b (length bytes) ++ bytes

unfoldable pub read_varint : List ℕ → Result (ℕ × List ℕ)
read_varint bytes = elim (uvarint bytes) [
  | value v rest ↦ ok (v, rest)
  | too_short ↦ err unexpected_eof
  | too_long ↦ err unexpected_eof
]

-- `data[:n]` and `data[n:]` behind the check of the length.
unfoldable pub split_at : ℕ → List ℕ → Result (List ℕ × List ℕ)
split_at n bytes =
    if ltb (length bytes) n then err unexpected_eof else ok (take n bytes, drop n bytes)

unfoldable pub read_var_bytes : List ℕ → Result (List ℕ × List ℕ)
read_var_bytes bytes = do (n, rest) ← read_varint bytes; split_at n rest

-- `if len(data) < 8 { … }` and `binary.BigEndian.Uint64(data[:8])`, as it stands in many fields.
unfoldable pub read_uint64_be : List ℕ → Result (ℕ × List ℕ)
read_uint64_be bytes = elim (get_uint64 bytes) [ ok r ↦ ok r | err e ↦ err unexpected_eof ]

-- A length byte and that many bytes: the short value of a write or a lock.
unfoldable pub read_short_value : List ℕ → Result (List ℕ × List ℕ)
read_short_value [] = err unexpected_eof
read_short_value (n ∷ rest) = split_at n rest
