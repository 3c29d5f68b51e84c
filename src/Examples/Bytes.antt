-- ===== src/Examples/Bytes.antt =====
-- Encodings of concrete keys and numbers.
use gookv.Prelude.{ℕ, ◌≡◌, List, [], ◌∷◌, length, ◌+◌}
use gookv.Codec.Bytes.{encode_bytes, encoded_bytes_length}
use gookv.Codec.Bytes.RoundTrip.{length-encode_bytes}

abbrev nine : List ℕ
nine = 1 ∷ 2 ∷ 3 ∷ 4 ∷ 5 ∷ 6 ∷ 7 ∷ 8 ∷ 9 ∷ []

length-encode_bytes_example : length (encode_bytes (7 ∷ []) nine) ≡ 1 + encoded_bytes_length 9
length-encode_bytes_example = length-encode_bytes (7 ∷ []) nine
