-- ===== src/Codec/Bytes/Slots.antt =====
-- The same encoding, one byte at a time, with the number of free slots of the current group. It
-- has the shape that inductions over the bytes need.
use gookv.Prelude.{ℕ, zero, suc, ◌-◌, ◌≡◌, refl, List, [], ◌∷◌, ap}
use gookv.Codec.Bytes.{encode_groups}

-- `k` zeros and a marker.
unfoldable pub padding : ℕ → ℕ → List ℕ
padding zero m = m ∷ []
padding (suc k) m = 0 ∷ padding k m

unfoldable pub slots : ℕ → List ℕ → List ℕ
unfolding padding
slots zero [] = 255 ∷ padding 8 247
slots zero (x ∷ xs) = 255 ∷ x ∷ slots 7 xs
slots (suc n) [] = padding (suc n) (255 - suc n)
slots (suc n) (x ∷ xs) = x ∷ slots n xs

pub encode_groups-eq-slots : (xs : List ℕ) → encode_groups xs ≡ slots 8 xs
unfolding encode_groups slots
encode_groups-eq-slots (a ∷ b ∷ c ∷ d ∷ e ∷ f ∷ g ∷ h ∷ []) = refl
encode_groups-eq-slots (a ∷ b ∷ c ∷ d ∷ e ∷ f ∷ g ∷ h ∷ x ∷ rest) =
    ap (λ r. a ∷ b ∷ c ∷ d ∷ e ∷ f ∷ g ∷ h ∷ 255 ∷ r) (encode_groups-eq-slots (x ∷ rest))
encode_groups-eq-slots xs = refl
