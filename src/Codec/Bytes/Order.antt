-- ===== src/Codec/Bytes/Order.antt =====
-- The byte order of encoded strings.
use gookv.Prelude.{ℕ, zero, suc, ◌-◌, ◌≤◌, ◌<◌, ◌≡◌, List, [], ◌∷◌, ◌++◌, arith, Ordering}
use gookv.Prelude.Order.{compare_bytes, then_compare, compare_bytes-flip}
use gookv.Codec.Bytes.{encode_bytes}
use gookv.Codec.Bytes.Slots.{padding, slots, encode_groups-eq-slots}

-- A smaller marker behind the same zeros is smaller.
padding-lt-padding :
    (k m n : ℕ) (xs ys : List ℕ)
    → m < n
    → compare_bytes (padding k m ++ xs) (padding k n ++ ys) ≡ Ordering.lt
unfolding compare_bytes padding
padding-lt-padding zero m n xs ys h = ground arith
padding-lt-padding (suc k) m n xs ys h = ground (arith, padding-lt-padding k m n xs ys)

-- The same zeros and the same marker decide nothing.
padding-eq-padding :
    (k m : ℕ) (xs ys : List ℕ)
    → compare_bytes (padding k m ++ xs) (padding k m ++ ys) ≡ compare_bytes xs ys
unfolding compare_bytes padding
padding-eq-padding zero m xs ys = ground arith
padding-eq-padding (suc k) m xs ys = padding-eq-padding k m xs ys

-- An ended string comes before every string that goes on.
padding-lt-slots :
    (k m : ℕ) (vs xs ys : List ℕ)
    → m < 255 - k
    → compare_bytes (padding k m ++ xs) (slots k vs ++ ys) ≡ Ordering.lt
unfolding compare_bytes padding slots
padding-lt-slots zero m [] xs ys h = ground arith
padding-lt-slots zero m (b ∷ vs) xs ys h = ground arith
padding-lt-slots (suc k) m [] xs ys h = ground (arith, padding-lt-padding k m (255 - suc k) xs ys)
padding-lt-slots (suc k) m (b ∷ vs) xs ys h = ground (arith, padding-lt-slots k m vs xs ys)

slots-gt-padding :
    (k m : ℕ) (vs xs ys : List ℕ)
    → m < 255 - k
    → compare_bytes (slots k vs ++ ys) (padding k m ++ xs) ≡ Ordering.gt
slots-gt-padding k m vs xs ys h =
    rw (compare_bytes-flip (padding k m ++ xs) (slots k vs ++ ys), padding-lt-slots k m vs xs ys h)

compare-slots :
    (n : ℕ) (us vs xs ys : List ℕ)
    → n ≤ 8
    → compare_bytes (slots n us ++ xs) (slots n vs ++ ys)
      ≡ then_compare (compare_bytes us vs) (compare_bytes xs ys)
unfolding slots padding compare_bytes
compare-slots zero [] [] xs ys h = padding-eq-padding 8 247 xs ys
compare-slots zero [] (b ∷ vs) xs ys h = ground (arith, padding-lt-slots 7 247 vs xs ys)
compare-slots zero (a ∷ us) [] xs ys h = ground (arith, slots-gt-padding 7 247 us ys xs)
compare-slots zero (a ∷ us) (b ∷ vs) xs ys h = ground (arith, compare-slots 7 us vs xs ys)
compare-slots (suc n) [] [] xs ys h = padding-eq-padding n (255 - suc n) xs ys
compare-slots (suc n) [] (b ∷ vs) xs ys h =
    ground (arith, padding-lt-slots n (255 - suc n) vs xs ys)
compare-slots (suc n) (a ∷ us) [] xs ys h =
    ground (arith, slots-gt-padding n (255 - suc n) us ys xs)
compare-slots (suc n) (a ∷ us) (b ∷ vs) xs ys h = ground (arith, compare-slots n us vs xs ys)

-- Comparing two encodings with anything behind them compares the encoded strings first, and what
-- stands behind them only if these are equal.
pub compare-encode_bytes :
    (us vs xs ys : List ℕ)
    → compare_bytes (encode_bytes [] us ++ xs) (encode_bytes [] vs ++ ys)
      ≡ then_compare (compare_bytes us vs) (compare_bytes xs ys)
unfolding encode_bytes
compare-encode_bytes us vs xs ys =
    rw (encode_groups-eq-slots us, encode_groups-eq-slots vs)
      (compare-slots 8 us vs xs ys (omega arith))
