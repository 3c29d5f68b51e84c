-- ===== src/TxnTypes/Wire/Reading.antt =====
-- The readers of single values, on what was appended and on the length of their input.
use gookv.Prelude.{
  ℕ, zero, suc, ◌+◌, ◌*◌, ◌%◌, ◌^◌, ◌≤◌, ◌≡◌, refl, List, [], ◌∷◌, ◌++◌, length, drop, Result, ok,
  err, ◌>>=◌, arith, take-length-append, drop-length-append, length-append, append_assoc, Bool,
  true, false, if◌then◌else◌,
}
use gookv.Codec.Number.{IsU64, put_uint64, get_uint64}
use gookv.Codec.Number.RoundTrip.{get-put_uint64}
use gookv.Codec.Varint.{put_uvarint, uvarint, uvarint_loop, value}
use gookv.Codec.Varint.RoundTrip.{uvarint-put_uvarint}
use gookv.TxnTypes.Wire.Fields.{Shrinks}
use gookv.TxnTypes.Wire.{
  append_varint, append_var_bytes, read_varint, split_at, read_var_bytes, read_uint64_be,
  read_short_value,
}

pub read_varint-put :
    (v : ℕ) (xs : List ℕ) → IsU64 v → read_varint (put_uvarint v ++ xs) ≡ ok (v, xs)
unfolding read_varint
read_varint-put v xs h = rw (uvarint-put_uvarint v xs h, read_varint)

pub split_at-append : (us xs : List ℕ) → split_at (length us) (us ++ xs) ≡ ok (us, xs)
unfolding split_at
split_at-append us xs =
    ground (arith, length-append us xs, take-length-append us xs, drop-length-append us xs)

pub read_var_bytes-append :
    (us xs : List ℕ)
    → IsU64 (length us)
    → read_var_bytes (append_var_bytes [] us ++ xs) ≡ ok (us, xs)
unfolding read_var_bytes append_var_bytes append_varint
read_var_bytes-append us xs h =
    rw (append_assoc, read_varint-put (length us) (us ++ xs) h) (split_at-append us xs)

pub read_uint64_be-put :
    (v : ℕ) (xs : List ℕ) → IsU64 v → read_uint64_be (put_uint64 v ++ xs) ≡ ok (v, xs)
unfolding read_uint64_be
read_uint64_be-put v xs h = rw (get-put_uint64 v xs h, read_uint64_be)

length-drop-le : (n : ℕ) (us : List ℕ) → length (drop n us) ≤ length us
length-drop-le zero us = omega arith
length-drop-le (suc n) [] = omega arith
length-drop-le (suc n) (x ∷ us) = omega (arith, length-drop-le n us)

uvarint_loop-shorter :
    (bytes : List ℕ) (i x s v : ℕ) (rest : List ℕ)
    → uvarint_loop i x s bytes ≡ value v rest
    → length rest ≤ length bytes
unfolding uvarint_loop
uvarint_loop-shorter [] i x s v rest e = cc
uvarint_loop-shorter (b ∷ bytes) i x s v rest e =
    ground (arith, uvarint_loop-shorter bytes (i + 1) (x + b % 128 * 2 ^ s) (s + 7) v rest)

pub read_varint-Shrinks : (bytes : List ℕ) → Shrinks (read_varint bytes) bytes
unfolding read_varint uvarint
read_varint-Shrinks bytes = record {
  shorter = λ a rest e. ground (arith, uvarint_loop-shorter bytes 0 0 0 a rest);
  fails = λ e. ground arith;
}

pub split_at-Shrinks : (n : ℕ) (bytes : List ℕ) → Shrinks (split_at n bytes) bytes
unfolding split_at
split_at-Shrinks n bytes = record {
  shorter = λ a rest e. ground (arith, length-drop-le n bytes);
  fails = λ e. ground arith;
}

pub read_uint64_be-Shrinks : (bytes : List ℕ) → Shrinks (read_uint64_be bytes) bytes
unfolding read_uint64_be get_uint64
read_uint64_be-Shrinks (a ∷ b ∷ c ∷ d ∷ e ∷ f ∷ g ∷ h ∷ more) = record {
  shorter = λ v rest eq. ground arith;
  fails = λ eq. cc;
}
read_uint64_be-Shrinks _ = record { shorter = λ v rest eq. cc; fails = λ eq. cc }

pub read_short_value-Shrinks : (bytes : List ℕ) → Shrinks (read_short_value bytes) bytes
unfolding read_short_value
read_short_value-Shrinks [] = record { shorter = λ v rest eq. cc; fails = λ eq. cc }
read_short_value-Shrinks (n ∷ more) = record {
  shorter = λ v rest eq. omega (arith, (split_at-Shrinks n more).shorter v rest eq);
  fails = (split_at-Shrinks n more).fails;
}

-- Two readers in a row.
pub >>=-Shrinks :
    {A B : Type 0} (r : Result (A × List ℕ)) (bytes : List ℕ) (f : A × List ℕ → Result (B × List ℕ))
    → Shrinks r bytes
    → ((a : A) (rest : List ℕ) → Shrinks (f (a, rest)) rest)
    → Shrinks (r >>= f) bytes
>>=-Shrinks (ok (a, mid)) bytes f p q = record {
  shorter = λ b rest e. omega (arith, (q a mid).shorter b rest e, p.shorter a mid refl);
  fails = (q a mid).fails;
}
>>=-Shrinks (err x) bytes f p q = record {
  shorter = λ b rest e. cc;
  fails = λ e. p.fails (ground arith);
}

pub ok-Shrinks : {A : Type 0} (a : A) (bytes : List ℕ) → Shrinks (ok (a, bytes)) bytes
ok-Shrinks a bytes = record { shorter = λ b rest e. ground arith; fails = λ e. cc }

pub if-Shrinks :
    {A : Type 0} (b : Bool) (m n : Result (A × List ℕ)) (bytes : List ℕ)
    → Shrinks m bytes
    → Shrinks n bytes
    → Shrinks (if b then m else n) bytes
if-Shrinks true m n bytes p q = p
if-Shrinks false m n bytes p q = q

pub ruleset shrink_rules = (
  if-Shrinks, ok-Shrinks, >>=-Shrinks, read_varint-Shrinks, read_uint64_be-Shrinks,
  read_short_value-Shrinks, split_at-Shrinks,
)
