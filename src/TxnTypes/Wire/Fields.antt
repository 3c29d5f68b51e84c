-- ===== src/TxnTypes/Wire/Fields.antt =====
-- `for len(data) > 0 { tag := data[0]; data = data[1:]; switch tag { … } }`: the handler is the
-- body of the switch. The fuel is the number of bytes; each round takes one at least.
use gookv.Prelude.{
  ℕ, zero, suc, ◌≤◌, ◌≡◌, ◌≢◌, refl, List, [], ◌∷◌, length, Result, ok, err, ◌>>=◌, arith,
  out_of_fuel, Result-cases, inl, inr,
}

abbrev pub Handler : Type 0 → Type 0
Handler S = ℕ → List ℕ → S → Result (S × List ℕ)

-- `r` leaves at most the bytes that it was given, and fails by an error of the code.
pub record Shrinks {A : Type 0} (r : Result (A × List ℕ)) (bytes : List ℕ) : Type 0 where
  pub shorter : (a : A) (rest : List ℕ) → r ≡ ok (a, rest) → length rest ≤ length bytes
  pub fails : r ≢ err out_of_fuel

pub record IsReader {S : Type 0} (h : Handler S) : Type 0 where
  pub reads : (tag : ℕ) (bytes : List ℕ) (s : S) → Shrinks (h tag bytes s) bytes

module _ {S : Type 0} (h : Handler S) where
  unfoldable pub fields_loop : ℕ → List ℕ → S → Result S
  fields_loop fuel [] s = ok s
  fields_loop zero (tag ∷ bytes) s = err out_of_fuel
  fields_loop (suc fuel) (tag ∷ bytes) s = do (s', rest) ← h tag bytes s; fields_loop fuel rest s'

  unfoldable pub read_fields : List ℕ → S → Result S
  read_fields bytes s = fields_loop (length bytes) bytes s

module _ {S : Type 0} (h : Handler S) (reader : IsReader h) where
  fields_loop-fuel :
      (n m : ℕ) (bytes : List ℕ) (s : S)
      → length bytes ≤ n
      → length bytes ≤ m
      → fields_loop h n bytes s ≡ fields_loop h m bytes s
  unfolding fields_loop
  fields_loop-fuel n m [] s p q = refl
  fields_loop-fuel zero m (tag ∷ bytes) s p q = absurd (omega arith)
  fields_loop-fuel (suc n) zero (tag ∷ bytes) s p q = absurd (omega arith)
  fields_loop-fuel (suc n) (suc m) (tag ∷ bytes) s p q = elim (Result-cases (h tag bytes s)) [
    | inl ((s', rest), e) ↦
        let shorter = (reader.reads tag bytes s).shorter s' rest e in
        rw (e, fields_loop) (fields_loop-fuel n m rest s' (omega arith) (omega arith))
    | inr (x, e) ↦ rw (e, fields_loop)
  ]

  -- One field that the handler accepts.
  pub read_fields-step :
      (tag : ℕ) (bytes : List ℕ) (s s' : S) (rest : List ℕ)
      → h tag bytes s ≡ ok (s', rest)
      → read_fields h (tag ∷ bytes) s ≡ read_fields h rest s'
  unfolding read_fields fields_loop
  read_fields-step tag bytes s s' rest e =
      rw (e, fields_loop)
        (fields_loop-fuel (length bytes) (length rest) rest s'
          ((reader.reads tag bytes s).shorter s' rest e) (omega arith))

  fields_loop-ne-out_of_fuel :
      (n : ℕ) (bytes : List ℕ) (s : S)
      → length bytes ≤ n
      → fields_loop h n bytes s ≢ err out_of_fuel
  unfolding fields_loop
  fields_loop-ne-out_of_fuel n [] s p = λ x. cc
  fields_loop-ne-out_of_fuel zero (tag ∷ bytes) s p = absurd (omega arith)
  fields_loop-ne-out_of_fuel (suc n) (tag ∷ bytes) s p = elim (Result-cases (h tag bytes s)) [
    | inl ((s', rest), e) ↦
        let shorter = (reader.reads tag bytes s).shorter s' rest e in
        rw (e, fields_loop) (fields_loop-ne-out_of_fuel n rest s' (omega arith))
    | inr (x, e) ↦ rw (e, fields_loop) (λ r. (reader.reads tag bytes s).fails (ground arith))
  ]

  -- The loop always ends before its fuel.
  pub read_fields-ne-out_of_fuel :
      (bytes : List ℕ) (s : S) → read_fields h bytes s ≢ err out_of_fuel
  unfolding read_fields
  read_fields-ne-out_of_fuel bytes s =
      fields_loop-ne-out_of_fuel (length bytes) bytes s (omega arith)
