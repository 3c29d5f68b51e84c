-- ===== src/Pd/Maps.antt =====
-- Maps with numbers as keys, as association lists.
use gookv.Prelude.{
  false, ℕ, ◌+◌, ◌≡◌, ◌≢◌, refl, Option, none, some, List, [], ◌∷◌, ◌==◌, if◌then◌else◌, Bool,
  Bool-cases, arith, ==_iff, inl, inr, sym, ◌∙◌,
}

module _ {ℓ} {A : Type ℓ} where
  unfoldable pub lookup : ℕ → List (ℕ × A) → Option A
  lookup key [] = none
  lookup key ((k, a) ∷ rest) = if k == key then some a else lookup key rest

  unfoldable pub erase : ℕ → List (ℕ × A) → List (ℕ × A)
  erase key [] = []
  erase key ((k, a) ∷ rest) =
      let others = erase key rest in if k == key then others else (k, a) ∷ others

  -- An entry is put in place of an older one.
  unfoldable pub put : ℕ → A → List (ℕ × A) → List (ℕ × A)
  put key a entries = (key, a) ∷ erase key entries

  unfoldable pub keep : (A → Bool) → List (ℕ × A) → List (ℕ × A)
  keep p [] = []
  keep p ((k, a) ∷ rest) = let others = keep p rest in if p a then (k, a) ∷ others else others

  unfoldable pub count : (A → Bool) → List (ℕ × A) → ℕ
  count p [] = 0
  count p ((k, a) ∷ rest) = let others = count p rest in if p a then others + 1 else others

  pub lookup-put :
      (key : ℕ) (a : A) (entries : List (ℕ × A)) → lookup key (put key a entries) ≡ some a
  unfolding lookup put
  lookup-put key a entries = ground arith

  pub lookup-erase : (key : ℕ) (entries : List (ℕ × A)) → lookup key (erase key entries) ≡ none
  unfolding lookup erase
  lookup-erase key [] = refl
  lookup-erase key ((k, a) ∷ rest) = elim (Bool-cases (k == key)) [
    | inl e ↦ rw e (lookup-erase key rest)
    | inr e ↦ rw (e, e) (lookup-erase key rest)
  ]

  pub lookup-erase_other :
      (key other : ℕ) (entries : List (ℕ × A))
      → key ≢ other
      → lookup key (erase other entries) ≡ lookup key entries
  unfolding lookup erase
  lookup-erase_other key other [] p = refl
  lookup-erase_other key other ((k, a) ∷ rest) p =
      let ih = lookup-erase_other key other rest p in
      elim (Bool-cases (k == other)) [
        | inl e ↦ elim (Bool-cases (k == key)) [
          | inl f ↦ elim (p (sym ((==_iff k key).0 f) ∙ (==_iff k other).0 e)) [ ]
          | inr f ↦ rw (e, f) ih
        ]
        | inr e ↦ elim (Bool-cases (k == key)) [ inl f ↦ rw (e, f) refl | inr f ↦ rw (e, f) ih ]
      ]

  pub lookup-put_other :
      (key other : ℕ) (a : A) (entries : List (ℕ × A))
      → key ≢ other
      → lookup key (put other a entries) ≡ lookup key entries
  unfolding lookup put
  lookup-put_other key other a entries p = elim (Bool-cases (other == key)) [
    | inl e ↦ elim (p (sym ((==_iff other key).0 e))) [ ]
    | inr e ↦ rw e (lookup-erase_other key other entries p)
  ]

pub not_equal : (k key : ℕ) → (k == key) ≡ false → key ≢ k
not_equal k key e = ground arith
