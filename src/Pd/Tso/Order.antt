-- ===== src/Pd/Tso/Order.antt =====
-- The order of timestamps, and an allocation in it.
use gookv.Prelude.{
  ℕ, ◌+◌, ◌<◌, ◌≤◌, ◌≡◌, refl, Bool, true, false, none, some, leb, ltb, ◌==◌, if◌then◌else◌, arith,
  ◌⊎◌, inl, inr, Bool-cases, ap, ltb→lt,
}
use gookv.Pd.Tso.{
  Timestamp, TsoAllocator, Clock, advance_physical, next_physical, advance_logical, allocate,
  max_logical,
}

-- A timestamp lies in front of the `count` timestamps that end in another.
unfoldable pub Precedes : Timestamp → ℕ → Timestamp → Type 0
Precedes t count u =
    (t.physical < u.physical) ⊎ ((t.physical ≡ u.physical) × (t.logical + count ≤ u.logical))

next_physical-lt : (physical now : ℕ) → physical < next_physical physical now
unfolding next_physical
next_physical-lt physical now = ground arith

-- What both branches have, the choice has.
if-both {ℓ ℓ'} :
    {A : Type ℓ} (P : A → Type ℓ') (b : Bool) {x y : A} → P x → P y → P (if b then x else y)
if-both P true p q = p
if-both P false p q = q

pub Precedes-refl : (t : Timestamp) → Precedes t 0 t
unfolding Precedes
Precedes-refl t = inr (refl, omega arith)

pub Precedes-trans :
    (t u v : Timestamp) (m n : ℕ) → Precedes t m u → Precedes u n v → Precedes t n v
unfolding Precedes
Precedes-trans t u v m n p q = grind arith

Precedes-later :
    (t : Timestamp) (now : ℕ)
    → t.physical < now
    → Precedes t 0 (record { physical = now; logical = 0 })
unfolding Precedes
Precedes-later t now p = inl p

advance_physical-Precedes : (t : Timestamp) (now : ℕ) → Precedes t 0 (advance_physical t now)
unfolding advance_physical
advance_physical-Precedes t now = elim (Bool-cases (ltb t.physical now)) [
  | inl e ↦ rw e (Precedes-later t now (ltb→lt t.physical now e))
  | inr e ↦ rw e (Precedes-refl t)
]

advance_logical-Precedes :
    (t : Timestamp) (count now : ℕ)
    → Precedes t count (advance_logical t.physical t.logical count now)
unfolding Precedes advance_logical
advance_logical-Precedes t count now =
    if-both
      (λ (u : Timestamp).
        (t.physical < u.physical) ⊎ ((t.physical ≡ u.physical) × (t.logical + count ≤ u.logical)))
      (leb max_logical (t.logical + count)) (inl (next_physical-lt t.physical now))
      (inr (refl, omega arith))

advance_logical-count :
    (t : Timestamp) (count now : ℕ)
    → count ≤ (advance_logical t.physical t.logical count now).logical
unfolding advance_logical
advance_logical-count t count now =
    if-both (λ (u : Timestamp). count ≤ u.logical) (leb max_logical (t.logical + count))
      (omega arith) (omega arith)

pub not_zero : (n : ℕ) → 0 < n → (n == 0) ≡ false
not_zero n p = ground arith

-- An allocation of a positive count succeeds. Its timestamps come after the allocator's old position, and
-- end in the new one; its logical part is not smaller than the count.
pub allocate_lem :
    (a : TsoAllocator) (count : ℕ) (clock : Clock)
    → 0 < count
    → (a' : TsoAllocator) × (allocate a count clock ≡ some (a', a'.at))
      × Precedes a.at count a'.at
      × (count ≤ a'.at.logical)
unfolding allocate
allocate_lem a count clock p =
    let t = advance_physical a.at clock.first in
    let u = advance_logical t.physical t.logical count clock.second in
    (
      record { at = u },
      ap (λ b. if b then none else some (record { at = u }, u)) (not_zero count p),
      Precedes-trans a.at t u 0 count (advance_physical-Precedes a.at clock.first)
          (advance_logical-Precedes t count clock.second),
      advance_logical-count t count clock.second,
    )

-- No timestamps are an error.
pub allocate-zero : (a : TsoAllocator) (clock : Clock) → allocate a 0 clock ≡ none
unfolding allocate
allocate-zero a clock = refl
