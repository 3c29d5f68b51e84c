-- ===== src/Txn/Concurrency/MaxTs.antt =====
-- `UpdateMaxTS` of internal/storage/txn/concurrency/manager.go, called by many at once.
use mathlib.Core.Path.{subst}
use gookv.Prelude.{
  ℕ, suc, zero, ◌≤◌, ◌<◌, ◌≡◌, refl, List, [], ◌∷◌, leb, ◌==◌, if◌then◌else◌, map, All, All-imp,
  arith, Bool-cases, inl, inr, ap, ==_iff, sym, ◌∙◌,
}
use gookv.Txn.Concurrency.{Call, loading, swapping, returned, step, step_at, interleave}

-- The same calls one after the other.
pub updated : ℕ → List ℕ → ℕ
updated max_ts [] = max_ts
updated max_ts (ts ∷ rest) = updated (if leb ts max_ts then max_ts else ts) rest

abbrev pub wanted : Call → ℕ
wanted (loading ts) = ts
wanted (swapping ts current) = ts
wanted (returned ts) = ts

-- What a call knows: what it has loaded is below its own timestamp; once it has returned, the highest
-- timestamp is not below its own.
Knows : ℕ → Call → Type 0
Knows max_ts (loading ts) = Unit
Knows max_ts (swapping ts current) = current < ts
Knows max_ts (returned ts) = ts ≤ max_ts

-- A call that has returned.
unfoldable pub IsReturned : Call → Type 0
IsReturned (loading ts) = ⊥
IsReturned (swapping ts current) = ⊥
IsReturned (returned ts) = Unit

Knows-mono : (a b : ℕ) (c : Call) → a ≤ b → Knows a c → Knows b c
unfolding Knows
Knows-mono a b (loading ts) p k = tt
Knows-mono a b (swapping ts current) p k = k
Knows-mono a b (returned ts) p k = omega arith

-- A step raises the timestamp at most to the call's own.
step-Knows :
    (max_ts : ℕ) (c : Call)
    → Knows max_ts c
    → (max_ts ≤ (step max_ts c).0)
      × Knows (step max_ts c).0 (step max_ts c).1
      × (wanted (step max_ts c).1 ≡ wanted c)
unfolding Knows step
step-Knows max_ts (loading ts) k = elim (Bool-cases (leb ts max_ts)) [
  | inl e ↦ rw e (omega arith, ground arith, refl)
  | inr e ↦ rw e (omega arith, ground arith, refl)
]
step-Knows max_ts (swapping ts current) k = elim (Bool-cases (max_ts == current)) [
  | inl e ↦ rw e (ground arith, omega arith, refl)
  | inr e ↦ rw e (omega arith, tt, refl)
]
step-Knows max_ts (returned ts) k = (omega arith, k, refl)

step-bound : (max_ts b : ℕ) (c : Call) → max_ts ≤ b → wanted c ≤ b → (step max_ts c).0 ≤ b
unfolding step
step-bound max_ts b (loading ts) p q = elim (Bool-cases (leb ts max_ts)) [
  | inl e ↦ rw e p
  | inr e ↦ rw e p
]
step-bound max_ts b (swapping ts current) p q = elim (Bool-cases (max_ts == current)) [
  | inl e ↦ rw e q
  | inr e ↦ rw e p
]
step-bound max_ts b (returned ts) p q = p

-- What holds throughout: the timestamp only grows, the calls know what they know, ask for what they asked
-- for, and the timestamp stays below what is above all of these.
record Follows (max_ts b : ℕ) (calls : List Call) (next : ℕ × List Call) : Type 0 where
  grows : max_ts ≤ next.0
  knows : All (Knows next.0) next.1
  same : map wanted next.1 ≡ map wanted calls
  bounded : next.0 ≤ b

step_at-Follows :
    (max_ts b i : ℕ) (calls : List Call)
    → All (Knows max_ts) calls
    → max_ts ≤ b
    → All (λ ts. ts ≤ b) (map wanted calls)
    → Follows max_ts b calls (step_at max_ts i calls)
unfolding step_at
step_at-Follows max_ts b i [] k p q = record {
  grows = omega arith;
  knows = tt;
  same = refl;
  bounded = p;
}
step_at-Follows max_ts b zero (c ∷ calls) k p q =
    let (grows, knows, same) = step-Knows max_ts c k.0 in
    record {
      grows = grows;
      knows = (knows, All-imp (λ c'. Knows-mono max_ts (step max_ts c).0 c' grows) calls k.1);
      same = ap (λ ts. ts ∷ map wanted calls) same;
      bounded = step-bound max_ts b c p q.0;
    }
step_at-Follows max_ts b (suc i) (c ∷ calls) k p q =
    let f = step_at-Follows max_ts b i calls k.1 p q.1 in
    record {
      grows = f.grows;
      knows = (Knows-mono max_ts (step_at max_ts i calls).0 c f.grows k.0, f.knows);
      same = ap (◌∷◌ (wanted c)) f.same;
      bounded = f.bounded;
    }

interleave-Follows :
    (max_ts b : ℕ) (calls : List Call) (schedule : List ℕ)
    → All (Knows max_ts) calls
    → max_ts ≤ b
    → All (λ ts. ts ≤ b) (map wanted calls)
    → Follows max_ts b calls (interleave max_ts calls schedule)
unfolding interleave
interleave-Follows max_ts b calls [] k p q = record {
  grows = omega arith;
  knows = k;
  same = refl;
  bounded = p;
}
interleave-Follows max_ts b calls (i ∷ schedule) k p q =
    let next = step_at max_ts i calls in
    let f = step_at-Follows max_ts b i calls k p q in
    let g =
      interleave-Follows next.0 b next.1 schedule f.knows f.bounded
        (subst (All (λ ts. ts ≤ b)) (sym f.same) q) in
    record {
      grows = omega (arith, f.grows, g.grows);
      knows = g.knows;
      same = g.same ∙ f.same;
      bounded = g.bounded;
    }

-- One after the other, the calls leave the highest of all the timestamps.
updated-above :
    (max_ts : ℕ) (tss : List ℕ)
    → (max_ts ≤ updated max_ts tss) × All (λ ts. ts ≤ updated max_ts tss) tss
unfolding updated
updated-above max_ts [] = (omega arith, tt)
updated-above max_ts (ts ∷ rest) =
    let (a, b) = updated-above (if leb ts max_ts then max_ts else ts) rest in
    (ground arith, (ground arith, b))

updated-below :
    (max_ts b : ℕ) (tss : List ℕ) → max_ts ≤ b → All (λ ts. ts ≤ b) tss → updated max_ts tss ≤ b
unfolding updated
updated-below max_ts b [] p q = p
updated-below max_ts b (ts ∷ rest) p q =
    updated-below (if leb ts max_ts then max_ts else ts) b rest (ground arith) q.1

-- What calls that have returned know.
returned-below :
    (m : ℕ) (calls : List Call)
    → All IsReturned calls
    → All (Knows m) calls
    → All (λ ts. ts ≤ m) (map wanted calls)
unfolding IsReturned Knows
returned-below m [] r k = tt
returned-below m (loading ts ∷ calls) r k = elim r.0 [ ]
returned-below m (swapping ts current ∷ calls) r k = elim r.0 [ ]
returned-below m (returned ts ∷ calls) r k = (k.0, returned-below m calls r.1 k.1)

loading-Knows : (m : ℕ) (tss : List ℕ) → All (Knows m) (map loading tss)
unfolding Knows
loading-Knows m [] = tt
loading-Knows m (ts ∷ tss) = (tt, loading-Knows m tss)

wanted-loading : (tss : List ℕ) → map wanted (map loading tss) ≡ tss
wanted-loading [] = refl
wanted-loading (ts ∷ tss) = ap (◌∷◌ ts) (wanted-loading tss)

run-Follows :
    (max_ts : ℕ) (tss schedule : List ℕ)
    → Follows max_ts
        (updated max_ts tss)
        (map loading tss)
        (interleave max_ts (map loading tss) schedule)
run-Follows max_ts tss schedule =
    let (a, b) = updated-above max_ts tss in
    interleave-Follows max_ts (updated max_ts tss) (map loading tss) schedule
      (loading-Knows max_ts tss) a
      (subst (All (λ ts. ts ≤ updated max_ts tss)) (sym (wanted-loading tss)) b)

-- When calls of `UpdateMaxTS` run at once, step by step in any order, and all have returned, the
-- timestamp is the one that the same calls leave one after the other.
pub update_max_ts_is_atomic :
    (max_ts : ℕ) (tss schedule : List ℕ)
    → All IsReturned (interleave max_ts (map loading tss) schedule).1
    → (interleave max_ts (map loading tss) schedule).0 ≡ updated max_ts tss
update_max_ts_is_atomic max_ts tss schedule r =
    let f = run-Follows max_ts tss schedule in
    let next = interleave max_ts (map loading tss) schedule in
    let below =
      subst (All (λ ts. ts ≤ next.0)) (f.same ∙ wanted-loading tss)
        (returned-below next.0 next.1 r f.knows) in
    let le = updated-below max_ts next.0 tss f.grows below in omega (arith, f.bounded, le)

loading-returns :
    (max_ts ts : ℕ) → All IsReturned (interleave max_ts (loading ts ∷ []) (0 ∷ 0 ∷ [])).1
unfolding interleave step_at step IsReturned
loading-returns max_ts ts = elim (Bool-cases (leb ts max_ts)) [
  | inl e ↦ rw e (tt, tt)
  | inr e ↦ rw (e, (==_iff max_ts max_ts).1 refl) (tt, tt)
]

-- A call of `UpdateMaxTS` that runs alone returns within three steps, from wherever it stands.
pub alone-returns :
    (max_ts : ℕ) (c : Call) → All IsReturned (interleave max_ts (c ∷ []) (0 ∷ 0 ∷ 0 ∷ [])).1
unfolding interleave step_at step IsReturned
alone-returns max_ts (loading ts) = elim (Bool-cases (leb ts max_ts)) [
  | inl e ↦ rw e (tt, tt)
  | inr e ↦ rw (e, (==_iff max_ts max_ts).1 refl) (tt, tt)
]
alone-returns max_ts (swapping ts current) = elim (Bool-cases (max_ts == current)) [
  | inl e ↦ rw e (tt, tt)
  | inr e ↦ rw e (loading-returns max_ts ts)
]
alone-returns max_ts (returned ts) = (tt, tt)
