-- ===== src/Latch/Deadlock.antt =====
-- Which commands wait for which others.
use gookv.Prelude.{
  ℕ, zero, suc, ◌<◌, ◌≡◌, ◌≢◌, Option, none, some, List, [], ◌∷◌, All, In, take, drop, arith, inl,
  inr,
}
use gookv.Latch.{Lock}
use gookv.Latch.Steps.{State, Reachable, IsConsistent, Reachable-IsConsistent}
use gookv.Latch.Order.{IsAscending}

-- The slot that a command needs next: the one that `Acquire` stops at.
unfoldable first : List ℕ → Option ℕ
first [] = none
first (h ∷ hs) = some h

unfoldable pub next_hash : Lock → Option ℕ
unfolding first
next_hash lock = first (drop lock.owned_count lock.required_hashes)

-- A command waits for the owner of the slot that it needs next, and for all that that one waits for.
pub data Waits (s : State) : ℕ → ℕ → Type 0 where
  on : {c d h : ℕ} → next_hash (s.locks c) ≡ some h → (s.slots h).owner ≡ d → d ≢ 0 → Waits s c d
  through : {c d e : ℕ} → Waits s c d → Waits s d e → Waits s c e

All-In : (x h : ℕ) (xs : List ℕ) → All (λ y. x < y) xs → In h xs → x < h
All-In x h [] a i = absurd i
All-In x h (y ∷ ys) a (inl e) = omega (arith, a.0, e)
All-In x h (y ∷ ys) a (inr i) = All-In x h ys a.1 i

first-In : (hs : List ℕ) (h : ℕ) → first hs ≡ some h → In h hs
unfolding first
first-In [] h e = ground (arith, e)
first-In (x ∷ xs) h e = inl (ground (arith, e))

In-drop : (n : ℕ) (xs : List ℕ) (h : ℕ) → In h (drop n xs) → In h xs
In-drop zero xs h i = i
In-drop (suc n) [] h i = absurd i
In-drop (suc n) (x ∷ xs) h i = inr (In-drop n xs h i)

-- What stands in front of a position is smaller than what stands at it.
taken-lt :
    (n : ℕ) (xs : List ℕ) (h k : ℕ) → IsAscending xs → In h (take n xs) → In k (drop n xs) → h < k
taken-lt zero xs h k a i j = absurd i
taken-lt (suc n) [] h k a i j = absurd i
taken-lt (suc n) (x ∷ xs) h k a (inl e) j = omega (arith, e, All-In x k xs a.0 (In-drop n xs k j))
taken-lt (suc n) (x ∷ xs) h k a (inr i) j = taken-lt n xs h k a.1 i j

Waits-next : {s : State} {c d : ℕ} → Waits s c d → (h : ℕ) × (next_hash (s.locks c) ≡ some h)
Waits-next (on {h = h} e o z) = (h, e)
Waits-next (through w v) = Waits-next w

-- Along a wait the slots that are needed next grow.
Waits-lt :
    {s : State} {c d : ℕ} (h k : ℕ)
    → IsConsistent s
    → Waits s c d
    → next_hash (s.locks c) ≡ some h
    → next_hash (s.locks d) ≡ some k
    → h < k
unfolding next_hash
Waits-lt {s} {c} {d} h k i (on {h = j} e o z) p q =
    let same : j ≡ h = ground (arith, e, p) in
    taken-lt (s.locks d).owned_count (s.locks d).required_hashes h k (i.ascending d)
      ((i.owns d z).only h (rw same at o)) (first-In _ k q)
Waits-lt h k i (through w v) p q =
    let m = Waits-next v in
    let low = Waits-lt h m.0 i w p m.1 in
    let high = Waits-lt m.0 k i v m.1 q in omega (arith, low, high)

-- In every state that is reached from free slots by generating locks, acquiring and releasing, in
-- any order, no command waits for itself, directly or through others.
pub no_deadlock : (s : State) (c : ℕ) → Reachable s → ¬ Waits s c c
no_deadlock s c r w =
    let m = Waits-next w in
    let less = Waits-lt m.0 m.0 (Reachable-IsConsistent r) w m.1 m.1 in absurd (omega (arith, less))
