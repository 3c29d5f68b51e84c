-- ===== src/Latch/Order.antt =====
-- The order of the slots that a lock requires, and the number of slots.
use Prim.Native.Nat.{bit_and}
use gookv.Prelude.{
  ℕ, zero, suc, ◌+◌, ◌*◌, ◌≤◌, ◌-◌, ◌<◌, ◌≡◌, ◌≢◌, false, List, [], ◌∷◌, All, ltb, arith,
  Bool-cases, inl, inr,
}
use gookv.Latch.{Latches, contains, slot_loop, insert, sort, gen_lock, hash_key, grow, new}

abbrev pub IsAscending : List ℕ → Type 0
IsAscending [] = Unit
IsAscending (x ∷ xs) = All (λ y. x < y) xs × IsAscending xs

abbrev AreDifferent : List ℕ → Type 0
AreDifferent [] = Unit
AreDifferent (x ∷ xs) = All (λ y. x ≢ y) xs × AreDifferent xs

All-insert : (P : ℕ → Type 0) (x : ℕ) (xs : List ℕ) → P x → All P xs → All P (insert x xs)
unfolding insert
All-insert P x [] p ps = (p, tt)
All-insert P x (y ∷ ys) p ps = elim (Bool-cases (ltb x y)) [
  | inl lt ↦ rw (lt, insert) (p, ps)
  | inr ge ↦ rw (ge, insert) (ps.0, All-insert P x ys p ps.1)
]

All-below : (x y : ℕ) (ys : List ℕ) → x < y → All (λ z. y < z) ys → All (λ z. x < z) ys
All-below x y [] lt h = tt
All-below x y (z ∷ zs) lt h = (omega (arith, lt, h.0), All-below x y zs lt h.1)

insert-IsAscending :
    (x : ℕ) (xs : List ℕ) → All (λ y. x ≢ y) xs → IsAscending xs → IsAscending (insert x xs)
unfolding insert
insert-IsAscending x [] n a = (tt, tt)
insert-IsAscending x (y ∷ ys) n a = elim (Bool-cases (ltb x y)) [
  | inl lt ↦
      let less : x < y = ground (arith, lt) in
      rw (lt, insert) ((less, All-below x y ys less a.0), a)
  | inr ge ↦
      let less : y < x = ground (arith, ge, n.0) in
      rw (ge, insert) (All-insert (λ z. y < z) x ys less a.0, insert-IsAscending x ys n.1 a.1)
]

All-sort : (P : ℕ → Type 0) (xs : List ℕ) → All P xs → All P (sort xs)
unfolding sort
All-sort P [] h = tt
All-sort P (x ∷ xs) h = All-insert P x (sort xs) h.0 (All-sort P xs h.1)

sort-IsAscending : (xs : List ℕ) → AreDifferent xs → IsAscending (sort xs)
unfolding sort
sort-IsAscending [] d = tt
sort-IsAscending (x ∷ xs) d =
    insert-IsAscending x (sort xs) (All-sort (λ y. x ≢ y) xs d.0) (sort-IsAscending xs d.1)

not-contained : (xs : List ℕ) (x : ℕ) → contains xs x ≡ false → All (λ y. x ≢ y) xs
unfolding contains
not-contained [] x h = tt
not-contained (y ∷ ys) x h = (ground (arith, h), not-contained ys x (ground (arith, h)))

slot_loop-AreDifferent :
    (size : ℕ) (keys : List (List ℕ)) (hashes : List ℕ)
    → AreDifferent hashes
    → AreDifferent (slot_loop size keys hashes)
unfolding slot_loop
slot_loop-AreDifferent size [] hashes d = d
slot_loop-AreDifferent size (key ∷ keys) hashes d =
    let slot_idx = bit_and (hash_key key) (size - 1) in
    elim (Bool-cases (contains hashes slot_idx)) [
      | inl seen ↦ rw (seen, slot_loop) (slot_loop-AreDifferent size keys hashes d)
      | inr unseen ↦
          rw (unseen, slot_loop)
            (slot_loop-AreDifferent size keys (slot_idx ∷ hashes)
              (not-contained hashes slot_idx unseen, d))
    ]

pub gen_lock-IsAscending :
    (l : Latches) (keys : List (List ℕ)) → IsAscending (gen_lock l keys).required_hashes
unfolding gen_lock
gen_lock-IsAscending l keys =
    sort-IsAscending (slot_loop l.size keys []) (slot_loop-AreDifferent l.size keys [] tt)

-- `slot_count` rounds of doubling are enough.
grow-enough :
    (fuel size slot_count : ℕ)
    → 1 ≤ size
    → slot_count ≤ size + fuel
    → slot_count ≤ grow fuel size slot_count
unfolding grow
grow-enough zero size n p q = omega (arith, q)
grow-enough (suc fuel) size n p q = elim (Bool-cases (ltb size n)) [
  | inl more ↦
      rw (more, grow) (grow-enough fuel (size * 2) n (omega (arith, p)) (omega (arith, p, q)))
  | inr done ↦ rw (done, grow) (ground (arith, done))
]

-- `New` rounds the number of slots up, so there are at least as many as asked for.
pub new-size : (slot_count : ℕ) → slot_count ≤ (new slot_count).size
unfolding new
new-size n = grow-enough n 1 n (omega arith) (omega arith)
