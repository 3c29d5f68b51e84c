-- ===== src/Latch/Exclusion.antt =====
-- Mutual exclusion: which slots a command owns, through acquisition and release.
use gookv.Prelude.{
  ℕ, suc, ◌+◌, ◌≤◌, ◌≡◌, ◌≢◌, refl, sym, ap, ◌∙◌, true, ◌||◌, List, [], ◌∷◌, ◌++◌, All, In,
  In-append_left, In-append_last, take, drop, length, ◌==◌, if◌then◌else◌, arith, Bool-cases, inl,
  inr, append-nil, append_assoc, length-append, take-append-drop, length-take, take-length-append,
}
use gookv.Latch.{Slots, Lock, set_slot, acquire_loop, acquire}

-- The command owns the slots of the list and no others.
pub record OwnsExactly (slots : Slots) (id : ℕ) (hs : List ℕ) : Type 0 where
  pub owned : All (λ h. (slots h).owner ≡ id) hs
  pub only : (h : ℕ) → (slots h).owner ≡ id → In h hs

-- The slots of another command stay as they are.
abbrev pub Keeps : Slots → Slots → ℕ → Type 0
Keeps slots slots' d = (h : ℕ) → ((slots' h).owner == d) ≡ ((slots h).owner == d)

take-slot :
    (slots : Slots) (h id : ℕ) (j : ℕ)
    → (set_slot slots h (record (slots h) { owner = id }) j).owner
      ≡ (if h == j then id else (slots j).owner)
unfolding set_slot
take-slot slots h id j = ground arith

All-taken :
    (slots : Slots) (h id : ℕ) (hs : List ℕ)
    → All (λ j. (slots j).owner ≡ id) hs
    → All (λ j. (set_slot slots h (record (slots h) { owner = id }) j).owner ≡ id) (hs ++ (h ∷ []))
All-taken slots h id [] a = (ground (arith, take-slot slots h id h), tt)
All-taken slots h id (j ∷ js) a =
    (ground (arith, take-slot slots h id j, a.0), All-taken slots h id js a.1)

taken-OwnsExactly :
    (slots : Slots) (h id : ℕ) (hs : List ℕ)
    → OwnsExactly slots id hs
    → OwnsExactly (set_slot slots h (record (slots h) { owner = id })) id (hs ++ (h ∷ []))
taken-OwnsExactly slots h id hs o = record {
  owned = All-taken slots h id hs o.owned;
  only = λ j e. elim (Bool-cases (h == j)) [
    | inl same ↦ let eq : h ≡ j = ground (arith, same) in rw (← eq) (In-append_last h hs)
    | inr other ↦
        In-append_left j hs (h ∷ []) (o.only j (ground (arith, take-slot slots h id j, e, other)))
  ];
}

queue-slot :
    (slots : Slots) (h id j : ℕ)
    → (set_slot slots h
        (record (slots h) { wait_queue = (slots h).wait_queue ++ (id ∷ []) })
        j).owner
      ≡ (slots j).owner
unfolding set_slot
queue-slot slots h id j = elim (Bool-cases (h == j)) [
  | inl same ↦
      let eq : h ≡ j = ground (arith, same) in rw (same, set_slot) (ap (λ k. (slots k).owner) eq)
  | inr other ↦ rw (other, set_slot) refl
]

-- Ownership goes over to slots with the same owners.
pub OwnsExactly-Keeps :
    (slots slots' : Slots) (d : ℕ) (hs : List ℕ)
    → Keeps slots slots' d
    → OwnsExactly slots d hs
    → OwnsExactly slots' d hs
OwnsExactly-Keeps slots slots' d hs k o = record {
  owned = all hs o.owned;
  only = λ h e. o.only h (ground (arith, k h, e));
}
  where
    all : (js : List ℕ) → All (λ h. (slots h).owner ≡ d) js → All (λ h. (slots' h).owner ≡ d) js
    all [] a = tt
    all (h ∷ js) a = (ground (arith, k h, a.0), all js a.1)

taken-Keeps :
    (slots : Slots) (h id d : ℕ)
    → d ≢ 0
    → d ≢ id
    → ((slots h).owner == 0 || (slots h).owner == id) ≡ true
    → Keeps slots (set_slot slots h (record (slots h) { owner = id })) d
taken-Keeps slots h id d z n free j = elim (Bool-cases (h == j)) [
  | inl same ↦
      let eq : h ≡ j = ground (arith, same) in
      let owner : (slots h).owner ≡ (slots j).owner = ap (λ k. (slots k).owner) eq in
      ground (arith, take-slot slots h id j, same, owner, free, z, n)
  | inr other ↦ ground (arith, take-slot slots h id j, other)
]

acquire_loop-Keeps :
    (slots : Slots) (hs : List ℕ) (owned id d : ℕ)
    → d ≢ 0
    → d ≢ id
    → Keeps slots (acquire_loop slots hs owned id).0 d
unfolding acquire_loop
acquire_loop-Keeps slots [] owned id d z n j = refl
acquire_loop-Keeps slots (h ∷ hs) owned id d z n j =
    elim (Bool-cases ((slots h).owner == 0 || (slots h).owner == id)) [
      | inl free ↦
          let rest =
            acquire_loop-Keeps (set_slot slots h (record (slots h) { owner = id })) hs (suc owned)
              id d z n j in
          rw (free, acquire_loop) (rest ∙ taken-Keeps slots h id d z n free j)
      | inr busy ↦ rw (busy, acquire_loop) (ap (λ o. o == d) (queue-slot slots h id j))
    ]

-- How far the loop gets: the slots that it takes, and those that are left.
acquire_loop-owns :
    (slots : Slots) (hs : List ℕ) (id : ℕ) (ys : List ℕ) (owned : ℕ)
    → owned ≡ length ys
    → OwnsExactly slots id ys
    → (zs : List ℕ) × (ws : List ℕ) × (hs ≡ zs ++ ws)
      × ((acquire_loop slots hs owned id).1 ≡ length (ys ++ zs))
      × OwnsExactly (acquire_loop slots hs owned id).0 id (ys ++ zs)
      × ((acquire_loop slots hs owned id).2 ≡ (length ws == 0))
unfolding acquire_loop
acquire_loop-owns slots [] id ys owned e o =
    ([], [], refl, rw (append-nil ys) e, rw (append-nil ys) o, refl)
acquire_loop-owns slots (h ∷ hs) id ys owned e o =
    elim (Bool-cases ((slots h).owner == 0 || (slots h).owner == id)) [
      | inl free ↦
          let r =
            acquire_loop-owns (set_slot slots h (record (slots h) { owner = id })) hs id
              (ys ++ (h ∷ [])) (suc owned) (omega (arith, e, length-append ys (h ∷ [])))
              (taken-OwnsExactly slots h id ys o) in
          rw (free, acquire_loop)
            (
              h ∷ r.0,
              r.1,
              ap (◌∷◌ h) r.2,
              rw (append_assoc ys (h ∷ []) r.0) at r.3,
              rw (append_assoc ys (h ∷ []) r.0) at r.4,
              r.5,
            )
      | inr busy ↦
          rw (busy, acquire_loop)
            (
              [],
              h ∷ hs,
              refl,
              rw (append-nil ys) e,
              rw (append-nil ys) (
                  OwnsExactly-Keeps slots
                    (set_slot slots h
                      (record (slots h) { wait_queue = (slots h).wait_queue ++ (id ∷ []) }))
                    id ys (λ j. ap (λ o. o == id) (queue-slot slots h id j)) o),
              ground arith,
            )
    ]

pub acquire-owns :
    (slots : Slots) (lock : Lock) (id : ℕ)
    → lock.owned_count ≤ length lock.required_hashes
    → OwnsExactly slots id (take lock.owned_count lock.required_hashes)
    → OwnsExactly
        (acquire slots lock id).0
        id
        (take (acquire slots lock id).1.owned_count lock.required_hashes)
      × ((acquire slots lock id).2
          ≡ ((acquire slots lock id).1.owned_count == length lock.required_hashes))
      × ((acquire slots lock id).1.owned_count ≤ length lock.required_hashes)
unfolding acquire
acquire-owns slots lock id le o =
    let ys = take lock.owned_count lock.required_hashes in
    let hs = drop lock.owned_count lock.required_hashes in
    let len : length ys ≡ lock.owned_count = length-take lock.owned_count lock.required_hashes le in
    let r = acquire_loop-owns slots hs id ys lock.owned_count (sym len) o in
    let whole : (ys ++ r.0) ++ r.1 ≡ lock.required_hashes =
      append_assoc ys r.0 r.1
      ∙ ap (◌++◌ ys) (sym r.2)
      ∙ take-append-drop lock.owned_count lock.required_hashes in
    let start : take (length (ys ++ r.0)) lock.required_hashes ≡ ys ++ r.0 =
      ap (take (length (ys ++ r.0))) (sym whole) ∙ take-length-append (ys ++ r.0) r.1 in
    let total : length lock.required_hashes ≡ length (ys ++ r.0) + length r.1 =
      ap length (sym whole) ∙ length-append (ys ++ r.0) r.1 in
    (rw (r.3, start) r.4, ground (arith, r.3, r.5, total), omega (arith, r.3, total))

pub acquire-keeps :
    (slots : Slots) (lock : Lock) (id d : ℕ) (ds : List ℕ)
    → d ≢ 0
    → d ≢ id
    → OwnsExactly slots d ds
    → OwnsExactly (acquire slots lock id).0 d ds
unfolding acquire
acquire-keeps slots lock id d ds z n od =
    let hs = drop lock.owned_count lock.required_hashes in
    OwnsExactly-Keeps slots (acquire_loop slots hs lock.owned_count id).0 d ds
      (acquire_loop-Keeps slots hs lock.owned_count id d z n) od

-- If a command owns exactly the first `owned_count` of the slots it requires, then after `Acquire`
-- it does so too, and the call reports success exactly when these are all. What another command
-- owned exactly, it still does.
pub acquire_is_exclusive :
    (slots : Slots) (lock : Lock) (id d : ℕ) (ds : List ℕ)
    → lock.owned_count ≤ length lock.required_hashes
    → OwnsExactly slots id (take lock.owned_count lock.required_hashes)
    → d ≢ 0
    → d ≢ id
    → OwnsExactly slots d ds
    → OwnsExactly
        (acquire slots lock id).0
        id
        (take (acquire slots lock id).1.owned_count lock.required_hashes)
      × ((acquire slots lock id).2
          ≡ ((acquire slots lock id).1.owned_count == length lock.required_hashes))
      × OwnsExactly (acquire slots lock id).0 d ds
acquire_is_exclusive slots lock id d ds le o z n od =
    let own = acquire-owns slots lock id le o in
    (own.0, own.1, acquire-keeps slots lock id d ds z n od)
