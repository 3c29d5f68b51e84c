-- ===== src/Mvcc/Versions/Keys.antt =====
-- The user keys of the versions, each once, and what a timestamp reads of them.
use gookv.Prelude.{
  ℕ, ◌≡◌, refl, ap, ◌∙◌, Bool, true, false, ◌||◌, Option, none, some, List, [], ◌∷◌, ◌++◌, leb,
  if◌then◌else◌, arith, Ordering, All, Bool-cases, All-imp, inl, inr, length, ◌≤◌,
}
use gookv.Prelude.Order.{
  compare_bytes, equal_bytes, eq_of_equal_bytes, eq_of_compare_bytes, compare_bytes_self,
  compare_bytes-flip, compare_bytes_trans,
}
use gookv.TxnTypes.Write.{Write}
use gookv.Mvcc.Versions.{Version, position, precedes, IsSorted, versions_from}
use gookv.Mvcc.Versions.Visible.{visible_versions, latest_put}

pub IsSorted-append_right : (xs ys : List Version) → IsSorted (xs ++ ys) → IsSorted ys
IsSorted-append_right [] ys h = h
IsSorted-append_right (x ∷ xs) ys h = IsSorted-append_right xs ys h.1

-- The versions behind those of a key at the front.
unfoldable pub after_key : List Version → List ℕ → List Version
after_key [] key = []
after_key (v ∷ vs) key =
    let rest = after_key vs key in if equal_bytes v.key key then rest else v ∷ vs

abbrev pub starts_with : List Version → List ℕ → Bool
starts_with [] key = false
starts_with (v ∷ vs) key = equal_bytes v.key key

-- The keys of a sorted list, each once: those of the oldest versions.
unfoldable pub keys_of : List Version → List (List ℕ)
keys_of [] = []
keys_of (v ∷ vs) = let rest = keys_of vs in if starts_with vs v.key then rest else v.key ∷ rest

abbrev pub Reader : Type 0
Reader = List ℕ → Option (Write × ℕ)

-- The keys at which a reader finds a record, with the record.
unfoldable pub readable : Reader → List (List ℕ) → List (List ℕ × (Write × ℕ))
readable read [] = []
readable read (k ∷ ks) =
    let rest = readable read ks in elim (read k) [ none ↦ rest | some found ↦ (k, found) ∷ rest ]

abbrev pub reader_at : List Version → ℕ → Reader
reader_at vs ts key = latest_put (visible_versions vs key ts)

-- The oldest version of every key is seen.
abbrev pub OldestSeen : ℕ → List Version → Type 0
OldestSeen ts [] = Unit
OldestSeen ts (v ∷ vs) = ((starts_with vs v.key || leb v.commit_ts ts) ≡ true) × OldestSeen ts vs

pub OldestSeen-starts_with :
    (v : Version) (vs : List Version) (key : List ℕ) (ts : ℕ)
    → v.key ≡ key
    → OldestSeen ts (v ∷ vs)
    → starts_with (versions_from (v ∷ vs) key ts) key ≡ true
unfolding versions_from
OldestSeen-starts_with v [] key ts k o = ground (arith, compare_bytes_self key)
OldestSeen-starts_with v (w ∷ ws) key ts k o = elim (Bool-cases (leb v.commit_ts ts)) [
  | inl old ↦ ground (arith, compare_bytes_self key)
  | inr new ↦
      let same : equal_bytes w.key v.key ≡ true = ground arith in
      let p : precedes v key ts ≡ true = ground (arith, compare_bytes_self key) in
      rw p (OldestSeen-starts_with w ws key ts (eq_of_equal_bytes w.key v.key same ∙ k) o.1)
]

pub OldestSeen-after_key :
    (vs : List Version) (key : List ℕ) (ts : ℕ)
    → OldestSeen ts vs
    → OldestSeen ts (after_key vs key)
unfolding after_key
OldestSeen-after_key [] key ts o = tt
OldestSeen-after_key (v ∷ vs) key ts o = elim (Bool-cases (equal_bytes v.key key)) [
  | inl same ↦ rw (same, after_key) (OldestSeen-after_key vs key ts o.1)
  | inr other ↦ rw (other, after_key) o
]

pub All-after_key :
    (P : Version → Type 0) (vs : List Version) (key : List ℕ) → All P vs → All P (after_key vs key)
unfolding after_key
All-after_key P [] key a = tt
All-after_key P (v ∷ vs) key a = elim (Bool-cases (equal_bytes v.key key)) [
  | inl same ↦ rw (same, after_key) (All-after_key P vs key a.1)
  | inr other ↦ rw (other, after_key) a
]

pub length-after_key : (vs : List Version) (key : List ℕ) → length (after_key vs key) ≤ length vs
unfolding after_key
length-after_key [] key = omega arith
length-after_key (v ∷ vs) key = ground (arith, length-after_key vs key)

-- Behind the versions of the first key come only larger keys.
abbrev pub AllGreater : List ℕ → List Version → Type 0
AllGreater key vs = All (λ w. compare_bytes w.key key ≡ Ordering.gt) vs

greater-behind :
    (v : Version) (vs : List Version) (key : List ℕ)
    → compare_bytes v.key key ≡ Ordering.gt
    → All (λ w. position v w.key w.commit_ts ≡ Ordering.lt) vs
    → AllGreater key vs
greater-behind v [] key g s = tt
greater-behind v (w ∷ ws) key g s = (
  ground (
    arith,
    compare_bytes_trans key v.key w.key,
    eq_of_compare_bytes v.key w.key,
    compare_bytes-flip v.key key,
    compare_bytes-flip w.key key,
  ),
  greater-behind v ws key g s.1,
)

pub after_key-AllGreater :
    (v : Version) (vs : List Version) (key : List ℕ)
    → v.key ≡ key
    → All (λ w. position v w.key w.commit_ts ≡ Ordering.lt) vs
    → IsSorted vs
    → AllGreater key (after_key vs key)
unfolding after_key
after_key-AllGreater v [] key k b s = tt
after_key-AllGreater v (w ∷ ws) key k b s = elim (Bool-cases (equal_bytes w.key key)) [
  | inl same ↦ rw (same, after_key) (after_key-AllGreater v ws key k b.1 s.1)
  | inr other ↦
      let g : compare_bytes w.key key ≡ Ordering.gt =
        ground (arith, compare_bytes-flip v.key w.key) in
      rw (other, after_key) (g, greater-behind w ws key g s.0)
]

keys_of-AllGreater :
    (vs : List Version) (key : List ℕ)
    → AllGreater key vs
    → All (λ k. compare_bytes k key ≡ Ordering.gt) (keys_of vs)
unfolding keys_of
keys_of-AllGreater [] key g = tt
keys_of-AllGreater (v ∷ vs) key g = elim (Bool-cases (starts_with vs v.key)) [
  | inl same ↦ rw (same, keys_of) (keys_of-AllGreater vs key g.1)
  | inr other ↦ rw (other, keys_of) (g.0, keys_of-AllGreater vs key g.1)
]

pub keys_of-after_key :
    (v : Version) (vs : List Version) (key : List ℕ)
    → v.key ≡ key
    → keys_of (v ∷ vs) ≡ key ∷ keys_of (after_key vs key)
unfolding keys_of after_key
keys_of-after_key v [] key k = ap (λ x. x ∷ []) k
keys_of-after_key v (w ∷ ws) key k = elim (Bool-cases (equal_bytes w.key key)) [
  | inl same ↦
      let same' : equal_bytes w.key v.key ≡ true = ground arith in
      rw (same, same', keys_of, after_key)
        (keys_of-after_key w ws key (eq_of_equal_bytes w.key key same))
  | inr other ↦
      let other' : equal_bytes w.key v.key ≡ false = ground arith in
      rw (other, other', keys_of, after_key) (ap (λ x. x ∷ keys_of (w ∷ ws)) k)
]

pub after_key-first :
    (v : Version) (vs : List Version) (key : List ℕ)
    → v.key ≡ key
    → after_key (v ∷ vs) key ≡ after_key vs key
unfolding after_key
after_key-first v vs key k = ground (arith, compare_bytes_self key)

pub visible-after_key :
    (vs : List Version) (key k : List ℕ) (ts : ℕ)
    → equal_bytes key k ≡ false
    → visible_versions vs k ts ≡ visible_versions (after_key vs key) k ts
unfolding visible_versions after_key
visible-after_key [] key k ts g = refl
visible-after_key (v ∷ vs) key k ts g = elim (Bool-cases (equal_bytes v.key key)) [
  | inl same ↦
      let other : equal_bytes v.key k ≡ false =
        ap (λ x. equal_bytes x k) (eq_of_equal_bytes v.key key same) ∙ g in
      rw (same, other, after_key, visible_versions) (visible-after_key vs key k ts g)
  | inr other ↦ rw (other, after_key) refl
]

pub readable-congr :
    (r q : Reader) (ks : List (List ℕ)) → All (λ k. r k ≡ q k) ks → readable r ks ≡ readable q ks
unfolding readable
readable-congr r q [] h = refl
readable-congr r q (k ∷ ks) h =
    rw (readable, h.0)
      (ap (λ rest. elim (q k) [ none ↦ rest | some found ↦ (k, found) ∷ rest ])
        (readable-congr r q ks h.1))

-- The readable keys are the first key, if it is readable, and those behind its versions.
pub readable-after_key :
    (v : Version) (vs : List Version) (ts : ℕ)
    → IsSorted (v ∷ vs)
    → let rest = readable (reader_at (after_key vs v.key) ts) (keys_of (after_key vs v.key)) in
      readable (reader_at (v ∷ vs) ts) (keys_of (v ∷ vs))
      ≡ elim (reader_at (v ∷ vs) ts v.key) [ none ↦ rest | some found ↦ (v.key, found) ∷ rest ]
unfolding readable
readable-after_key v vs ts s =
    let g = after_key-AllGreater v vs v.key refl s.0 s.1 in
    rw (keys_of-after_key v vs v.key refl) (
      ap
        (λ rest. elim (reader_at (v ∷ vs) ts v.key) [
          | none ↦ rest
          | some found ↦ (v.key, found) ∷ rest
        ])
        (readable-congr (reader_at (v ∷ vs) ts) (reader_at (after_key vs v.key) ts)
          (keys_of (after_key vs v.key))
          (All-imp
            (λ k q. ap latest_put (
              visible-after_key (v ∷ vs) v.key k ts (ground (arith, q, compare_bytes-flip k v.key))
              ∙ ap (λ (l : List Version). visible_versions l k ts)
                  (after_key-first v vs v.key refl)))
            (keys_of (after_key vs v.key)) (keys_of-AllGreater (after_key vs v.key) v.key g))))
