-- ===== src/Txn/Pessimistic/Released.antt =====
-- The loop that releases pessimistic locks.
use gookv.Prelude.{
  some, sym, ◌⊎◌, ℕ, ◌≡◌, refl, ◌∙◌, ap, Bool, true, false, ◌&&◌, ◌||◌, Option, none, List, [], ◌∷◌,
  if◌then◌else◌, arith, ok, err, Result, Result-cases, Bool-cases, inl, inr,
}
use gookv.Prelude.Order.{equal_bytes, equal_bytes_self, eq_of_equal_bytes}
use gookv.TxnTypes.Lock.{Lock}
use gookv.Mvcc.Key.{encode_lock_key}
use gookv.Mvcc.Snapshot.{Snapshot}
use gookv.Mvcc.Txn.{MvccTxn, new_mvcc_txn, unlock_key, delete, cf_lock}
use gookv.Mvcc.Txn.Apply.{apply, apply_all, apply_all-snoc}
use gookv.Mvcc.Reader.{load_lock}
use gookv.Mvcc.Reader.Locks.{load_lock-delete}
use gookv.Txn.Pessimistic.{should_roll_back, pessimistic_rollback_key, pessimistic_rollback}

-- A lock as the rollback judges it; an unreadable lock stays.
abbrev released_at : Result (Option Lock) → ℕ → ℕ → Bool
released_at (ok lock) start_ts for_update_ts = should_roll_back lock start_ts for_update_ts
released_at (err e) start_ts for_update_ts = false

-- One of the keys is `j` and has a lock that the rollback removes.
unfoldable pub is_released : Snapshot → List (List ℕ) → ℕ → ℕ → List ℕ → Bool
is_released s [] start_ts for_update_ts j = false
is_released s (key ∷ keys) start_ts for_update_ts j =
    is_released s keys start_ts for_update_ts j
    || (equal_bytes key j && released_at (load_lock s key) start_ts for_update_ts)

unlocked-snoc :
    (s : Snapshot) (txn : MvccTxn) (key : List ℕ)
    → apply_all s (unlock_key txn key true).0.modifies
      ≡ apply (apply_all s txn.modifies) (delete cf_lock (encode_lock_key key))
unfolding unlock_key
unlocked-snoc s txn key = apply_all-snoc s txn.modifies (delete cf_lock (encode_lock_key key))

load_lock-unlocked :
    (s : Snapshot) (txn : MvccTxn) (key j : List ℕ)
    → load_lock (apply_all s (unlock_key txn key true).0.modifies) j
      ≡ (if equal_bytes key j then ok none else load_lock (apply_all s txn.modifies) j)
load_lock-unlocked s txn key j =
    ap (λ t. load_lock t j) (unlocked-snoc s txn key)
    ∙ load_lock-delete (apply_all s txn.modifies) key j

load_lock-rollback_key :
    (s : Snapshot) (txn : MvccTxn) (key j : List ℕ) (start_ts for_update_ts : ℕ)
    → load_lock
        (apply_all s (pessimistic_rollback_key txn s key start_ts for_update_ts).1.modifies)
        j
      ≡ (if equal_bytes key j && released_at (load_lock s key) start_ts for_update_ts
          then ok none
          else load_lock (apply_all s txn.modifies) j)
unfolding pessimistic_rollback_key
load_lock-rollback_key s txn key j start_ts for_update_ts = elim (Result-cases (load_lock s key)) [
  | inl (lock, e) ↦ rw e (elim (Bool-cases (should_roll_back lock start_ts for_update_ts)) [
    | inl go ↦ rw go (ground (arith, load_lock-unlocked s txn key j))
    | inr stay ↦ rw stay (ground arith)
  ])
  | inr (x, e) ↦ rw e (ground arith)
]

load_lock-rollback :
    (s : Snapshot) (txn : MvccTxn) (keys : List (List ℕ)) (start_ts for_update_ts : ℕ) (j : List ℕ)
    → load_lock (apply_all s (pessimistic_rollback txn s keys start_ts for_update_ts).1.modifies) j
      ≡ (if is_released s keys start_ts for_update_ts j
          then ok none
          else load_lock (apply_all s txn.modifies) j)
unfolding pessimistic_rollback is_released
load_lock-rollback s txn [] start_ts for_update_ts j = refl
load_lock-rollback s txn (key ∷ keys) start_ts for_update_ts j =
    let first = (pessimistic_rollback_key txn s key start_ts for_update_ts).1 in
    let rest = load_lock-rollback s first keys start_ts for_update_ts j in
    let here = load_lock-rollback_key s txn key j start_ts for_update_ts in
    rest ∙ rw here (ground arith)

delete_lock-cf_write :
    (s : Snapshot) (key : List ℕ) → (apply s (delete cf_lock key)).cf_write ≡ s.cf_write
unfolding apply
delete_lock-cf_write s key = refl

rollback_key-eq :
    (s : Snapshot) (txn : MvccTxn) (key : List ℕ) (start_ts for_update_ts : ℕ)
    → (pessimistic_rollback_key txn s key start_ts for_update_ts).1 ≡ (
        if released_at (load_lock s key) start_ts for_update_ts
        then (unlock_key txn key true).0
        else txn)
unfolding pessimistic_rollback_key
rollback_key-eq s txn key start_ts for_update_ts = ground arith

cf_write-rollback_key :
    (s : Snapshot) (txn : MvccTxn) (key : List ℕ) (start_ts for_update_ts : ℕ)
    → (apply_all s (pessimistic_rollback_key txn s key start_ts for_update_ts).1.modifies).cf_write
      ≡ (apply_all s txn.modifies).cf_write
cf_write-rollback_key s txn key start_ts for_update_ts =
    rw (rollback_key-eq s txn key start_ts for_update_ts)
      (elim (Bool-cases (released_at (load_lock s key) start_ts for_update_ts)) [
        | inl go ↦
            rw (go, unlocked-snoc s txn key)
              (delete_lock-cf_write (apply_all s txn.modifies) (encode_lock_key key))
        | inr stay ↦ rw stay refl
      ])

cf_write-rollback :
    (s : Snapshot) (txn : MvccTxn) (keys : List (List ℕ)) (start_ts for_update_ts : ℕ)
    → (apply_all s (pessimistic_rollback txn s keys start_ts for_update_ts).1.modifies).cf_write
      ≡ (apply_all s txn.modifies).cf_write
unfolding pessimistic_rollback
cf_write-rollback s txn [] start_ts for_update_ts = refl
cf_write-rollback s txn (key ∷ keys) start_ts for_update_ts =
    cf_write-rollback s (pessimistic_rollback_key txn s key start_ts for_update_ts).1 keys start_ts
      for_update_ts
    ∙ cf_write-rollback_key s txn key start_ts for_update_ts

-- A pessimistic lock of the transaction, with this `for_update_ts`, or any where this is 0.
pub record IsOurs (lock : Lock) (start_ts for_update_ts : ℕ) : Type 0 where
  pub start_ts_is : lock.start_ts ≡ start_ts
  pub pessimistic : lock.lock_type ≡ b'S'
  pub for_update_ts_is : (for_update_ts ≡ 0) ⊎ (lock.for_update_ts ≡ for_update_ts)

unfoldable pub IsAmong : List ℕ → List (List ℕ) → Type 0
IsAmong j [] = ⊥
IsAmong j (key ∷ keys) = (key ≡ j) ⊎ IsAmong j keys

-- The key is listed, and has such a lock.
abbrev pub IsToRelease : Snapshot → List (List ℕ) → ℕ → ℕ → List ℕ → Type 0
IsToRelease s keys start_ts for_update_ts j =
    IsAmong j keys
    × ((lock : Lock) × (load_lock s j ≡ ok (some lock)) × IsOurs lock start_ts for_update_ts)

both_left : (a b c : Bool) → c ≡ false → (c || (a && b)) ≡ true → a ≡ true
both_left a b c p q = ground (arith, p, q)

both_right : (a b c : Bool) → c ≡ false → (c || (a && b)) ≡ true → b ≡ true
both_right a b c p q = ground (arith, p, q)

or_true : (a : Bool) → (a || true) ≡ true
or_true true = refl
or_true false = refl

not_both : (b : Bool) → b ≡ true → b ≡ false → ⊥
not_both b p q = ground (arith, p, q)

released_at-IsOurs :
    (o : Result (Option Lock)) (start_ts for_update_ts : ℕ)
    → released_at o start_ts for_update_ts ≡ true
    → (lock : Lock) × (o ≡ ok (some lock)) × IsOurs lock start_ts for_update_ts
unfolding should_roll_back
released_at-IsOurs (err e) start_ts for_update_ts p = ground arith
released_at-IsOurs (ok none) start_ts for_update_ts p = ground arith
released_at-IsOurs (ok (some lock)) start_ts for_update_ts p = (
  lock,
  refl,
  record {
    start_ts_is = ground arith;
    pessimistic = ground arith;
    for_update_ts_is = ground arith;
  },
)

IsOurs-released_at :
    (o : Result (Option Lock)) (lock : Lock) (start_ts for_update_ts : ℕ)
    → o ≡ ok (some lock)
    → IsOurs lock start_ts for_update_ts
    → released_at o start_ts for_update_ts ≡ true
unfolding should_roll_back
IsOurs-released_at o lock start_ts for_update_ts e h =
    rw (e, h.start_ts_is, h.pessimistic) (ground (arith, h.for_update_ts_is))

is_released_sound :
    (s : Snapshot) (keys : List (List ℕ)) (start_ts for_update_ts : ℕ) (j : List ℕ)
    → is_released s keys start_ts for_update_ts j ≡ true
    → IsToRelease s keys start_ts for_update_ts j
unfolding is_released IsAmong
is_released_sound s [] start_ts for_update_ts j p = ground arith
is_released_sound s (key ∷ keys) start_ts for_update_ts j p =
    elim (Bool-cases (is_released s keys start_ts for_update_ts j)) [
      | inl later ↦
          let (among, ours) = is_released_sound s keys start_ts for_update_ts j later in
          (inr among, ours)
      | inr here ↦
          let e = eq_of_equal_bytes key j (both_left (equal_bytes key j) _ _ here p) in
          (
            inl e,
            released_at-IsOurs (load_lock s j) start_ts for_update_ts (
                ap (λ k. released_at (load_lock s k) start_ts for_update_ts) (sym e)
                ∙ both_right (equal_bytes key j) _ _ here p),
          )
    ]

is_released_complete :
    (s : Snapshot) (keys : List (List ℕ)) (start_ts for_update_ts : ℕ) (j : List ℕ)
    → IsAmong j keys
    → released_at (load_lock s j) start_ts for_update_ts ≡ true
    → is_released s keys start_ts for_update_ts j ≡ true
unfolding is_released IsAmong
is_released_complete s [] start_ts for_update_ts j a r = elim a [ ]
is_released_complete s (key ∷ keys) start_ts for_update_ts j (inl e) r =
    rw (e, equal_bytes_self j, r) (or_true (is_released s keys start_ts for_update_ts j))
is_released_complete s (key ∷ keys) start_ts for_update_ts j (inr a) r =
    rw (is_released_complete s keys start_ts for_update_ts j a r) refl

-- Pessimistic rollback of a list of keys, in the store afterwards: a key that is one of the list, and
-- whose lock is a pessimistic lock of the transaction with the given `for_update_ts`, or any where
-- this is 0, has lost its lock; every other key has the lock it had; and no record is written.
pub pessimistic_rollback_releases :
    (s : Snapshot) (keys : List (List ℕ)) (start_ts for_update_ts : ℕ) (j : List ℕ)
    → ((IsToRelease s keys start_ts for_update_ts j
          × (load_lock
                (apply_all s
                  (pessimistic_rollback
                    (new_mvcc_txn start_ts)
                    s
                    keys
                    start_ts
                    for_update_ts).1.modifies)
                j
              ≡ ok none))
        ⊎ ((¬ IsToRelease s keys start_ts for_update_ts j)
            × (load_lock
                  (apply_all s
                    (pessimistic_rollback
                      (new_mvcc_txn start_ts)
                      s
                      keys
                      start_ts
                      for_update_ts).1.modifies)
                  j
                ≡ load_lock s j)))
      × ((apply_all s
            (pessimistic_rollback
              (new_mvcc_txn start_ts)
              s
              keys
              start_ts
              for_update_ts).1.modifies).cf_write
          ≡ s.cf_write)
unfolding new_mvcc_txn apply_all
pessimistic_rollback_releases s keys start_ts for_update_ts j =
    let after = load_lock-rollback s (new_mvcc_txn start_ts) keys start_ts for_update_ts j in
    let chosen : Bool → Result (Option Lock) = λ b. if b then ok none else load_lock s j in
    (
      elim (Bool-cases (is_released s keys start_ts for_update_ts j)) [
        | inl go ↦ inl (is_released_sound s keys start_ts for_update_ts j go, after ∙ ap chosen go)
        | inr stay ↦ inr (
          λ h.
              let (among, held) = h in
              let (lock, e, ours) = held in
              not_both _
                (is_released_complete s keys start_ts for_update_ts j among
                  (IsOurs-released_at (load_lock s j) lock start_ts for_update_ts e ours))
                stay,
          after ∙ ap chosen stay,
        )
      ],
      cf_write-rollback s (new_mvcc_txn start_ts) keys start_ts for_update_ts,
    )
