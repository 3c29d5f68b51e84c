-- ===== src/Txn/Concurrency/MinLock.antt =====
-- `GlobalMinLock` of internal/storage/txn/concurrency/manager.go.
use gookv.Prelude.{
  ℕ, ◌≤◌, ◌≡◌, refl, List, [], ◌∷◌, none, some, ltb, arith, Bool-cases, inl, inr, ◌⊎◌, sym,
}
use gookv.Prelude.Order.{equal_bytes, equal_bytes_self}
use gookv.Txn.Concurrency.{
  LockHandle, Manager, delete, load, lock_key, release, is_key_locked, lower, range_min,
  global_min_lock,
}

-- A lock of the table has this start timestamp.
unfoldable pub Has : ℕ → List (List ℕ × LockHandle) → Type 0
Has start_ts [] = ⊥
Has start_ts ((k, handle) ∷ rest) = (handle.start_ts ≡ start_ts) ⊎ Has start_ts rest

unfoldable pub AllFrom : ℕ → List (List ℕ × LockHandle) → Type 0
AllFrom start_ts [] = Unit
AllFrom start_ts ((k, handle) ∷ rest) = (start_ts ≤ handle.start_ts) × AllFrom start_ts rest

AllFrom-le :
    (a b : ℕ) (table : List (List ℕ × LockHandle)) → a ≤ b → AllFrom b table → AllFrom a table
unfolding AllFrom
AllFrom-le a b [] p h = tt
AllFrom-le a b ((k, handle) ∷ rest) p h = (omega (arith, h.0), AllFrom-le a b rest p h.1)

-- A start timestamp that is the first lock's or a later one's is in the table.
Has-first :
    {t : ℕ} (k : List ℕ) (handle : LockHandle) (rest : List (List ℕ × LockHandle))
    → (t ≡ handle.start_ts) ⊎ Has t rest
    → Has t ((k, handle) ∷ rest)
unfolding Has
Has-first k handle rest (inl e) = inl (sym e)
Has-first k handle rest (inr h) = inr h

Has-later :
    {t min_ts : ℕ} (k : List ℕ) (handle : LockHandle) (rest : List (List ℕ × LockHandle))
    → (t ≡ min_ts) ⊎ Has t rest
    → (t ≡ min_ts) ⊎ Has t ((k, handle) ∷ rest)
unfolding Has
Has-later k handle rest (inl e) = inl e
Has-later k handle rest (inr h) = inr (inr h)

range_min_lem :
    (min_ts : ℕ) (table : List (List ℕ × LockHandle))
    → (t : ℕ) × (range_min (some min_ts) table ≡ some t)
      × (t ≤ min_ts)
      × AllFrom t table
      × ((t ≡ min_ts) ⊎ Has t table)
unfolding range_min lower Has AllFrom
range_min_lem min_ts [] = (min_ts, refl, omega arith, tt, inl refl)
range_min_lem min_ts ((k, handle) ∷ rest) = elim (Bool-cases (ltb handle.start_ts min_ts)) [
  | inl e ↦
      let (t, f, le, all, has) = range_min_lem handle.start_ts rest in
      rw e (t, f, ground arith, (le, all), inr (Has-first k handle rest has))
  | inr e ↦
      let (t, f, le, all, has) = range_min_lem min_ts rest in
      rw e (t, f, le, (ground arith, all), Has-later k handle rest has)
]

pub delete-load :
    (key : List ℕ) (table : List (List ℕ × LockHandle)) → load key (delete key table) ≡ none
unfolding load delete
delete-load key [] = refl
delete-load key ((k, handle) ∷ rest) = elim (Bool-cases (equal_bytes k key)) [
  | inl e ↦ rw e (delete-load key rest)
  | inr e ↦ rw (e, e) (delete-load key rest)
]

-- After `LockKey` the key is locked at its start timestamp; `GlobalMinLock` gives the least start
-- timestamp of the locks in the table, the new one among them; and the release of the guard unlocks
-- the key.
pub lock_key_protects :
    (m : Manager) (key : List ℕ) (start_ts : ℕ)
    → (is_key_locked (lock_key m key start_ts) key
        ≡ some (record { key = key; start_ts = start_ts }))
      × ((t : ℕ) × (global_min_lock (lock_key m key start_ts) ≡ some t)
          × (t ≤ start_ts)
          × AllFrom t (lock_key m key start_ts).lock_table
          × Has t (lock_key m key start_ts).lock_table)
      × (is_key_locked (release (lock_key m key start_ts) key) key ≡ none)
unfolding is_key_locked lock_key load global_min_lock range_min lower release AllFrom
lock_key_protects m key start_ts =
    let (t, e, le, all, has) = range_min_lem start_ts (delete key m.lock_table) in
    (
      rw (equal_bytes_self key) refl,
      (
        t,
        e,
        le,
        (le, all),
        Has-first key (record { key = key; start_ts = start_ts }) (delete key m.lock_table) has,
      ),
      delete-load key (lock_key m key start_ts).lock_table,
    )
