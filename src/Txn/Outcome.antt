-- ===== src/Txn/Outcome.antt =====
-- The error of an action of internal/storage/txn, as a value. Every action builds its
-- modifications behind its last error, so a failed action has changed nothing.
use gookv.Prelude.{ℕ, List, Result, ok, err, Error}
use gookv.TxnTypes.Lock.{Lock}

pub data TxnError : Type 0 where
  -- an error of the reader
  unreadable : Error → TxnError
  -- KeyLockedError, and ErrKeyIsLocked without the lock
  key_locked : List ℕ → Lock → TxnError
  key_is_locked write_conflict txn_lock_not_found already_committed : TxnError
  commit_ts_less_than_min_commit_ts : TxnError

pub data Outcome {ℓ} (A : Type ℓ) : Type ℓ where
  done : A → Outcome A
  failed : TxnError → Outcome A

infixl 5 ◌>>=◌ ◌>>◌
abbrev pub ◌>>=◌ {ℓ κ} : {A : Type ℓ} {B : Type κ} → Outcome A → (A → Outcome B) → Outcome B
done a >>= f = f a
failed e >>= f = failed e

abbrev pub ◌>>◌ {ℓ} : {B : Type ℓ} → Outcome (Unit {0}) → Outcome B → Outcome B
m >> k = m >>= λ _. k

-- `if err != nil { return err }` behind a call of the reader.
abbrev pub from {ℓ} : {A : Type ℓ} → Result A → Outcome A
from (ok a) = done a
from (err e) = failed (unreadable e)
