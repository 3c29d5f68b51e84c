-- ===== src/TxnTypes/Lock/Fields.antt =====
-- The readers of the optional fields of a lock.
use gookv.Prelude.{
  ℕ, zero, suc, ◌≡◌, refl, true, List, [], ◌∷◌, ◌++◌, length, ok, err, ◌>>=◌, append_assoc, ◌==◌,
  if◌then◌else◌, unknown_lock_tag, Result, All,
}
use gookv.TxnTypes.Wire.{read_uint64_be, read_var_bytes}
use gookv.TxnTypes.Wire.Fields.{IsReader, Shrinks}
use gookv.TxnTypes.Wire.Reading.{
  >>=-Shrinks, if-Shrinks, ok-Shrinks, read_varint-Shrinks, read_uint64_be-Shrinks,
  read_short_value-Shrinks, split_at-Shrinks,
}
use gookv.TxnTypes.Write.Fields.{read_last_change-Shrinks}
use gookv.TxnTypes.Lock.{
  Lock, read_field, read_each, read_counted, append_each, tag_generation, tag_pessim_conflict,
}

-- Reading a counted list gives back what was appended element by element.
pub read_each-append_each :
    {A : Type 0} (r : List ℕ → Result (A × List ℕ)) (f : A → List ℕ) (P : A → Type 0)
    → ((a : A) (xs : List ℕ) → P a → r (f a ++ xs) ≡ ok (a, xs))
    → (as' : List A) (xs : List ℕ) → All P as'
    → read_each r (length as') (append_each f as' ++ xs) ≡ ok (as', xs)
unfolding read_each append_each
read_each-append_each r f P back [] xs h = refl
read_each-append_each r f P back (a ∷ rest) xs h = simp (
  append_assoc,
  back a (append_each f rest ++ xs) h.0,
  read_each-append_each r f P back rest xs h.1,
)

read_each-Shrinks :
    {A : Type 0} (r : List ℕ → Result (A × List ℕ))
    → ((bytes : List ℕ) → Shrinks (r bytes) bytes)
    → (count : ℕ) (bytes : List ℕ) → Shrinks (read_each r count bytes) bytes
unfolding read_each
read_each-Shrinks r p zero bytes = ok-Shrinks [] bytes
read_each-Shrinks r p (suc count) bytes = >>=-Shrinks (r bytes) bytes _ (p bytes) λ a rest.
    >>=-Shrinks _ rest _ (read_each-Shrinks r p count rest) λ more rest'. ok-Shrinks _ rest'

read_counted-Shrinks :
    {A : Type 0} (r : List ℕ → Result (A × List ℕ))
    → ((bytes : List ℕ) → Shrinks (r bytes) bytes)
    → (bytes : List ℕ) → Shrinks (read_counted r bytes) bytes
unfolding read_counted
read_counted-Shrinks r p bytes =
    >>=-Shrinks _ bytes _ (read_varint-Shrinks bytes) λ count rest. read_each-Shrinks r p count rest

pub read_var_bytes-Shrinks : (bytes : List ℕ) → Shrinks (read_var_bytes bytes) bytes
unfolding read_var_bytes
read_var_bytes-Shrinks bytes =
    >>=-Shrinks _ bytes _ (read_varint-Shrinks bytes) λ n rest. split_at-Shrinks n rest

-- One case of the switch: read a value and store it.
case-Shrinks :
    {A : Type 0} (tag k : ℕ) (r : Result (A × List ℕ)) (set : A → Lock) (bytes : List ℕ)
    (other : Result (Lock × List ℕ))
    → Shrinks r bytes
    → Shrinks other bytes
    → Shrinks (if tag == k then (r >>= λ x. ok (set x.0, x.1)) else other) bytes
case-Shrinks tag k r set bytes other p q =
    if-Shrinks (tag == k) _ _ bytes (>>=-Shrinks r bytes _ p λ a rest. ok-Shrinks _ rest) q

err-Shrinks : (bytes : List ℕ) → Shrinks {A = Lock} (err unknown_lock_tag) bytes
err-Shrinks bytes = record { shorter = λ b rest e. cc; fails = λ e. cc }

pub read_field-IsReader : IsReader read_field
unfolding read_field
read_field-IsReader = record {
  reads = λ tag bytes l. case-Shrinks tag _ _ _ bytes _ (read_short_value-Shrinks bytes) (
      case-Shrinks tag _ _ _ bytes _ (read_uint64_be-Shrinks bytes) (
        case-Shrinks tag _ _ _ bytes _ (read_uint64_be-Shrinks bytes) (
          case-Shrinks tag _ _ _ bytes _ (read_uint64_be-Shrinks bytes) (
            case-Shrinks tag _ _ _ bytes _
              (read_counted-Shrinks read_var_bytes read_var_bytes-Shrinks bytes)
              (case-Shrinks tag _ _ _ bytes _
                (read_counted-Shrinks read_uint64_be read_uint64_be-Shrinks bytes)
                (case-Shrinks tag _ _ _ bytes _ (read_last_change-Shrinks bytes) (
                  case-Shrinks tag _ _ _ bytes _ (read_varint-Shrinks bytes) (
                    if-Shrinks (tag == tag_pessim_conflict) _ _ bytes
                      (ok-Shrinks (record l { pessimistic_lock_with_conflict = true }) bytes)
                      (case-Shrinks tag tag_generation _ (λ v. record l { generation = v }) bytes _
                        (read_uint64_be-Shrinks bytes) (err-Shrinks bytes))))))))));
}
