-- ===== src/Mvcc/Snapshot.antt =====
-- internal/engine/traits: the part of `Snapshot` and `Iterator` that the readers use, over the
-- entries of the three column families in the order of their keys. The engine behind the interface
-- keeps these entries sorted and answers every call; its input and output errors are not modelled.
use gookv.Prelude.{ℕ, Option, none, some, List, [], ◌∷◌, Ordering, if◌then◌else◌, Bool, true, false}
use gookv.Prelude.Order.{compare_bytes, equal_bytes}

abbrev pub Entries : Type 0
Entries = List (List ℕ × List ℕ)

pub record Snapshot : Type 0 where
  pub cf_default : Entries
  pub cf_lock : Entries
  pub cf_write : Entries

-- `Snapshot.Get`; `none` is ErrNotFound.
unfoldable pub get : Entries → List ℕ → Option (List ℕ)
get [] key = none
get ((k, v) ∷ rest) key = if equal_bytes k key then some v else get rest key

-- `Iterator.Seek` on all entries: an iterator is the list of entries from its position on, `Valid`
-- is its being non-empty, and `Next` is its tail.
abbrev pub less : List ℕ → List ℕ → Bool
less k j = elim (compare_bytes k j) [ Ordering.lt ↦ true | _ ↦ false ]

unfoldable pub seek : Entries → List ℕ → Entries
seek [] target = []
seek ((k, v) ∷ rest) target = if less k target then seek rest target else (k, v) ∷ rest
