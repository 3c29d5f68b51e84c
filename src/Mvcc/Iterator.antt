-- ===== src/Mvcc/Iterator.antt =====
-- internal/engine/traits: an `Iterator` with bounds that moves both ways. `passed` holds the entries
-- behind the position, the nearest first; `ahead` those from the position on, and the iterator is
-- valid while it is not empty. `Prev` at the first entry leaves the iterator invalid in front of all
-- entries; the modelled code only seeks from there.

use gookv.Prelude.{
  ℕ, Bool, true, false, ◌&&◌, not, Option, none, some, List, [], ◌∷◌, if◌then◌else◌,
}
use gookv.Mvcc.Snapshot.{Entries, less, seek}

pub record IterOptions : Type 0 where
  pub lower_bound : Option (List ℕ)
  pub upper_bound : Option (List ℕ)

pub record Iterator : Type 0 where
  pub entries : Entries
  pub passed : Entries
  pub ahead : Entries

-- The lower bound is inclusive, the upper one exclusive.
abbrev pub at_least : List ℕ → Option (List ℕ) → Bool
at_least k none = true
at_least k (some bound) = not (less k bound)

abbrev pub below : List ℕ → Option (List ℕ) → Bool
below k none = true
below k (some bound) = less k bound

unfoldable pub within : Entries → IterOptions → Entries
within [] opts = []
within ((k, v) ∷ rest) opts =
    let rest' = within rest opts in
    if at_least k opts.lower_bound && below k opts.upper_bound then (k, v) ∷ rest' else rest'

-- A new iterator is not valid before its first seek.
unfoldable pub new_iterator : Entries → IterOptions → Iterator
new_iterator es opts = record { entries = within es opts; passed = []; ahead = [] }

unfoldable pub valid : Iterator → Bool
valid it = elim it.ahead [ [] ↦ false | _ ∷ _ ↦ true ]

unfoldable pub seek_to_first : Iterator → Iterator
seek_to_first it = record it { passed = []; ahead = it.entries }

-- The entries in front of the first one that is not less than the target, on top of a stack.
unfoldable pub skipped : Entries → Entries → List ℕ → Entries
skipped acc [] target = acc
skipped acc ((k, v) ∷ rest) target =
    let more = skipped ((k, v) ∷ acc) rest target in if less k target then more else acc

unfoldable pub seek_iterator : Iterator → List ℕ → Iterator
seek_iterator it target = record it {
  passed = skipped [] it.entries target;
  ahead = seek it.entries target;
}

unfoldable pub next_entry : Iterator → Iterator
next_entry it = elim it.ahead [
  | [] ↦ it
  | e ∷ rest ↦ record it { passed = e ∷ it.passed; ahead = rest }
]

unfoldable pub prev_entry : Iterator → Iterator
prev_entry it = elim it.passed [
  | [] ↦ record it { ahead = [] }
  | e ∷ rest ↦ record it { passed = rest; ahead = e ∷ it.ahead }
]

unfoldable pub stack : Entries → Entries → Entries
stack acc [] = acc
stack acc (e ∷ rest) = stack (e ∷ acc) rest

unfoldable pub seek_to_last : Iterator → Iterator
seek_to_last it = prev_entry (record it { passed = stack [] it.entries; ahead = [] })
