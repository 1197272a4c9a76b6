-- ===== src/Entries.antt =====
-- `std::unordered_map` with numbers as keys: the entries, of which the first under a key counts.
pub mod Laws
use bluez_obex_native.Common.{ℕ, Option, none, some, List, [], ◌∷◌, eqb, if◌then◌else◌}

module _ {A : Type 0} where
  unfoldable pub entry_at : ℕ → List (ℕ × A) → Option A
  entry_at key [] = none
  entry_at key ((t, c) ∷ entries) =
      let rest = entry_at key entries in if eqb t key then some c else rest

  unfoldable pub erase_entry : ℕ → List (ℕ × A) → List (ℕ × A)
  erase_entry key [] = []
  erase_entry key ((t, c) ∷ entries) =
      let rest = erase_entry key entries in if eqb t key then rest else (t, c) ∷ rest

  -- `emplace` keeps an entry that is there already.
  unfoldable pub emplace_entry : ℕ → A → List (ℕ × A) → List (ℕ × A)
  unfolding entry_at
  emplace_entry key c entries = elim (entry_at key entries) [
    | none ↦ (key, c) ∷ entries
    | some old ↦ entries
  ]

  -- A change of the value under a key, where there is one.
  unfoldable pub update_entry : ℕ → (A → A) → List (ℕ × A) → List (ℕ × A)
  update_entry key f [] = []
  update_entry key f ((t, c) ∷ entries) =
      let rest = update_entry key f entries in if eqb t key then (t, f c) ∷ rest else (t, c) ∷ rest
