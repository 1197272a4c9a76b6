-- ===== src/Entries/Laws.antt =====
-- Lookup after erase, update and emplace.
use bluez_obex_native.Common.{
  ℕ, ◌≡◌, refl, false, Option, none, some, List, [], ◌∷◌, arith, eqb, All, Bool-cases, inl, inr,
  if_intro, subst,
}
use bluez_obex_native.Entries.{entry_at, erase_entry, emplace_entry, update_entry}

module _ {A : Type 0} where
  pub entry_at-erase_entry :
      (key : ℕ) (entries : List (ℕ × A)) → entry_at key (erase_entry key entries) ≡ none
  unfolding entry_at erase_entry
  entry_at-erase_entry key [] = refl
  entry_at-erase_entry key ((t, c) ∷ entries) = ground (arith, entry_at-erase_entry key entries)

  pub erase_entry-keeps :
      (key other : ℕ) (entries : List (ℕ × A))
      → entry_at key entries ≡ none
      → entry_at key (erase_entry other entries) ≡ none
  unfolding entry_at erase_entry
  erase_entry-keeps key other [] h = refl
  erase_entry-keeps key other ((t, c) ∷ entries) h =
      ground (arith, erase_entry-keeps key other entries)

  pub update_entry-keeps :
      (key other : ℕ) (f : A → A) (entries : List (ℕ × A))
      → entry_at key entries ≡ none
      → entry_at key (update_entry other f entries) ≡ none
  unfolding entry_at update_entry
  update_entry-keeps key other f [] h = refl
  update_entry-keeps key other f ((t, c) ∷ entries) h =
      ground (arith, update_entry-keeps key other f entries)

  pub emplace_entry-keeps :
      (key other : ℕ) (new : A) (entries : List (ℕ × A))
      → eqb other key ≡ false
      → entry_at key entries ≡ none
      → entry_at key (emplace_entry other new entries) ≡ none
  unfolding entry_at emplace_entry
  emplace_entry-keeps key other new entries e h = ground arith

  pub entry_at-emplace_entry :
      (key : ℕ) (c : A) (entries : List (ℕ × A))
      → entry_at key entries ≡ none
      → entry_at key (emplace_entry key c entries) ≡ some c
  unfolding entry_at emplace_entry
  entry_at-emplace_entry key c entries h = ground arith

module _ {A : Type 0} (P : A → Type 0) where
  -- Each value has the property.
  abbrev pub AllValues : List (ℕ × A) → Type 0
  AllValues entries = All (λ (e : ℕ × A). P e.1) entries

  pub entry_at-AllValues :
      (key : ℕ) (entries : List (ℕ × A)) (c : A)
      → AllValues entries
      → entry_at key entries ≡ some c
      → P c
  unfolding entry_at
  entry_at-AllValues key [] c h e = absurd (cc e)
  entry_at-AllValues key ((k, x) ∷ entries) c h e = elim (Bool-cases (eqb k key)) [
    | inl same ↦ let at : x ≡ c = ground arith in subst P at h.0
    | inr other ↦ entry_at-AllValues key entries c h.1 (rw other at e)
  ]

  pub erase_entry-AllValues :
      (key : ℕ) (entries : List (ℕ × A)) → AllValues entries → AllValues (erase_entry key entries)
  unfolding erase_entry
  erase_entry-AllValues key [] h = tt
  erase_entry-AllValues key ((k, x) ∷ entries) h =
      if_intro AllValues (eqb k key) _ _ (λ _. erase_entry-AllValues key entries h.1)
        (λ _. (h.0, erase_entry-AllValues key entries h.1))

  pub emplace_entry-AllValues :
      (key : ℕ) (c : A) (entries : List (ℕ × A))
      → P c
      → AllValues entries
      → AllValues (emplace_entry key c entries)
  unfolding emplace_entry
  emplace_entry-AllValues key c entries p h = emplaced (entry_at key entries)
    where
      emplaced :
          (o : Option A) → AllValues (elim o [ none ↦ (key, c) ∷ entries | some old ↦ entries ])
      emplaced none = (p, h)
      emplaced (some old) = h

  pub update_entry-AllValues :
      (key : ℕ) (f : A → A) (entries : List (ℕ × A))
      → ((x : A) → P x → P (f x))
      → AllValues entries
      → AllValues (update_entry key f entries)
  unfolding update_entry
  update_entry-AllValues key f [] k h = tt
  update_entry-AllValues key f ((j, x) ∷ entries) k h =
      if_intro AllValues (eqb j key) _ _
        (λ _. (k x h.0, update_entry-AllValues key f entries k h.1))
        (λ _. (h.0, update_entry-AllValues key f entries k h.1))
