-- ===== src/OrderedMap.antt =====
-- `std::map<std::string, V>` as the list of its entries in the order of iteration.
-- The laws and the order of the keys are in the modules below.
pub mod Laws
pub mod Sorted
use bluez_obex_native.Common.{Bool, true, false, Option, none, some, List, [], ◌∷◌, if◌then◌else◌}
use bluez_obex_native.Common.Strings.{Str, ◌==◌, str_lt}

abbrev pub OrderedMap {ℓ} : Type ℓ → Type ℓ
OrderedMap V = List (Str × V)

module _ {ℓ} {V : Type ℓ} where
  -- `m.find(k)`; `none` is `m.end()`.
  unfoldable pub find : Str → OrderedMap V → Option V
  find k [] = none
  find k ((j, v) ∷ m) = if j == k then some v else find k m

  abbrev pub found : Option V → Bool
  found none = false
  found (some _) = true

  -- `m.contains(k)`.
  pub contains : Str → OrderedMap V → Bool
  unfolding find
  contains k m = found (find k m)

  -- `m[k] = v`.
  pub insert : Str → V → OrderedMap V → OrderedMap V
  insert k v [] = (k, v) ∷ []
  insert k v ((j, w) ∷ m) =
      if j == k
      then (k, v) ∷ m
      else if str_lt k j
      then (k, v) ∷ (j, w) ∷ m
      else (j, w) ∷ insert k v m

  -- `m.erase(k)`.
  pub erase : Str → OrderedMap V → OrderedMap V
  erase k [] = []
  erase k ((j, v) ∷ m) = let rest = erase k m in if j == k then rest else (j, v) ∷ rest
