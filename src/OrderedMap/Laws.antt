-- ===== src/OrderedMap/Laws.antt =====
-- Lookups after the updates of an ordered map.
use bluez_obex_native.Common.{◌≡◌, refl, true, false, none, some, [], ◌∷◌, arith, if◌then◌else◌}
use bluez_obex_native.Common.Strings.{Str, ◌==◌, ==_iff}
use bluez_obex_native.OrderedMap.{OrderedMap, find, contains, found, insert, erase}

module _ {ℓ} {V : Type ℓ} where
  pub find-insert :
      (k j : Str) (v : V) (m : OrderedMap V)
      → find j (insert k v m) ≡ (if k == j then some v else find j m)
  unfolding find insert
  find-insert k j v [] = refl
  find-insert k j v ((i, w) ∷ m) =
      ground (arith, ==_iff k j, ==_iff i k, ==_iff i j, find-insert k j v m)

  pub find-erase :
      (k j : Str) (m : OrderedMap V) → find j (erase k m) ≡ (if k == j then none else find j m)
  unfolding find erase
  find-erase k j [] = ground arith
  find-erase k j ((i, w) ∷ m) = ground (arith, ==_iff k j, ==_iff i k, ==_iff i j, find-erase k j m)

  pub find-cons :
      (k j : Str) (v : V) (m : OrderedMap V)
      → find k ((j, v) ∷ m) ≡ (if j == k then some v else find k m)
  unfolding find
  find-cons k j v m = refl

  pub find-empty : (k : Str) → find {V = V} k [] ≡ none
  unfolding find
  find-empty k = refl

  pub contains-eq_found : (k : Str) (m : OrderedMap V) → contains k m ≡ found (find k m)
  unfolding contains
  contains-eq_found k m = refl

  pub contains-insert :
      (k j : Str) (v : V) (m : OrderedMap V)
      → contains j (insert k v m) ≡ (if k == j then true else contains j m)
  unfolding contains
  contains-insert k j v m = ground (arith, find-insert k j v m)

  pub contains-erase :
      (k j : Str) (m : OrderedMap V)
      → contains j (erase k m) ≡ (if k == j then false else contains j m)
  unfolding contains
  contains-erase k j m = ground (arith, find-erase k j m)

  -- An erase of a key that is not there changes nothing.
  pub erase-absent : (k : Str) (m : OrderedMap V) → contains k m ≡ false → erase k m ≡ m
  unfolding contains find erase
  erase-absent k [] h = refl
  erase-absent k ((j, v) ∷ m) h = ground (arith, erase-absent k m)

pub ruleset map_laws = (find-insert, find-erase, find-empty, contains-insert, contains-erase)
