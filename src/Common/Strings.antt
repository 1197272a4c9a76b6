-- ===== src/Common/Strings.antt =====
-- `std::string` as the list of its bytes, with the equality and the order of `std::map` keys.
use Prim.Native.Char.{code}
use Prim.Native.Nat.{ℕ}
use Prim.Native.String.{String}
use mathlib.Core.Path.{◌≡◌, refl}
use mathlib.Core.Logic.{◌↔◌}
use mathlib.Core.Bool.{Bool, true, false, ◌&&◌, ◌||◌}
use mathlib.Core.List.{List, [], ◌∷◌}
use native.Mathlib.Omega.{arith}
use bluez_obex_native.Common.Tests.{ltb, eqb}

abbrev pub Str : Type 0
Str = List ℕ

-- The bytes of an ASCII literal.
unfoldable pub bytes : String → Str
bytes String.[] = []
bytes (String.◌∷◌ c s) = code c ∷ bytes s

infix 50 ◌==◌
unfoldable pub ◌==◌ : Str → Str → Bool
[] == [] = true
[] == (b ∷ t) = false
(a ∷ s) == [] = false
(a ∷ s) == (b ∷ t) = eqb a b && s == t

-- `operator<`: byte by byte, as unsigned values; a proper prefix is smaller.
unfoldable pub str_lt : Str → Str → Bool
str_lt [] [] = false
str_lt [] (b ∷ t) = true
str_lt (a ∷ s) [] = false
str_lt (a ∷ s) (b ∷ t) = ltb a b || (eqb a b && str_lt s t)

pub ==_iff : (s t : Str) → ((s == t) ≡ true) ↔ (s ≡ t)
unfolding ◌==◌
==_iff [] [] = (λ _. refl, λ _. refl)
==_iff [] (b ∷ t) = (λ h. cc, λ h. cc)
==_iff (a ∷ s) [] = (λ h. cc, λ h. cc)
==_iff (a ∷ s) (b ∷ t) = ground (arith, ==_iff s t)

pub ==_refl : (s : Str) → (s == s) ≡ true
==_refl s = (==_iff s s).1 refl

pub str_lt_irrefl : (s : Str) → str_lt s s ≡ false
unfolding str_lt
str_lt_irrefl [] = refl
str_lt_irrefl (a ∷ s) = ground (arith, str_lt_irrefl s)

pub str_lt_trans : (s t u : Str) → str_lt s t ≡ true → str_lt t u ≡ true → str_lt s u ≡ true
unfolding str_lt
str_lt_trans [] [] u h k = cc
str_lt_trans [] (b ∷ t) [] h k = cc
str_lt_trans [] (b ∷ t) (c ∷ u) h k = refl
str_lt_trans (a ∷ s) [] u h k = cc
str_lt_trans (a ∷ s) (b ∷ t) [] h k = cc
str_lt_trans (a ∷ s) (b ∷ t) (c ∷ u) h k = ground (arith, str_lt_trans s t u)

pub str_lt-total : (s t : Str) → (s == t) ≡ false → str_lt s t ≡ false → str_lt t s ≡ true
unfolding str_lt ◌==◌
str_lt-total [] [] h k = cc
str_lt-total [] (b ∷ t) h k = cc
str_lt-total (a ∷ s) [] h k = refl
str_lt-total (a ∷ s) (b ∷ t) h k = ground (arith, str_lt-total s t)

pub str_lt-ne : (s t : Str) → str_lt s t ≡ true → (s == t) ≡ false
unfolding str_lt ◌==◌
str_lt-ne [] [] h = cc
str_lt-ne [] (b ∷ t) h = refl
str_lt-ne (a ∷ s) [] h = cc
str_lt-ne (a ∷ s) (b ∷ t) h = ground (arith, str_lt-ne s t)
