-- ===== src/Filters/Decimal.antt =====
-- The decimal digits that `std::to_string` writes and `std::from_chars` reads.
use bluez_obex_native.Common.{
  ℕ, zero, suc, ◌+◌, ◌-◌, ◌*◌, ◌/◌, ◌%◌, ◌<◌, ◌≡◌, refl, ◌∙◌, Bool, true, ◌&&◌, [], ◌∷◌, ◌++◌,
  arith, All, ltb, leb, if◌then◌else◌,
}
use bluez_obex_native.Common.Strings.{Str}

unfoldable pub is_digit : ℕ → Bool
is_digit c = leb 48 c && leb c 57

-- `std::to_string` of an unsigned number; `fuel` bounds the digits.
unfoldable pub decimal_digits : ℕ → ℕ → Str
decimal_digits zero n = []
decimal_digits (suc fuel) n =
    let rest = decimal_digits fuel (n / 10) in (if ltb n 10 then [] else rest) ++ (48 + n % 10) ∷ []

unfoldable pub to_string : ℕ → Str
unfolding decimal_digits
to_string n = decimal_digits (suc n) n

-- The number that a run of digits stands for, read from the left.
unfoldable pub digits_value : ℕ → Str → ℕ
digits_value acc [] = acc
digits_value acc (c ∷ s) = digits_value (acc * 10 + (c - 48)) s

abbrev pub AreDigits : Str → Type 0
AreDigits s = All (λ c. is_digit c ≡ true) s

pub digits_value-append :
    (acc : ℕ) (s t : Str) → digits_value acc (s ++ t) ≡ digits_value (digits_value acc s) t
unfolding digits_value
digits_value-append acc [] t = refl
digits_value-append acc (c ∷ s) t = digits_value-append (acc * 10 + (c - 48)) s t

AreDigits-append : (s : Str) (c : ℕ) → AreDigits s → is_digit c ≡ true → AreDigits (s ++ c ∷ [])
AreDigits-append [] c h k = (k, tt)
AreDigits-append (b ∷ s) c h k = (h.0, AreDigits-append s c h.1 k)

decimal_digits-AreDigits : (fuel n : ℕ) → AreDigits (decimal_digits fuel n)
unfolding decimal_digits is_digit
decimal_digits-AreDigits zero n = tt
decimal_digits-AreDigits (suc fuel) n =
    AreDigits-append (if ltb n 10 then [] else decimal_digits fuel (n / 10)) (48 + n % 10)
      (ground (arith, decimal_digits-AreDigits fuel (n / 10))) (ground arith)

digits_value-decimal_digits : (fuel n : ℕ) → n < fuel → digits_value 0 (decimal_digits fuel n) ≡ n
unfolding decimal_digits digits_value
digits_value-decimal_digits zero n h = absurd (omega arith)
digits_value-decimal_digits (suc fuel) n h =
    digits_value-append 0 (if ltb n 10 then [] else decimal_digits fuel (n / 10))
      ((48 + n % 10) ∷ [])
    ∙ ground (arith, digits_value-decimal_digits fuel (n / 10))

pub to_string-AreDigits : (n : ℕ) → AreDigits (to_string n)
unfolding to_string
to_string-AreDigits n = decimal_digits-AreDigits (suc n) n

pub digits_value-to_string : (n : ℕ) → digits_value 0 (to_string n) ≡ n
unfolding to_string
digits_value-to_string n = digits_value-decimal_digits (suc n) n (omega arith)
