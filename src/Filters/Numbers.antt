-- ===== src/Filters/Numbers.antt =====
-- Which texts the integer filters accept, and with which value.
use bluez_obex_native.Common.{
  ℕ, ◌+◌, ◌≤◌, ◌/◌, ◌%◌, ◌++◌, ◌≡◌, ◌≢◌, ◌↔◌, refl, Option, none, some, [], ◌∷◌, arith, Bool-cases,
  inl, inr, ltb, if◌then◌else◌, ap,
}
use bluez_obex_native.Common.Strings.{Str}
use bluez_obex_native.Filters.Decimal.{
  is_digit, digits_value, to_string, decimal_digits, AreDigits, to_string-AreDigits,
  digits_value-to_string,
}
use bluez_obex_native.Filters.{
  span_digits, uint16_max, uint8_max, accept_uint8, parse_uint16, parse_uint8,
}

-- The texts of the numbers up to `max`: digits alone, at least one.
abbrev pub IsNumeral : ℕ → Str → ℕ → Type 0
IsNumeral max s n = (s ≢ []) × AreDigits s × (digits_value 0 s ≡ n) × (n ≤ max)

span_digits-AreDigits : (s : Str) → AreDigits s → span_digits s ≡ (s, [])
unfolding span_digits
span_digits-AreDigits [] h = refl
span_digits-AreDigits (c ∷ s) h = rw (h.0, span_digits-AreDigits s h.1)

span_digits_all : (s : Str) → (span_digits s).1 ≡ [] → ((span_digits s).0 ≡ s) × AreDigits s
unfolding span_digits
span_digits_all [] h = (refl, tt)
span_digits_all (c ∷ s) h = elim (Bool-cases (is_digit c)) [
  | inl d ↦
      let (e, ds) = span_digits_all s (rw d at h) in (rw d (ap (λ (t : Str). c ∷ t) e), (d, ds))
  | inr n ↦ absurd_end (rw n at h)
]
  where
    absurd_end : c ∷ s ≡ [] → ((span_digits (c ∷ s)).0 ≡ c ∷ s) × AreDigits (c ∷ s)
    absurd_end e = cc

parse_uint16_numeral : (s : Str) (n : ℕ) → IsNumeral uint16_max s n → parse_uint16 s ≡ some n
unfolding parse_uint16
parse_uint16_numeral [] n h = absurd (h.0 refl)
parse_uint16_numeral (c ∷ s) n h = rw (span_digits-AreDigits (c ∷ s) h.1, h.2) (ground arith)

parse_uint16_facts :
    (s : Str) (n : ℕ)
    → parse_uint16 s ≡ some n
    → ((span_digits s).1 ≡ [])
      × ((span_digits s).0 ≢ [])
      × (digits_value 0 (span_digits s).0 ≡ n)
      × (n ≤ uint16_max)
unfolding parse_uint16
parse_uint16_facts s n h = ground arith

parse_uint16-IsNumeral : (s : Str) (n : ℕ) → parse_uint16 s ≡ some n → IsNumeral uint16_max s n
parse_uint16-IsNumeral s n h =
    let (all, some_digit, value, bound) = parse_uint16_facts s n h in
    let (run, digits) = span_digits_all s all in
    (rw run at some_digit, digits, rw run at value, bound)

-- `parse_uint16` accepts exactly the decimal numerals up to 65535, leading zeros included, with
-- the value that they stand for.
pub parse_uint16_iff : (s : Str) (n : ℕ) → (parse_uint16 s ≡ some n) ↔ IsNumeral uint16_max s n
parse_uint16_iff s n = (parse_uint16-IsNumeral s n, parse_uint16_numeral s n)

-- `parse_uint8` accepts exactly the decimal numerals up to 255.
pub parse_uint8_iff : (s : Str) (n : ℕ) → (parse_uint8 s ≡ some n) ↔ IsNumeral uint8_max s n
unfolding parse_uint8
parse_uint8_iff s n = (
  λ h.
      let (e, le) = accepted (parse_uint16 s) h in
      let (ne, ds, v, _) = parse_uint16-IsNumeral s n e in (ne, ds, v, le),
  λ (ne, ds, v, le). rw (parse_uint16_numeral s n (ne, ds, v, omega arith)) (ground arith),
)
  where
    accepted : (o : Option ℕ) → accept_uint8 o ≡ some n → (o ≡ some n) × (n ≤ uint8_max)
    accepted none h = cc
    accepted (some m) h = ground arith

append_ne_nil : (s : Str) (c : ℕ) → s ++ c ∷ [] ≢ []
append_ne_nil [] c h = cc
append_ne_nil (b ∷ s) c h = cc

pub to_string-ne-empty : (n : ℕ) → to_string n ≢ []
unfolding to_string decimal_digits
to_string-ne-empty n =
    append_ne_nil (if ltb n 10 then [] else decimal_digits n (n / 10)) (48 + n % 10)

-- A `uint16_t` that `std::to_string` printed is parsed back.
pub parse_uint16-to_string : (n : ℕ) → n ≤ uint16_max → parse_uint16 (to_string n) ≡ some n
parse_uint16-to_string n h =
    parse_uint16_numeral (to_string n) n
      (to_string-ne-empty n, to_string-AreDigits n, digits_value-to_string n, h)
