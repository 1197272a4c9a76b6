-- ===== src/Properties/Printing.antt =====
-- `variant_to_string` against the type that a variant holds.
use bluez_obex_native.Common.{
  ◌+◌, ◌++◌, ◌≢◌, append-nil, ℕ, zero, suc, ◌≡◌, refl, sym, ◌∙◌, ap, subst, true, false, List, [],
  ◌∷◌, ◌⊎◌, inl, inr, All, Bool-cases,
}
use bluez_obex_native.Common.Strings.{Str, bytes}
use bluez_obex_native.Common.Int.{ℤ, pos, negsuc}
use bluez_obex_native.Filters.{join_strings, join_rest}
use bluez_obex_native.Filters.Decimal.{
  to_string, digits_value, AreDigits, to_string-AreDigits, digits_value-to_string,
}
use bluez_obex_native.Filters.Numbers.{to_string-ne-empty}
use bluez_obex_native.Sdbus.{
  Sdbus, ValueType, Value, string, object_path, boolean, u8, u16, u32, u64, i16, i32, i64, strings,
  tag, ok,
}
use bluez_obex_native.Properties.{
  printed, signed_to_string, print_caught, printable_types, print_first, variant_to_string,
}

-- Types that have the same tag are the same.
abbrev nth : List ValueType → ℕ → ValueType
nth [] n = string
nth (t ∷ ts) zero = t
nth (t ∷ ts) (suc n) = nth ts n

module _ ⦃s : Sdbus⦄ where
  abbrev of_tag : ℕ → ValueType
  of_tag n = nth printable_types n

  of_tag-tag : (t : ValueType) → of_tag (tag t) ≡ t
  of_tag-tag string = refl
  of_tag-tag object_path = refl
  of_tag-tag boolean = refl
  of_tag-tag u8 = refl
  of_tag-tag u16 = refl
  of_tag-tag u32 = refl
  of_tag-tag u64 = refl
  of_tag-tag i16 = refl
  of_tag-tag i32 = refl
  of_tag-tag i64 = refl
  of_tag-tag strings = refl

  tag-injective : (t u : ValueType) → tag t ≡ tag u → t ≡ u
  tag-injective t u e = sym (of_tag-tag t) ∙ ap of_tag e ∙ of_tag-tag u

  -- Among the types that are tried.
  abbrev IsTried : ValueType → List ValueType → Type 0
  IsTried t [] = ⊥
  IsTried t (u ∷ ts) = (u ≡ t) ⊎ IsTried t ts

  all_tried : (t : ValueType) → IsTried t printable_types
  all_tried string = inl refl
  all_tried object_path = inr (inl refl)
  all_tried boolean = inr (inr (inl refl))
  all_tried u8 = inr (inr (inr (inl refl)))
  all_tried u16 = inr (inr (inr (inr (inl refl))))
  all_tried u32 = inr (inr (inr (inr (inr (inl refl)))))
  all_tried u64 = inr (inr (inr (inr (inr (inr (inl refl))))))
  all_tried i16 = inr (inr (inr (inr (inr (inr (inr (inl refl)))))))
  all_tried i32 = inr (inr (inr (inr (inr (inr (inr (inr (inl refl))))))))
  all_tried i64 = inr (inr (inr (inr (inr (inr (inr (inr (inr (inl refl)))))))))
  all_tried strings = inr (inr (inr (inr (inr (inr (inr (inr (inr (inr (inl refl))))))))))

  open s use {Variant, contains_value_of_type, contains_unique, dump_to_string}

  print_first-hit :
      (t : ValueType) (x : Value t) (v : Variant) (ts : List ValueType)
      → contains_value_of_type t v ≡ true
      → s.get t v ≡ ok x
      → IsTried t ts
      → print_first ts v ≡ ok (printed t x)
  unfolding print_first
  print_first-hit t x v [] held e tried = elim tried [ ]
  print_first-hit t x v (u ∷ ts) held e tried = elim (Bool-cases (contains_value_of_type u v)) [
    | inl h ↦
        let same : t ≡ u = tag-injective t u (contains_unique t u v held h) in
        rw h (
          subst (λ w. ok (print_caught w (s.get w v)) ≡ ok (printed t x)) same
            (ap (λ o. ok (print_caught t o)) e))
    | inr h ↦ rw h (print_first-hit t x v ts held e (later tried h))
  ]
    where
      later : (u ≡ t) ⊎ IsTried t ts → contains_value_of_type u v ≡ false → IsTried t ts
      later (inl same) h = absurd (cc (ap (λ w. contains_value_of_type w v) same))
      later (inr there) h = there

  print_first-none :
      (v : Variant) (ts : List ValueType)
      → All (λ t. contains_value_of_type t v ≡ false) ts
      → print_first ts v ≡ dump_to_string v
  unfolding print_first
  print_first-none v [] h = refl
  print_first-none v (t ∷ ts) (h, hs) = rw (h, print_first-none v ts hs) refl

  first_held :
      (v : Variant) (ts : List ValueType)
      → ((t : ValueType) × (contains_value_of_type t v ≡ true))
        ⊎ All (λ t. contains_value_of_type t v ≡ false) ts
  first_held v [] = inr tt
  first_held v (t ∷ ts) = elim (Bool-cases (contains_value_of_type t v)) [
    | inl held ↦ inl (t, held)
    | inr h ↦ elim (first_held v ts) [ inl found ↦ inl found | inr hs ↦ inr (h, hs) ]
  ]

  -- A decimal numeral: digits alone, at least one, that stand for the number.
  abbrev pub IsDecimal : Str → ℕ → Type 0
  IsDecimal text n = (text ≢ []) × AreDigits text × (digits_value 0 text ≡ n)

  -- With a minus before the digits of a number below zero.
  abbrev pub IsSigned : Str → ℤ → Type 0
  IsSigned text (pos n) = IsDecimal text n
  IsSigned text (negsuc n) = (digits : Str) × (text ≡ b'-' ∷ digits) × IsDecimal digits (n + 1)

  -- The texts, with a comma before each but the first.
  abbrev pub IsJoined : Str → List Str → Type 0
  IsJoined text [] = text ≡ []
  IsJoined text (item ∷ []) = text ≡ item
  IsJoined text (item ∷ next ∷ items) =
      (rest : Str) × (text ≡ item ++ b',' ∷ rest) × IsJoined rest (next ∷ items)

  -- The text of a value, by its type.
  abbrev pub IsTextOf : (t : ValueType) → Value t → Str → Type 0
  IsTextOf string x text = text ≡ x
  IsTextOf object_path x text = text ≡ x
  IsTextOf boolean true text = text ≡ bytes "true"
  IsTextOf boolean false text = text ≡ bytes "false"
  IsTextOf u8 x text = IsDecimal text x
  IsTextOf u16 x text = IsDecimal text x
  IsTextOf u32 x text = IsDecimal text x
  IsTextOf u64 x text = IsDecimal text x
  IsTextOf i16 x text = IsSigned text x
  IsTextOf i32 x text = IsSigned text x
  IsTextOf i64 x text = IsSigned text x
  IsTextOf strings x text = IsJoined text x

  to_string-IsDecimal : (n : ℕ) → IsDecimal (to_string n) n
  to_string-IsDecimal n = (to_string-ne-empty n, to_string-AreDigits n, digits_value-to_string n)

  signed_to_string-IsSigned : (n : ℤ) → IsSigned (signed_to_string n) n
  unfolding signed_to_string
  signed_to_string-IsSigned (pos n) = to_string-IsDecimal n
  signed_to_string-IsSigned (negsuc n) = (to_string (n + 1), refl, to_string-IsDecimal (n + 1))

  join_strings-IsJoined : (items : List Str) → IsJoined (join_strings items) items
  unfolding join_strings join_rest
  join_strings-IsJoined [] = refl
  join_strings-IsJoined (item ∷ []) = append-nil item
  join_strings-IsJoined (item ∷ next ∷ items) =
      (join_strings (next ∷ items), refl, join_strings-IsJoined (next ∷ items))

  printed-IsTextOf : (t : ValueType) (x : Value t) → IsTextOf t x (printed t x)
  printed-IsTextOf string x = refl
  printed-IsTextOf object_path x = refl
  printed-IsTextOf boolean true = refl
  printed-IsTextOf boolean false = refl
  printed-IsTextOf u8 x = to_string-IsDecimal x
  printed-IsTextOf u16 x = to_string-IsDecimal x
  printed-IsTextOf u32 x = to_string-IsDecimal x
  printed-IsTextOf u64 x = to_string-IsDecimal x
  printed-IsTextOf i16 x = signed_to_string-IsSigned x
  printed-IsTextOf i32 x = signed_to_string-IsSigned x
  printed-IsTextOf i64 x = signed_to_string-IsSigned x
  printed-IsTextOf strings x = join_strings-IsJoined x

  not_held :
      (v : Variant) (ts : List ValueType) (t : ValueType)
      → All (λ u. contains_value_of_type u v ≡ false) ts
      → IsTried t ts
      → contains_value_of_type t v ≡ false
  not_held v [] t hs tried = elim tried [ ]
  not_held v (u ∷ ts) t (h, hs) (inl same) = rw (← same) h
  not_held v (u ∷ ts) t (h, hs) (inr there) = not_held v ts t hs there

  -- A variant that holds a value of any of the eleven types is printed as the text of that value:
  -- a text or a path as it is, a truth value as true or false, a number in decimal, with a minus
  -- below zero, and a list of texts with commas between them. One that holds none is dumped.
  pub variant_to_string-cases :
      (v : Variant)
      → ((t : ValueType) × (x : Value t) × (text : Str) × (s.get t v ≡ ok x)
          × (variant_to_string v ≡ ok text)
          × IsTextOf t x text)
        ⊎ (((t : ValueType) → contains_value_of_type t v ≡ false)
            × (variant_to_string v ≡ dump_to_string v))
  unfolding variant_to_string
  variant_to_string-cases v = elim (first_held v printable_types) [
    | inl (t, held) ↦
        let (x, e) = s.get-contains t v held in
        inl (
          t,
          x,
          printed t x,
          e,
          print_first-hit t x v printable_types held e (all_tried t),
          printed-IsTextOf t x,
        )
    | inr none_held ↦ inr (
      λ t. not_held v printable_types t none_held (all_tried t),
      print_first-none v printable_types none_held,
    )
  ]
