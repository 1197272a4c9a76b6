-- ===== src/Filters.antt =====
-- native/src/obex_proxy_utils.cpp: the filters of a request, from strings to typed variants.
pub mod Decimal
pub mod Numbers
pub mod Csv
pub mod Rounds
pub mod Conversion
use bluez_obex_native.Common.{
  ℕ, zero, suc, ◌+◌, ◌-◌, ◌*◌, ◌^◌, Bool, true, false, not, ◌&&◌, ◌||◌, Option, none, some, List,
  [], ◌∷◌, ◌++◌, arith, length, is_empty, take, drop, ltb, leb, eqb, if◌then◌else◌,
}
use bluez_obex_native.Common.Strings.{Str, bytes, ◌==◌}
use bluez_obex_native.OrderedMap
use bluez_obex_native.OrderedMap.{OrderedMap}
use bluez_obex_native.Sdbus.{
  Sdbus, ValueType, Value, string, boolean, u8, u16, strings, Outcome, ok, throws, ◌>>=◌,
  std_exception,
}
use Decimal.{is_digit, digits_value, to_string}

-- `std::from_chars` on an unsigned number of at most `max`: the value and what it left unread, or
-- an error code.
pub data FromChars : Type 0 where
  parsed : ℕ → Str → FromChars
  invalid_argument out_of_range : FromChars

-- The longest run of digits, and the rest.
unfoldable pub span_digits : Str → Str × Str
span_digits [] = ([], [])
span_digits (c ∷ s) =
    let (run, rest) = span_digits s in if is_digit c then (c ∷ run, rest) else ([], c ∷ s)

unfoldable pub from_chars : ℕ → Str → FromChars
unfolding span_digits digits_value
from_chars max s =
    let (run, rest) = span_digits s in
    if is_empty run
    then invalid_argument
    else if leb (digits_value 0 run) max
    then parsed (digits_value 0 run) rest
    else out_of_range

abbrev pub uint32_max : ℕ
uint32_max = 2 ^ 32 - 1

abbrev pub uint16_max : ℕ
uint16_max = 2 ^ 16 - 1

abbrev pub uint8_max : ℕ
uint8_max = 2 ^ 8 - 1

unfoldable pub accept_uint16 : FromChars → Option ℕ
accept_uint16 (parsed n rest) = if not (is_empty rest) || ltb uint16_max n then none else some n
accept_uint16 invalid_argument = none
accept_uint16 out_of_range = none

-- The out parameter is the value of `some`, and `false` is `none`.
unfoldable pub parse_uint16 : Str → Option ℕ
unfolding from_chars accept_uint16
parse_uint16 value = accept_uint16 (from_chars uint32_max value)

unfoldable pub accept_uint8 : Option ℕ → Option ℕ
accept_uint8 none = none
accept_uint8 (some n) = if ltb uint8_max n then none else some n

unfoldable pub parse_uint8 : Str → Option ℕ
unfolding accept_uint8
parse_uint8 value = accept_uint8 (parse_uint16 value)

abbrev pub comma : ℕ
comma = b','

pub index_of : ℕ → Str → Option ℕ
index_of c [] = none
index_of c (b ∷ s) =
    let rest = index_of c s in
    if eqb b c then some 0 else elim rest [ none ↦ none | some i ↦ some (suc i) ]

-- `value.find(c, start)`; `none` is `npos`.
pub find_from : ℕ → Str → ℕ → Option ℕ
unfolding index_of
find_from c value start = elim (index_of c (drop start value)) [
  | none ↦ none
  | some i ↦ some (start + i)
]

-- `value.substr(start, n)`.
pub substr : Str → ℕ → ℕ → Str
substr value start n = take n (drop start value)

-- `if (end > start) result.push_back(…)`.
push_piece : Str → ℕ → ℕ → List Str → List Str
unfolding substr
push_piece value start end result =
    if ltb start end then result ++ substr value start (end - start) ∷ [] else result

-- The `while` loop on fuel; `none` means that the fuel ran out.
pub split_csv_loop : ℕ → Str → ℕ → List Str → Option (List Str)
unfolding find_from push_piece
split_csv_loop zero value start result = none
split_csv_loop (suc fuel) value start result = elim (leb start (length value)) [
  | false ↦ some result
  | true ↦ elim (find_from comma value start) [
    | none ↦ some (push_piece value start (length value) result)
    | some at ↦ split_csv_loop fuel value (at + 1) (push_piece value start at result)
  ]
]

-- Each round moves `start` on, up to the length of the text.
pub split_csv : Str → Option (List Str)
unfolding split_csv_loop
split_csv value = split_csv_loop (length value + 2) value 0 []

-- The pieces are written with a comma before each but the first.
unfoldable pub join_rest : List Str → Str
join_rest [] = []
join_rest (s ∷ ss) = comma ∷ (s ++ join_rest ss)

unfoldable pub join_strings : List Str → Str
unfolding join_rest
join_strings [] = []
join_strings (s ∷ ss) = s ++ join_rest ss

unfoldable pub is_uint16_key : Str → Bool
is_uint16_key key =
    key == bytes "MaxCount"
    || key == bytes "Offset"
    || key == bytes "ListStartOffset"
    || key == bytes "StartOffset"

unfoldable pub is_string_array_key : Str → Bool
is_string_array_key key =
    key == bytes "Fields"
    || key == bytes "Filter"
    || key == bytes "FilterAll"
    || key == bytes "FilterAny"
    || key == bytes "Types"

unfoldable pub is_bool_key : Str → Bool
is_bool_key key =
    key == bytes "ResetNewMissedCalls"
    || key == bytes "Read"
    || key == bytes "Priority"
    || key == bytes "Transparent"
    || key == bytes "Retry"

module _ ⦃s : Sdbus⦄ where
  open s use {Variant, make}

  unfoldable pub parsed_or : Str → (ℕ → Variant) → Option ℕ → Outcome Variant
  parsed_or message to_variant none = throws (std_exception message)
  parsed_or message to_variant (some n) = ok (to_variant n)

  pub array_of : Option (List Str) → Outcome Variant
  array_of none = throws (std_exception [])
  array_of (some items) = ok (make strings items)

  -- The variant of one entry, in the body of the loop.
  unfoldable pub variant_of_entry : Str → Str → Outcome Variant
  variant_of_entry key value =
      if is_uint16_key key
      then parsed_or (key ++ bytes " must be a uint16") (make u16) (parse_uint16 value)
      else if key == bytes "SubjectLength"
      then parsed_or (key ++ bytes " must be a uint8") (make u8) (parse_uint8 value)
      else if is_string_array_key key
      then array_of (split_csv value)
      else if is_bool_key key
      then (if not (value == bytes "true") && not (value == bytes "false")
          then throws (std_exception (key ++ bytes " must be a bool"))
          else ok (make boolean (value == bytes "true")))
      else ok (make string value)

  -- The loop over the entries in the order of their keys.
  unfoldable pub variant_map_loop :
      OrderedMap Str → OrderedMap Variant → Outcome (OrderedMap Variant)
  variant_map_loop [] result = ok result
  variant_map_loop ((key, value) ∷ values) result = elim (is_empty key) [
    | true ↦ variant_map_loop values result
    | false ↦ elim (variant_of_entry key value) [
      | throws e ↦ throws e
      | ok v ↦ variant_map_loop values (OrderedMap.insert key v result)
    ]
  ]

  unfoldable pub variant_map_from_strings : OrderedMap Str → Outcome (OrderedMap Variant)
  unfolding variant_map_loop
  variant_map_from_strings values = variant_map_loop values []
