-- ===== src/Runs/Filters.antt =====
-- Runs of native/src/obex_proxy_utils.cpp.
use bluez_obex_native.Common.{
  ◌≡◌, ◌+◌, refl, ◌↔◌, ◌⊎◌, List, false, some, [], ◌∷◌, arith, All, none,
}
use bluez_obex_native.Common.Strings.{Str, bytes, ◌==◌, str_lt}
use bluez_obex_native.OrderedMap
use bluez_obex_native.OrderedMap.{OrderedMap}
use bluez_obex_native.OrderedMap.Sorted.{IsAscending}
use bluez_obex_native.Sdbus.{ValueType, Value, u16, ok, throws, std_exception}
use bluez_obex_native.Filters.{
  parse_uint16, parse_uint8, accept_uint16, accept_uint8, from_chars, span_digits, uint16_max,
  comma, split_csv, split_csv_loop, join_strings, parsed_or, variant_of_entry, variant_map_loop,
  variant_map_from_strings, is_uint16_key,
}
use bluez_obex_native.Filters.Decimal.{is_digit, digits_value, to_string}
use bluez_obex_native.Filters.Numbers.{IsNumeral, parse_uint16_iff, parse_uint16-to_string}
use bluez_obex_native.Filters.Csv.{
  IsItem, pieces, drop_empty, split_csv-pieces, split_csv-join_strings, split_csv-IsItem,
}
use bluez_obex_native.Filters.Conversion.{
  Converts, overlay, find-variant_map_from_strings, FirstFailure, variant_map_from_strings_throws,
}
use bluez_obex_native.Filters.Rounds.{split_csv_loop-enough}
use bluez_obex_native.Properties.{variant_to_string}
use bluez_obex_native.Properties.Printing.{IsTextOf, variant_to_string-cases}
use bluez_obex_native.Samples.Variants.{sample, sample_sdbus, holds, read}

parse_uint16_iff_example :
    (parse_uint16 (bytes "65536") ≡ some 65536) ↔ IsNumeral uint16_max (bytes "65536") 65536
parse_uint16_iff_example = parse_uint16_iff (bytes "65536") 65536

parse_uint16-to_string_example : parse_uint16 (to_string 65535) ≡ some 65535
parse_uint16-to_string_example = parse_uint16-to_string 65535 (omega arith)

parse_uint8_sample : parse_uint8 (bytes "255") ≡ some 255
unfolding parse_uint8 parse_uint16 accept_uint16 accept_uint8 from_chars span_digits is_digit
    digits_value bytes
parse_uint8_sample = refl

parse_uint8_refused : parse_uint8 (bytes "256") ≡ none
unfolding parse_uint8 parse_uint16 accept_uint16 accept_uint8 from_chars span_digits is_digit
    digits_value bytes
parse_uint8_refused = refl

split_csv-pieces_example :
    split_csv (bytes ",EMAIL,,SMS_GSM,")
    ≡ some (drop_empty (pieces comma (bytes ",EMAIL,,SMS_GSM,")))
split_csv-pieces_example = split_csv-pieces (bytes ",EMAIL,,SMS_GSM,")

abbrev two_items : List Str
two_items = (b'a' ∷ b'b' ∷ []) ∷ (b'c' ∷ []) ∷ []

two_items-IsItem : All IsItem two_items
two_items-IsItem = ((λ e. cc, (omega arith, (omega arith, tt))), ((λ e. cc, (omega arith, tt)), tt))

split_csv-join_strings_example : split_csv (join_strings two_items) ≡ some two_items
split_csv-join_strings_example = split_csv-join_strings two_items two_items-IsItem

split_csv-IsItem_example :
    All IsItem two_items × (split_csv (join_strings two_items) ≡ some two_items)
split_csv-IsItem_example =
    split_csv-IsItem (join_strings two_items) two_items split_csv-join_strings_example

abbrev values : OrderedMap Str
values = ([], bytes "x") ∷ (bytes "MaxCount", bytes "100") ∷ (bytes "Offset", bytes "abc") ∷ []

values-IsAscending : IsAscending values
unfolding str_lt bytes
values-IsAscending = ((refl, (refl, tt)), ((refl, tt), (tt, tt)))

converted :
    variant_map_from_strings (([], bytes "x") ∷ (bytes "MaxCount", bytes "100") ∷ [])
    ≡ ok (OrderedMap.insert (bytes "MaxCount") (sample u16 100) [])
unfolding variant_map_from_strings variant_map_loop variant_of_entry parsed_or is_uint16_key ◌==◌
    parse_uint16 accept_uint16 from_chars span_digits is_digit digits_value bytes
converted = refl

find-variant_map_from_strings_example :
    All Converts (([], bytes "x") ∷ (bytes "MaxCount", bytes "100") ∷ [])
    × ((k : Str)
        → OrderedMap.find k (OrderedMap.insert (bytes "MaxCount") (sample u16 100) [])
          ≡ overlay k
              (OrderedMap.find k (([], bytes "x") ∷ (bytes "MaxCount", bytes "100") ∷ []))
              none)
unfolding str_lt bytes
find-variant_map_from_strings_example =
    find-variant_map_from_strings (([], bytes "x") ∷ (bytes "MaxCount", bytes "100") ∷ [])
      (OrderedMap.insert (bytes "MaxCount") (sample u16 100) []) ((refl, tt), (tt, tt)) converted

refused : variant_map_from_strings values ≡ throws (std_exception (bytes "Offset must be a uint16"))
unfolding variant_map_from_strings variant_map_loop variant_of_entry parsed_or is_uint16_key ◌==◌
    parse_uint16 accept_uint16 from_chars span_digits is_digit digits_value bytes
refused = refl

variant_map_from_strings_throws_example :
    FirstFailure values (std_exception (bytes "Offset must be a uint16"))
variant_map_from_strings_throws_example =
    variant_map_from_strings_throws values (std_exception (bytes "Offset must be a uint16")) refused

split_csv_loop-enough_example :
    (out : List Str) × (split_csv_loop 3 (bytes "a,") 1 [] ≡ some out)
    × (split_csv_loop (3 + 4) (bytes "a,") 1 [] ≡ some out)
unfolding bytes
split_csv_loop-enough_example =
    split_csv_loop-enough (bytes "a,") 1 [] 3 4 (omega arith) (omega arith)

variant_to_string-cases_example :
    ((t : ValueType) × (x : Value t) × (text : Str) × (read t (sample u16 100) ≡ ok x)
      × (variant_to_string (sample u16 100) ≡ ok text)
      × IsTextOf t x text)
    ⊎ (((t : ValueType) → holds t (sample u16 100) ≡ false)
        × (variant_to_string (sample u16 100) ≡ sample_sdbus.dump_to_string (sample u16 100)))
variant_to_string-cases_example = variant_to_string-cases (sample u16 100)
