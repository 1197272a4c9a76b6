-- ===== src/Runs/Arguments.antt =====
-- Runs of the conversion of arguments in native/src/bluez_obex_client.cpp.
use bluez_obex_native.Common.{◌≡◌, refl, some, none, [], ◌∷◌, ◌++◌}
use bluez_obex_native.Common.Int.{pos}
use bluez_obex_native.Common.Strings.{bytes, ◌==◌}
use bluez_obex_native.OrderedMap
use bluez_obex_native.OrderedMap.Sorted.{insert-append}
use bluez_obex_native.Sdbus.{u16, ok}
use bluez_obex_native.Bus.{PropertiesMap}
use bluez_obex_native.Filters.{
  parse_uint16, accept_uint16, from_chars, span_digits, parsed_or, variant_of_entry,
  variant_map_loop, variant_map_from_strings, is_uint16_key,
}
use bluez_obex_native.Filters.Decimal.{is_digit, digits_value}
use bluez_obex_native.Filters.Conversion.{overlay}
use bluez_obex_native.Native.Arguments.{CStrings, make_variant_map, convert, collected}
use bluez_obex_native.Native.Filtering.{last_value, find-make_variant_map}
use bluez_obex_native.Samples.Variants.{sample, sample_sdbus}

abbrev keys : CStrings
keys i = some (bytes "MaxCount")

abbrev values : CStrings
values i = some (bytes "100")

abbrev limited : PropertiesMap
limited = OrderedMap.insert (bytes "MaxCount") (sample u16 100) []

converted_entry : variant_map_from_strings ([] ++ (bytes "MaxCount", bytes "100") ∷ []) ≡ ok limited
unfolding variant_map_from_strings variant_map_loop variant_of_entry parsed_or is_uint16_key ◌==◌
    parse_uint16 accept_uint16 from_chars span_digits is_digit digits_value bytes
converted_entry = refl

made :
    make_variant_map (record { keys = some keys; values = some values; count = pos 1 }) ≡ ok limited
unfolding make_variant_map convert collected
made = rw (insert-append [] (bytes "MaxCount") (bytes "100") tt) converted_entry

find-make_variant_map_example :
    OrderedMap.find (bytes "MaxCount") limited
    ≡ overlay (bytes "MaxCount") (last_value keys values (bytes "MaxCount") 1) none
find-make_variant_map_example = find-make_variant_map keys values 1 limited (bytes "MaxCount") made
