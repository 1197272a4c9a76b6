-- ===== src/Native/Arguments.antt =====
-- native/src/bluez_obex_client.cpp: texts and filters as they come from Dart.
use bluez_obex_native.Common.{ℕ, zero, suc, Option, some, [], get_or}
use bluez_obex_native.Common.Int.{ℤ, pos, negsuc}
use bluez_obex_native.Common.Strings.{Str, bytes}
use bluez_obex_native.OrderedMap
use bluez_obex_native.OrderedMap.{OrderedMap}
use bluez_obex_native.Sdbus.{Sdbus, Outcome, ok, throws, std_exception}
use bluez_obex_native.Bus.{PropertiesMap}
use bluez_obex_native.Filters.{variant_map_from_strings}

-- A `const char *`, null or the text up to its NUL; an array of them, read at any index; and the
-- three arguments of a filter.
abbrev pub CString : Type 0
CString = Option Str

abbrev pub CStrings : Type 0
CStrings = ℕ → CString

pub record FilterArguments : Type 0 where
  pub keys : Option CStrings
  pub values : Option CStrings
  pub count : ℤ

abbrev pub cstr_or_empty : CString → Str
cstr_or_empty value = get_or value []

-- `strings` after the first rounds of the loop.
unfoldable pub collected : CStrings → CStrings → ℕ → OrderedMap Str
collected keys values zero = []
collected keys values (suc i) =
    OrderedMap.insert (cstr_or_empty (keys i)) (cstr_or_empty (values i)) (collected keys values i)

module _ ⦃s : Sdbus⦄ where
  unfoldable pub convert : Option CStrings → Option CStrings → ℕ → Outcome PropertiesMap
  unfolding collected
  convert (some keys) (some values) count = variant_map_from_strings (collected keys values count)
  convert keys values count =
      throws (std_exception (bytes "filter keys and values must be non-null"))

  unfoldable pub make_variant_map : FilterArguments → Outcome PropertiesMap
  unfolding convert
  make_variant_map f = elim f.count [
    | negsuc n ↦ throws (std_exception (bytes "filter count must be non-negative"))
    | pos zero ↦ ok []
    | pos (suc n) ↦ convert f.keys f.values (suc n)
  ]
