-- ===== src/Native/Filtering.antt =====
-- `make_variant_map` of native/src/bluez_obex_client.cpp against the arrays that it is given.
use bluez_obex_native.Common.{ℕ, zero, suc, ◌≡◌, ◌∙◌, ap, Option, none, some, [], if◌then◌else◌}
use bluez_obex_native.Common.Int.{pos}
use bluez_obex_native.Common.Strings.{Str, ◌==◌}
use bluez_obex_native.OrderedMap
use bluez_obex_native.OrderedMap.{OrderedMap}
use bluez_obex_native.OrderedMap.Laws.{find-insert, find-empty}
use bluez_obex_native.OrderedMap.Sorted.{IsAscending, insert-IsAscending}
use bluez_obex_native.Sdbus.{Sdbus, ok}
use bluez_obex_native.Filters.Conversion.{overlay, find-variant_map_from_strings}
use bluez_obex_native.Bus.{PropertiesMap}
use bluez_obex_native.Native.Arguments.{
  CStrings, cstr_or_empty, collected, convert, make_variant_map,
}

-- The value at the last of the first `n` positions at which the key stands.
unfoldable pub last_value : CStrings → CStrings → Str → ℕ → Option Str
last_value keys values key zero = none
last_value keys values key (suc i) =
    let earlier = last_value keys values key i in
    if cstr_or_empty (keys i) == key then some (cstr_or_empty (values i)) else earlier

find-collected :
    (keys values : CStrings) (key : Str) (n : ℕ)
    → OrderedMap.find key (collected keys values n) ≡ last_value keys values key n
unfolding collected last_value
find-collected keys values key zero = find-empty key
find-collected keys values key (suc i) =
    find-insert (cstr_or_empty (keys i)) key (cstr_or_empty (values i)) (collected keys values i)
    ∙ ap (λ o. if cstr_or_empty (keys i) == key then some (cstr_or_empty (values i)) else o)
        (find-collected keys values key i)

collected-IsAscending : (keys values : CStrings) (n : ℕ) → IsAscending (collected keys values n)
unfolding collected
collected-IsAscending keys values zero = tt
collected-IsAscending keys values (suc i) =
    insert-IsAscending (cstr_or_empty (keys i)) (cstr_or_empty (values i)) _
      (collected-IsAscending keys values i)

module _ ⦃s : Sdbus⦄ where
  -- Where `make_variant_map` returns, every key that is not empty has the conversion of the value
  -- at its last position in the arrays, null read as the empty text, and no other key is there.
  pub find-make_variant_map :
      (keys values : CStrings) (n : ℕ) (out : PropertiesMap) (key : Str)
      → make_variant_map (record { keys = some keys; values = some values; count = pos n }) ≡ ok out
      → OrderedMap.find key out ≡ overlay key (last_value keys values key n) none
  unfolding make_variant_map convert last_value
  find-make_variant_map keys values zero out key e =
      let empty : [] ≡ out = cc in rw (← empty) (find-empty key)
  find-make_variant_map keys values (suc n) out key e =
      let (all, at) =
        find-variant_map_from_strings (collected keys values (suc n)) out
          (collected-IsAscending keys values (suc n)) e in
      at key ∙ ap (λ o. overlay key o none) (find-collected keys values key (suc n))
