-- ===== src/ObjectManager/Changes/Merging.antt =====
-- The cache of an interface after the two loops of the handler of PropertiesChanged.
use bluez_obex_native.Common.{
  ◌≡◌, refl, sym, ◌∙◌, ap, Bool, true, false, Option, none, some, List, [], ◌∷◌, ◌++◌, append_assoc,
  append-nil, arith, inl, inr, Bool-cases, if◌then◌else◌, ◌||◌,
}
use bluez_obex_native.Common.Strings.{Str, ◌==◌, ==_iff}
use bluez_obex_native.OrderedMap
use bluez_obex_native.OrderedMap.{OrderedMap}
use bluez_obex_native.OrderedMap.Laws.{find-insert, find-erase, find-cons, find-empty}
use bluez_obex_native.OrderedMap.Sorted.{Above, IsAscending, find-Above}
use bluez_obex_native.Sdbus.{Sdbus}
use bluez_obex_native.Bus.{PropertiesMap}
use bluez_obex_native.ObjectManager.Interfaces.{is_known_property, has_expected_type}
use bluez_obex_native.ObjectManager.Changes.{merge_changed, drop_invalidated}

-- The keys that the manager knows, in order.
unfoldable pub known_keys : Str → List Str → List Str
known_keys iface [] = []
known_keys iface (key ∷ keys) =
    let rest = known_keys iface keys in if is_known_property iface key then key ∷ rest else rest

unfoldable pub has_key : Str → List Str → Bool
has_key key [] = false
has_key key (k ∷ keys) = k == key || has_key key keys

module _ ⦃s : Sdbus⦄ where
  open s use {Variant}

  -- What is under a key after the loop over the changed properties: the new value where it has the
  -- expected type, and else the old one.
  abbrev pub updated : Str → Str → Option Variant → Option Variant → Option Variant
  updated iface key none old = old
  updated iface key (some value) old = if has_expected_type iface key value then some value else old

  abbrev step : Str → Str → Variant → PropertiesMap × Bool → PropertiesMap × Bool
  step iface key value (cached, changed_cache) =
      if has_expected_type iface key value
      then (OrderedMap.insert key value cached, true)
      else (cached, changed_cache)

  updated-step :
      (iface k key : Str) (value : Variant) (changed cached : PropertiesMap) (b : Bool)
      → Above key changed
      → updated iface k
          (OrderedMap.find k changed)
          (OrderedMap.find k (step iface key value (cached, b)).0)
        ≡ updated iface k (OrderedMap.find k ((key, value) ∷ changed)) (OrderedMap.find k cached)
  updated-step iface k key value changed cached b above = elim (Bool-cases (key == k)) [
    | inl e ↦
        let same : key ≡ k = (==_iff key k).0 e in
        let absent : OrderedMap.find k changed ≡ none =
          rw (← same) (find-Above key changed above) in
        rw (absent, find-cons k key value changed, e, ← same)
          (elim (Bool-cases (has_expected_type iface key value)) [
            | inl h ↦ rw (h, find-insert key key value cached, same, (==_iff k k).1 refl) refl
            | inr h ↦ rw h refl
          ])
    | inr e ↦
        rw (find-cons k key value changed, e)
          (elim (Bool-cases (has_expected_type iface key value)) [
            | inl h ↦ rw (h, find-insert key k value cached, e) refl
            | inr h ↦ rw h refl
          ])
  ]

  find-merge_changed :
      (iface k : Str) (changed cached : PropertiesMap) (b : Bool)
      → IsAscending changed
      → OrderedMap.find k (merge_changed iface changed (cached, b)).0
        ≡ updated iface k (OrderedMap.find k changed) (OrderedMap.find k cached)
  unfolding merge_changed
  find-merge_changed iface k [] cached b a = rw (find-empty {V = Variant} k) refl
  find-merge_changed iface k ((key, value) ∷ changed) cached b (above, a) =
      find-merge_changed iface k changed (step iface key value (cached, b)).0
        (step iface key value (cached, b)).1 a
      ∙ updated-step iface k key value changed cached b above

  abbrev drop_step : Str → Str → PropertiesMap × List Str × Bool → PropertiesMap × List Str × Bool
  drop_step iface key (cached, relevant, changed_cache) =
      if is_known_property iface key
      then (OrderedMap.erase key cached, relevant ++ key ∷ [], true)
      else (cached, relevant, changed_cache)

  find-drop_invalidated :
      (iface k : Str) (invalidated : List Str) (cached : PropertiesMap) (relevant : List Str)
      (b : Bool)
      → OrderedMap.find k (drop_invalidated iface invalidated (cached, relevant, b)).0
        ≡ (if has_key k (known_keys iface invalidated) then none else OrderedMap.find k cached)
  unfolding drop_invalidated known_keys has_key
  find-drop_invalidated iface k [] cached relevant b = refl
  find-drop_invalidated iface k (key ∷ invalidated) cached relevant b =
      find-drop_invalidated iface k invalidated (drop_step iface key (cached, relevant, b)).0
        (drop_step iface key (cached, relevant, b)).1 (drop_step iface key (cached, relevant, b)).2
      ∙ elim (Bool-cases (is_known_property iface key)) [
        | inl h ↦ rw (h, find-erase key k cached) (ground arith)
        | inr h ↦ rw h refl
      ]

  relevant-drop_invalidated :
      (iface : Str) (invalidated : List Str) (cached : PropertiesMap) (relevant : List Str)
      (b : Bool)
      → (drop_invalidated iface invalidated (cached, relevant, b)).1
        ≡ relevant ++ known_keys iface invalidated
  unfolding drop_invalidated known_keys
  relevant-drop_invalidated iface [] cached relevant b = sym (append-nil relevant)
  relevant-drop_invalidated iface (key ∷ invalidated) cached relevant b =
      relevant-drop_invalidated iface invalidated (drop_step iface key (cached, relevant, b)).0
        (drop_step iface key (cached, relevant, b)).1 (drop_step iface key (cached, relevant, b)).2
      ∙ elim (Bool-cases (is_known_property iface key)) [
        | inl h ↦ rw h (append_assoc relevant (key ∷ []) (known_keys iface invalidated))
        | inr h ↦ rw h refl
      ]

  -- The two loops of the handler, one after the other.
  abbrev pub after_loops :
      Str → PropertiesMap → List Str → PropertiesMap → PropertiesMap × List Str × Bool
  after_loops iface changed invalidated props =
      let merged = merge_changed iface changed (props, false) in
      drop_invalidated iface invalidated (merged.0, [], merged.1)

  -- After the two loops of the handler of PropertiesChanged, a property that was invalidated and is
  -- known is not cached any more, also where it was changed too; any other has its new value, where
  -- that has the expected type, and else the one that it had. The properties that are queried
  -- anew are the known ones among the invalidated, in order.
  pub find-after_loops :
      (iface key : Str) (changed : PropertiesMap) (invalidated : List Str) (props : PropertiesMap)
      → IsAscending changed
      → (OrderedMap.find key (after_loops iface changed invalidated props).0 ≡ (
          if has_key key (known_keys iface invalidated)
          then none
          else updated iface key (OrderedMap.find key changed) (OrderedMap.find key props)))
        × ((after_loops iface changed invalidated props).1 ≡ known_keys iface invalidated)
  find-after_loops iface key changed invalidated props a =
      let merged : PropertiesMap × Bool = merge_changed iface changed (props, false) in
      (
        find-drop_invalidated iface key invalidated merged.0 [] merged.1
            ∙ ap (λ o. if has_key key (known_keys iface invalidated) then none else o)
                (find-merge_changed iface key changed props false a),
        relevant-drop_invalidated iface invalidated merged.0 [] merged.1,
      )
