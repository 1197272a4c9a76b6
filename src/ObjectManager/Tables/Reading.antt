-- ===== src/ObjectManager/Tables/Reading.antt =====
-- Table lemmas of native/src/obex_object_manager.cpp and obex_proxy_utils.cpp: the read of one
-- property after another is written.
use bluez_obex_native.Common.{◌≡◌, true, false, Bool-cases, inl, inr}
use bluez_obex_native.Common.Strings.{Str, ◌==◌, ==_iff}
use bluez_obex_native.OrderedMap
use bluez_obex_native.OrderedMap.Laws.{find-insert, find-erase}
use bluez_obex_native.Sdbus.{Sdbus, ValueType, Value}
use bluez_obex_native.Bus.{PropertiesMap}
use bluez_obex_native.Properties.{get_property_value}

module _ ⦃s : Sdbus⦄ where
  open s use {Variant, contains_value_of_type, get-mismatch}

  -- A value of another type reads like no value.
  pub read_mistyped :
      (t : ValueType) (key : Str) (fallback : Value t) (name : Str) (v : Variant)
      (props : PropertiesMap)
      → (name ≡ key → contains_value_of_type t v ≡ false)
      → get_property_value t (OrderedMap.insert name v props) key fallback
        ≡ get_property_value t (OrderedMap.erase name props) key fallback
  unfolding get_property_value
  read_mistyped t key fallback name v props h = elim (Bool-cases (name == key)) [
    | inl e ↦
        let (n, m, thrown) = get-mismatch t v (h ((==_iff name key).0 e)) in
        rw (find-insert, find-erase, e, thrown)
    | inr e ↦ rw (find-insert, find-erase, e)
  ]

  -- A property of another name is not read.
  pub read_other :
      (t : ValueType) (key : Str) (fallback : Value t) (name : Str) (v : Variant)
      (props : PropertiesMap)
      → (name ≡ key → true ≡ false)
      → get_property_value t (OrderedMap.insert name v props) key fallback
        ≡ get_property_value t props key fallback
  unfolding get_property_value
  read_other t key fallback name v props h = elim (Bool-cases (name == key)) [
    | inl e ↦ absurd_read (h ((==_iff name key).0 e))
    | inr e ↦ rw (find-insert, e)
  ]
    where
      absurd_read :
          true ≡ false
          → get_property_value t (OrderedMap.insert name v props) key fallback
            ≡ get_property_value t props key fallback
      absurd_read f = cc
