-- ===== src/ObjectManager/Tables.antt =====
-- The tables of native/src/obex_object_manager.cpp against native/src/obex_proxy_utils.cpp: what
-- the manager lets into its cache is what the snapshots read.
mod Reading
mod Small
mod Message
use bluez_obex_native.Common.{
  ◌≡◌, refl, ap, Bool, true, false, Option, none, some, arith, if◌then◌else◌, Bool-cases, inl, inr,
}
use bluez_obex_native.Common.Strings.{Str, bytes, ◌==◌, ==_iff}
use bluez_obex_native.OrderedMap
use bluez_obex_native.OrderedMap.Laws.{find-insert, find-erase}
use bluez_obex_native.Sdbus.{
  Sdbus, ValueType, Value, initial, string, object_path, boolean, u8, u16, u64, strings, throws,
}
use bluez_obex_native.ObjectManager.Messages.{Payload}
use bluez_obex_native.ObjectManager.View.{snapshot}
use bluez_obex_native.Bus.{PropertiesMap}
use bluez_obex_native.Properties.{
  get_property_value, session_props_from_map, transfer_props_from_map, phonebook_props_from_map,
  message_props_from_map, message_access_props_from_map,
}
use bluez_obex_native.ObjectManager.Interfaces.{
  session_iface, transfer_iface, phonebook_iface, message_iface, message_access_iface,
  is_string_property, is_bool_property, is_known_property, has_expected_type,
}
use Small.{
  session_mistyped, session_unknown, transfer_mistyped, transfer_unknown, phonebook_mistyped,
  phonebook_unknown, message_access_mistyped, message_access_unknown,
}
use Message.{message_mistyped, message_unknown}

module _ ⦃s : Sdbus⦄ where
  open s use {Variant}

  module _ (path iface name : Str) (v : Variant) (props : PropertiesMap) where
    -- A value that `has_expected_type` refuses leaves no trace in a snapshot: cached, it would be
    -- read like a property that is not there.
    pub snapshot-mistyped :
        has_expected_type iface name v ≡ false
        → snapshot path iface (OrderedMap.insert name v props)
          ≡ snapshot path iface (OrderedMap.erase name props)
    unfolding snapshot ◌==◌ bytes
    snapshot-mistyped h = elim (Bool-cases (iface == session_iface)) [
      | inl e ↦
          let q : iface ≡ session_iface = (==_iff iface _).0 e in
          rw (q)
            (ap (λ x. some (Payload.session x)) (session_mistyped path name v props (rw q at h)))
      | inr n0 ↦ elim (Bool-cases (iface == transfer_iface)) [
        | inl e ↦
            let q : iface ≡ transfer_iface = (==_iff iface _).0 e in
            rw (q) (
              ap (λ x. some (Payload.transfer x)) (transfer_mistyped path name v props (rw q at h)))
        | inr n1 ↦ elim (Bool-cases (iface == phonebook_iface)) [
          | inl e ↦
              let q : iface ≡ phonebook_iface = (==_iff iface _).0 e in
              rw (q) (
                ap (λ x. some (Payload.phonebook x))
                  (phonebook_mistyped path name v props (rw q at h)))
          | inr n2 ↦ elim (Bool-cases (iface == message_iface)) [
            | inl e ↦
                let q : iface ≡ message_iface = (==_iff iface _).0 e in
                rw (q) (
                  ap (λ x. some (Payload.message x))
                    (message_mistyped path name v props (rw q at h)))
            | inr n3 ↦ elim (Bool-cases (iface == message_access_iface)) [
              | inl e ↦
                  let q : iface ≡ message_access_iface = (==_iff iface _).0 e in
                  rw (q) (
                    ap (λ x. some (Payload.message_access x))
                      (message_access_mistyped path name v props (rw q at h)))
              | inr n4 ↦ rw (n0, n1, n2, n3, n4) refl
            ]
          ]
        ]
      ]
    ]

    -- A property that `is_known_property` does not know is not read by any snapshot.
    pub snapshot-unknown :
        is_known_property iface name ≡ false
        → snapshot path iface (OrderedMap.insert name v props) ≡ snapshot path iface props
    unfolding snapshot ◌==◌ bytes
    snapshot-unknown h = elim (Bool-cases (iface == session_iface)) [
      | inl e ↦
          let q : iface ≡ session_iface = (==_iff iface _).0 e in
          rw (q)
            (ap (λ x. some (Payload.session x)) (session_unknown path name v props (rw q at h)))
      | inr n0 ↦ elim (Bool-cases (iface == transfer_iface)) [
        | inl e ↦
            let q : iface ≡ transfer_iface = (==_iff iface _).0 e in
            rw (q)
              (ap (λ x. some (Payload.transfer x)) (transfer_unknown path name v props (rw q at h)))
        | inr n1 ↦ elim (Bool-cases (iface == phonebook_iface)) [
          | inl e ↦
              let q : iface ≡ phonebook_iface = (==_iff iface _).0 e in
              rw (q) (
                ap (λ x. some (Payload.phonebook x))
                  (phonebook_unknown path name v props (rw q at h)))
          | inr n2 ↦ elim (Bool-cases (iface == message_iface)) [
            | inl e ↦
                let q : iface ≡ message_iface = (==_iff iface _).0 e in
                rw (q) (
                  ap (λ x. some (Payload.message x))
                    (message_unknown path name v props (rw q at h)))
            | inr n3 ↦ elim (Bool-cases (iface == message_access_iface)) [
              | inl e ↦
                  let q : iface ≡ message_access_iface = (==_iff iface _).0 e in
                  rw (q) (
                    ap (λ x. some (Payload.message_access x))
                      (message_access_unknown path name v props (rw q at h)))
              | inr n4 ↦ rw (n0, n1, n2, n3, n4) refl
            ]
          ]
        ]
      ]
    ]
