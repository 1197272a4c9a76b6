-- ===== src/Generated/Getters/Agreement.antt =====
-- The readers of the generated proxies and the tables of the object manager.
use bluez_obex_native.Common.{◌≡◌, refl, ◌⊎◌, inl, inr, true, false, Bool-cases, some, List}
use bluez_obex_native.Common.Strings.{Str, bytes, ◌==◌}
use bluez_obex_native.Sdbus.{Sdbus, ValueType, Value, Exception, initial, dbus_error, ok, throws}
use bluez_obex_native.Bus.{PropertiesMap, Bus, Request, get_property, reply, one_variant}
use bluez_obex_native.ObjectManager.Interfaces.{
  is_string_property, is_bool_property, is_known_property, has_expected_type,
}
use bluez_obex_native.OrderedMap
use bluez_obex_native.Properties.{get_property_value}
use bluez_obex_native.Generated.Getters.Shown.{shown, shown-get_property_value}
use bluez_obex_native.Generated.{read_property}
use bluez_obex_native.Generated.Getters.{
  Getter, Property, property_of, get, session_source, session_destination, session_channel,
  session_psm, session_target, session_root, transfer_status, transfer_session, transfer_name,
  transfer_type, transfer_time, transfer_size, transfer_transferred, transfer_filename,
  phonebook_folder, phonebook_database_identifier, phonebook_primary_counter,
  phonebook_secondary_counter, phonebook_fixed_image_size, message_access_supported_types,
  message_folder, message_subject, message_timestamp, message_sender, message_sender_address,
  message_reply_to, message_recipient, message_recipient_address, message_type, message_size,
  message_status, message_priority, message_read, message_sent, message_protected,
  message_delivery_status, message_conversation_id, message_conversation_name, message_direction,
  message_attachment_mime_types,
}

known : (g : Getter) → is_known_property (property_of g).interface_name (property_of g).name ≡ true
unfolding is_known_property is_string_property is_bool_property ◌==◌ bytes
known session_source = refl
known session_destination = refl
known session_channel = refl
known session_psm = refl
known session_target = refl
known session_root = refl
known transfer_status = refl
known transfer_session = refl
known transfer_name = refl
known transfer_type = refl
known transfer_time = refl
known transfer_size = refl
known transfer_transferred = refl
known transfer_filename = refl
known phonebook_folder = refl
known phonebook_database_identifier = refl
known phonebook_primary_counter = refl
known phonebook_secondary_counter = refl
known phonebook_fixed_image_size = refl
known message_access_supported_types = refl
known message_folder = refl
known message_subject = refl
known message_timestamp = refl
known message_sender = refl
known message_sender_address = refl
known message_reply_to = refl
known message_recipient = refl
known message_recipient_address = refl
known message_type = refl
known message_size = refl
known message_status = refl
known message_priority = refl
known message_read = refl
known message_sent = refl
known message_protected = refl
known message_delivery_status = refl
known message_conversation_id = refl
known message_conversation_name = refl
known message_direction = refl
known message_attachment_mime_types = refl

module _ ⦃s : Sdbus⦄ where
  open s use {Variant, contains_value_of_type}

  expected :
      (g : Getter) (v : Variant)
      → has_expected_type (property_of g).interface_name (property_of g).name v
        ≡ contains_value_of_type (property_of g).value_type v
  unfolding has_expected_type is_string_property is_bool_property ◌==◌ bytes
  expected session_source v = refl
  expected session_destination v = refl
  expected session_channel v = refl
  expected session_psm v = refl
  expected session_target v = refl
  expected session_root v = refl
  expected transfer_status v = refl
  expected transfer_session v = refl
  expected transfer_name v = refl
  expected transfer_type v = refl
  expected transfer_time v = refl
  expected transfer_size v = refl
  expected transfer_transferred v = refl
  expected transfer_filename v = refl
  expected phonebook_folder v = refl
  expected phonebook_database_identifier v = refl
  expected phonebook_primary_counter v = refl
  expected phonebook_secondary_counter v = refl
  expected phonebook_fixed_image_size v = refl
  expected message_access_supported_types v = refl
  expected message_folder v = refl
  expected message_subject v = refl
  expected message_timestamp v = refl
  expected message_sender v = refl
  expected message_sender_address v = refl
  expected message_reply_to v = refl
  expected message_recipient v = refl
  expected message_recipient_address v = refl
  expected message_type v = refl
  expected message_size v = refl
  expected message_status v = refl
  expected message_priority v = refl
  expected message_read v = refl
  expected message_sent v = refl
  expected message_protected v = refl
  expected message_delivery_status v = refl
  expected message_conversation_id v = refl
  expected message_conversation_name v = refl
  expected message_direction v = refl
  expected message_attachment_mime_types v = refl

  module _ ⦃bus : Bus⦄ where
    reads :
        (g : Getter) (path : Str)
        → get g path
          ≡ read_property
              (property_of g).value_type
              path
              (property_of g).interface_name
              (property_of g).name
    reads session_source path = refl
    reads session_destination path = refl
    reads session_channel path = refl
    reads session_psm path = refl
    reads session_target path = refl
    reads session_root path = refl
    reads transfer_status path = refl
    reads transfer_session path = refl
    reads transfer_name path = refl
    reads transfer_type path = refl
    reads transfer_time path = refl
    reads transfer_size path = refl
    reads transfer_transferred path = refl
    reads transfer_filename path = refl
    reads phonebook_folder path = refl
    reads phonebook_database_identifier path = refl
    reads phonebook_primary_counter path = refl
    reads phonebook_secondary_counter path = refl
    reads phonebook_fixed_image_size path = refl
    reads message_access_supported_types path = refl
    reads message_folder path = refl
    reads message_subject path = refl
    reads message_timestamp path = refl
    reads message_sender path = refl
    reads message_sender_address path = refl
    reads message_reply_to path = refl
    reads message_recipient path = refl
    reads message_recipient_address path = refl
    reads message_type path = refl
    reads message_size path = refl
    reads message_status path = refl
    reads message_priority path = refl
    reads message_read path = refl
    reads message_sent path = refl
    reads message_protected path = refl
    reads message_delivery_status path = refl
    reads message_conversation_id path = refl
    reads message_conversation_name path = refl
    reads message_direction path = refl
    reads message_attachment_mime_types path = refl

    read_property-ok :
        (t : ValueType) (path interface_name name : Str) (log : List Request) (v : Variant)
        (x : Value t)
        → bus.respond one_variant log (get_property path interface_name name) ≡ reply v
        → s.get t v ≡ ok x
        → (read_property t path interface_name name log).0 ≡ ok x
    read_property-ok t path interface_name name log v x answer e = rw (answer, e) refl

    read_property-throws :
        (t : ValueType) (path interface_name name : Str) (log : List Request) (v : Variant)
        (e : Exception)
        → bus.respond one_variant log (get_property path interface_name name) ≡ reply v
        → s.get t v ≡ throws e
        → (read_property t path interface_name name log).0 ≡ throws e
    read_property-throws t path interface_name name log v e answer h = rw (answer, h) refl

    -- The manager knows the property; it accepts the value and the reader returns what the struct
    -- of a snapshot shows, or it refuses the value, the reader throws a D-Bus error, and the struct
    -- shows the initial value of the type.
    abbrev pub Agrees : Getter → Str → List Request → PropertiesMap → Variant → Type 0
    Agrees g path log properties v =
        let p : Property = property_of g in
        (is_known_property p.interface_name p.name ≡ true)
        × (((has_expected_type p.interface_name p.name v ≡ true)
              × ((get g path log).0 ≡ ok (shown g path properties)))
            ⊎ ((has_expected_type p.interface_name p.name v ≡ false)
                × ((label : Str) × (message : Str) × ((get g path log).0
                      ≡ throws (dbus_error label message)))
                × (shown g path properties ≡ initial p.value_type)))

    -- Where a property is cached with the value that the service answers, a reader of a generated
    -- proxy and the object manager agree: the manager knows the property; it accepts the value
    -- just where the reader returns, and then the reader returns what the struct of a snapshot
    -- shows; and where the manager refuses the value, the reader throws a D-Bus error, and the
    -- struct shows the initial value of the type.
    pub get-has_expected_type :
        (g : Getter) (path : Str) (log : List Request) (properties : PropertiesMap) (v : Variant)
        → OrderedMap.find (property_of g).name properties ≡ some v
        → bus.respond one_variant log
            (get_property path (property_of g).interface_name (property_of g).name)
          ≡ reply v
        → Agrees g path log properties v
    unfolding get_property_value
    get-has_expected_type g path log properties v cached answer =
        let p : Property = property_of g in
        rw (reads g path, expected g v, shown-get_property_value g path properties, cached)
          (
            known g,
            elim (Bool-cases (contains_value_of_type p.value_type v)) [
              | inl held ↦
                  let (x, e) = s.get-contains p.value_type v held in
                  inl (
                    held,
                    rw e (
                        read_property-ok p.value_type path p.interface_name p.name log v x answer
                          e),
                  )
              | inr missing ↦
                  let (label, message, e) = s.get-mismatch p.value_type v missing in
                  inr (
                    missing,
                    (
                      label,
                      message,
                      read_property-throws p.value_type path p.interface_name p.name log v
                          (dbus_error label message) answer e,
                    ),
                    rw e refl,
                  )
            ],
          )
