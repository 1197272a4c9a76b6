-- ===== src/ObjectManager/Tables/Small.antt =====
-- Table lemmas of native/src/obex_object_manager.cpp and obex_proxy_utils.cpp: all interfaces
-- but that of a message.
use bluez_obex_native.Common.{◌≡◌, false}
use bluez_obex_native.Common.Strings.{Str, bytes, ◌==◌}
use bluez_obex_native.OrderedMap
use bluez_obex_native.Sdbus.{Sdbus, initial, string, object_path, boolean, u8, u16, u64, strings}
use bluez_obex_native.Bus.{PropertiesMap}
use bluez_obex_native.Properties.{
  session_props_from_map, transfer_props_from_map, phonebook_props_from_map,
  message_access_props_from_map,
}
use bluez_obex_native.ObjectManager.Interfaces.{
  session_iface, transfer_iface, phonebook_iface, message_access_iface, is_string_property,
  is_bool_property, is_known_property, has_expected_type,
}
use bluez_obex_native.ObjectManager.Tables.Reading.{read_mistyped, read_other}

module _ ⦃s : Sdbus⦄ where
  open s use {Variant}

  module _ (path name : Str) (v : Variant) (props : PropertiesMap) where
    pub session_mistyped :
        has_expected_type session_iface name v ≡ false
        → session_props_from_map path (OrderedMap.insert name v props)
          ≡ session_props_from_map path (OrderedMap.erase name props)
    unfolding session_props_from_map has_expected_type is_string_property is_bool_property ◌==◌
        bytes
    session_mistyped h = λ j. record {
      object_path = path;
      source =
          read_mistyped string (bytes "Source") (initial string) name v props (λ e. rw e at h) j;
      destination =
          read_mistyped string (bytes "Destination") (initial string) name v props (λ e. rw e at h)
            j;
      channel = read_mistyped u8 (bytes "Channel") (initial u8) name v props (λ e. rw e at h) j;
      psm = read_mistyped u16 (bytes "PSM") (initial u16) name v props (λ e. rw e at h) j;
      target =
          read_mistyped string (bytes "Target") (initial string) name v props (λ e. rw e at h) j;
      root = read_mistyped string (bytes "Root") (initial string) name v props (λ e. rw e at h) j;
    }

    pub session_unknown :
        is_known_property session_iface name ≡ false
        → session_props_from_map path (OrderedMap.insert name v props)
          ≡ session_props_from_map path props
    unfolding session_props_from_map is_known_property is_string_property is_bool_property ◌==◌
        bytes
    session_unknown h = λ j. record {
      object_path = path;
      source = read_other string (bytes "Source") (initial string) name v props (λ e. rw e at h) j;
      destination =
          read_other string (bytes "Destination") (initial string) name v props (λ e. rw e at h) j;
      channel = read_other u8 (bytes "Channel") (initial u8) name v props (λ e. rw e at h) j;
      psm = read_other u16 (bytes "PSM") (initial u16) name v props (λ e. rw e at h) j;
      target = read_other string (bytes "Target") (initial string) name v props (λ e. rw e at h) j;
      root = read_other string (bytes "Root") (initial string) name v props (λ e. rw e at h) j;
    }

  module _ (path name : Str) (v : Variant) (props : PropertiesMap) where
    pub transfer_mistyped :
        has_expected_type transfer_iface name v ≡ false
        → transfer_props_from_map path (OrderedMap.insert name v props)
          ≡ transfer_props_from_map path (OrderedMap.erase name props)
    unfolding transfer_props_from_map has_expected_type is_string_property is_bool_property ◌==◌
        bytes
    transfer_mistyped h = λ j. record {
      object_path = path;
      status =
          read_mistyped string (bytes "Status") (initial string) name v props (λ e. rw e at h) j;
      session =
          read_mistyped object_path (bytes "Session") (initial object_path) name v props
            (λ e. rw e at h) j;
      name = read_mistyped string (bytes "Name") (initial string) name v props (λ e. rw e at h) j;
      type = read_mistyped string (bytes "Type") (initial string) name v props (λ e. rw e at h) j;
      time = read_mistyped u64 (bytes "Time") (initial u64) name v props (λ e. rw e at h) j;
      size = read_mistyped u64 (bytes "Size") (initial u64) name v props (λ e. rw e at h) j;
      transferred =
          read_mistyped u64 (bytes "Transferred") (initial u64) name v props (λ e. rw e at h) j;
      filename =
          read_mistyped string (bytes "Filename") (initial string) name v props (λ e. rw e at h) j;
    }

    pub transfer_unknown :
        is_known_property transfer_iface name ≡ false
        → transfer_props_from_map path (OrderedMap.insert name v props)
          ≡ transfer_props_from_map path props
    unfolding transfer_props_from_map is_known_property is_string_property is_bool_property ◌==◌
        bytes
    transfer_unknown h = λ j. record {
      object_path = path;
      status = read_other string (bytes "Status") (initial string) name v props (λ e. rw e at h) j;
      session =
          read_other object_path (bytes "Session") (initial object_path) name v props
            (λ e. rw e at h) j;
      name = read_other string (bytes "Name") (initial string) name v props (λ e. rw e at h) j;
      type = read_other string (bytes "Type") (initial string) name v props (λ e. rw e at h) j;
      time = read_other u64 (bytes "Time") (initial u64) name v props (λ e. rw e at h) j;
      size = read_other u64 (bytes "Size") (initial u64) name v props (λ e. rw e at h) j;
      transferred =
          read_other u64 (bytes "Transferred") (initial u64) name v props (λ e. rw e at h) j;
      filename =
          read_other string (bytes "Filename") (initial string) name v props (λ e. rw e at h) j;
    }

  module _ (path name : Str) (v : Variant) (props : PropertiesMap) where
    pub phonebook_mistyped :
        has_expected_type phonebook_iface name v ≡ false
        → phonebook_props_from_map path (OrderedMap.insert name v props)
          ≡ phonebook_props_from_map path (OrderedMap.erase name props)
    unfolding phonebook_props_from_map has_expected_type is_string_property is_bool_property ◌==◌
        bytes
    phonebook_mistyped h = λ j. record {
      object_path = path;
      folder =
          read_mistyped string (bytes "Folder") (initial string) name v props (λ e. rw e at h) j;
      database_identifier =
          read_mistyped string (bytes "DatabaseIdentifier") (initial string) name v props
            (λ e. rw e at h) j;
      primary_counter =
          read_mistyped string (bytes "PrimaryCounter") (initial string) name v props
            (λ e. rw e at h) j;
      secondary_counter =
          read_mistyped string (bytes "SecondaryCounter") (initial string) name v props
            (λ e. rw e at h) j;
      fixed_image_size =
          read_mistyped boolean (bytes "FixedImageSize") (initial boolean) name v props
            (λ e. rw e at h) j;
    }

    pub phonebook_unknown :
        is_known_property phonebook_iface name ≡ false
        → phonebook_props_from_map path (OrderedMap.insert name v props)
          ≡ phonebook_props_from_map path props
    unfolding phonebook_props_from_map is_known_property is_string_property is_bool_property ◌==◌
        bytes
    phonebook_unknown h = λ j. record {
      object_path = path;
      folder = read_other string (bytes "Folder") (initial string) name v props (λ e. rw e at h) j;
      database_identifier =
          read_other string (bytes "DatabaseIdentifier") (initial string) name v props
            (λ e. rw e at h) j;
      primary_counter =
          read_other string (bytes "PrimaryCounter") (initial string) name v props (λ e. rw e at h)
            j;
      secondary_counter =
          read_other string (bytes "SecondaryCounter") (initial string) name v props
            (λ e. rw e at h) j;
      fixed_image_size =
          read_other boolean (bytes "FixedImageSize") (initial boolean) name v props
            (λ e. rw e at h) j;
    }

  module _ (path name : Str) (v : Variant) (props : PropertiesMap) where
    pub message_access_mistyped :
        has_expected_type message_access_iface name v ≡ false
        → message_access_props_from_map path (OrderedMap.insert name v props)
          ≡ message_access_props_from_map path (OrderedMap.erase name props)
    unfolding message_access_props_from_map has_expected_type is_string_property is_bool_property
        ◌==◌ bytes
    message_access_mistyped h = λ j. record {
      object_path = path;
      supported_types =
          read_mistyped strings (bytes "SupportedTypes") (initial strings) name v props
            (λ e. rw e at h) j;
    }

    pub message_access_unknown :
        is_known_property message_access_iface name ≡ false
        → message_access_props_from_map path (OrderedMap.insert name v props)
          ≡ message_access_props_from_map path props
    unfolding message_access_props_from_map is_known_property is_string_property is_bool_property
        ◌==◌ bytes
    message_access_unknown h = λ j. record {
      object_path = path;
      supported_types =
          read_other strings (bytes "SupportedTypes") (initial strings) name v props
            (λ e. rw e at h) j;
    }
