-- ===== src/Generated/Getters/Shown.antt =====
-- What the structs of native/src/obex_proxy_utils.cpp show of the properties with a reader.
use bluez_obex_native.Common.{◌≡◌, refl}
use bluez_obex_native.Common.Strings.{Str}
use bluez_obex_native.Sdbus.{Sdbus, Value, initial}
use bluez_obex_native.Bus.{PropertiesMap}
use bluez_obex_native.Properties.{
  get_property_value, session_props_from_map, transfer_props_from_map, phonebook_props_from_map,
  message_props_from_map, message_access_props_from_map,
}
use bluez_obex_native.Generated.Getters.{
  Getter, property_of, session_source, session_destination, session_channel, session_psm,
  session_target, session_root, transfer_status, transfer_session, transfer_name, transfer_type,
  transfer_time, transfer_size, transfer_transferred, transfer_filename, phonebook_folder,
  phonebook_database_identifier, phonebook_primary_counter, phonebook_secondary_counter,
  phonebook_fixed_image_size, message_access_supported_types, message_folder, message_subject,
  message_timestamp, message_sender, message_sender_address, message_reply_to, message_recipient,
  message_recipient_address, message_type, message_size, message_status, message_priority,
  message_read, message_sent, message_protected, message_delivery_status, message_conversation_id,
  message_conversation_name, message_direction, message_attachment_mime_types,
}

module _ ⦃s : Sdbus⦄ where
  -- The member of the struct, which is what a snapshot carries.
  abbrev pub shown : (g : Getter) → Str → PropertiesMap → Value (property_of g).value_type
  shown session_source path props = (session_props_from_map path props).source
  shown session_destination path props = (session_props_from_map path props).destination
  shown session_channel path props = (session_props_from_map path props).channel
  shown session_psm path props = (session_props_from_map path props).psm
  shown session_target path props = (session_props_from_map path props).target
  shown session_root path props = (session_props_from_map path props).root
  shown transfer_status path props = (transfer_props_from_map path props).status
  shown transfer_session path props = (transfer_props_from_map path props).session
  shown transfer_name path props = (transfer_props_from_map path props).name
  shown transfer_type path props = (transfer_props_from_map path props).type
  shown transfer_time path props = (transfer_props_from_map path props).time
  shown transfer_size path props = (transfer_props_from_map path props).size
  shown transfer_transferred path props = (transfer_props_from_map path props).transferred
  shown transfer_filename path props = (transfer_props_from_map path props).filename
  shown phonebook_folder path props = (phonebook_props_from_map path props).folder
  shown phonebook_database_identifier path props =
      (phonebook_props_from_map path props).database_identifier
  shown phonebook_primary_counter path props = (phonebook_props_from_map path props).primary_counter
  shown phonebook_secondary_counter path props =
      (phonebook_props_from_map path props).secondary_counter
  shown phonebook_fixed_image_size path props =
      (phonebook_props_from_map path props).fixed_image_size
  shown message_access_supported_types path props =
      (message_access_props_from_map path props).supported_types
  shown message_folder path props = (message_props_from_map path props).folder
  shown message_subject path props = (message_props_from_map path props).subject
  shown message_timestamp path props = (message_props_from_map path props).timestamp
  shown message_sender path props = (message_props_from_map path props).sender
  shown message_sender_address path props = (message_props_from_map path props).sender_address
  shown message_reply_to path props = (message_props_from_map path props).reply_to
  shown message_recipient path props = (message_props_from_map path props).recipient
  shown message_recipient_address path props = (message_props_from_map path props).recipient_address
  shown message_type path props = (message_props_from_map path props).type
  shown message_size path props = (message_props_from_map path props).size
  shown message_status path props = (message_props_from_map path props).status
  shown message_priority path props = (message_props_from_map path props).priority
  shown message_read path props = (message_props_from_map path props).read
  shown message_sent path props = (message_props_from_map path props).sent
  shown message_protected path props = (message_props_from_map path props).protected
  shown message_delivery_status path props = (message_props_from_map path props).delivery_status
  shown message_conversation_id path props = (message_props_from_map path props).conversation_id
  shown message_conversation_name path props = (message_props_from_map path props).conversation_name
  shown message_direction path props = (message_props_from_map path props).direction
  shown message_attachment_mime_types path props =
      (message_props_from_map path props).attachment_mime_types

  pub shown-get_property_value :
      (g : Getter) (path : Str) (props : PropertiesMap)
      → shown g path props
        ≡ get_property_value
            (property_of g).value_type
            props
            (property_of g).name
            (initial (property_of g).value_type)
  unfolding session_props_from_map transfer_props_from_map phonebook_props_from_map
      message_props_from_map message_access_props_from_map
  shown-get_property_value session_source path props = refl
  shown-get_property_value session_destination path props = refl
  shown-get_property_value session_channel path props = refl
  shown-get_property_value session_psm path props = refl
  shown-get_property_value session_target path props = refl
  shown-get_property_value session_root path props = refl
  shown-get_property_value transfer_status path props = refl
  shown-get_property_value transfer_session path props = refl
  shown-get_property_value transfer_name path props = refl
  shown-get_property_value transfer_type path props = refl
  shown-get_property_value transfer_time path props = refl
  shown-get_property_value transfer_size path props = refl
  shown-get_property_value transfer_transferred path props = refl
  shown-get_property_value transfer_filename path props = refl
  shown-get_property_value phonebook_folder path props = refl
  shown-get_property_value phonebook_database_identifier path props = refl
  shown-get_property_value phonebook_primary_counter path props = refl
  shown-get_property_value phonebook_secondary_counter path props = refl
  shown-get_property_value phonebook_fixed_image_size path props = refl
  shown-get_property_value message_access_supported_types path props = refl
  shown-get_property_value message_folder path props = refl
  shown-get_property_value message_subject path props = refl
  shown-get_property_value message_timestamp path props = refl
  shown-get_property_value message_sender path props = refl
  shown-get_property_value message_sender_address path props = refl
  shown-get_property_value message_reply_to path props = refl
  shown-get_property_value message_recipient path props = refl
  shown-get_property_value message_recipient_address path props = refl
  shown-get_property_value message_type path props = refl
  shown-get_property_value message_size path props = refl
  shown-get_property_value message_status path props = refl
  shown-get_property_value message_priority path props = refl
  shown-get_property_value message_read path props = refl
  shown-get_property_value message_sent path props = refl
  shown-get_property_value message_protected path props = refl
  shown-get_property_value message_delivery_status path props = refl
  shown-get_property_value message_conversation_id path props = refl
  shown-get_property_value message_conversation_name path props = refl
  shown-get_property_value message_direction path props = refl
  shown-get_property_value message_attachment_mime_types path props = refl
