-- ===== src/ObjectManager/Interfaces.antt =====
-- native/src/obex_object_manager.cpp: the interfaces and properties that the manager knows, and
-- the types that their values must have.
use bluez_obex_native.Common.{Bool, true, false, ◌&&◌, ◌||◌, if◌then◌else◌}
use bluez_obex_native.Common.Strings.{Str, bytes, ◌==◌}
use bluez_obex_native.Sdbus.{Sdbus, string, object_path, boolean, u8, u16, u64, strings}

abbrev pub session_iface : Str
session_iface = bytes "org.bluez.obex.Session1"

abbrev pub transfer_iface : Str
transfer_iface = bytes "org.bluez.obex.Transfer1"

abbrev pub phonebook_iface : Str
phonebook_iface = bytes "org.bluez.obex.PhonebookAccess1"

abbrev pub message_access_iface : Str
message_access_iface = bytes "org.bluez.obex.MessageAccess1"

abbrev pub message_iface : Str
message_iface = bytes "org.bluez.obex.Message1"

unfoldable pub is_obex_interface : Str → Bool
is_obex_interface interface_name =
    interface_name == session_iface
    || interface_name == transfer_iface
    || interface_name == phonebook_iface
    || interface_name == message_access_iface
    || interface_name == message_iface

unfoldable pub is_string_property : Str → Str → Bool
is_string_property interface_name name =
    if interface_name == session_iface
    then name == bytes "Source"
      || name == bytes "Destination"
      || name == bytes "Target"
      || name == bytes "Root"
    else if interface_name == transfer_iface
    then name == bytes "Status"
      || name == bytes "Name"
      || name == bytes "Type"
      || name == bytes "Filename"
    else if interface_name == phonebook_iface
    then name == bytes "Folder"
      || name == bytes "DatabaseIdentifier"
      || name == bytes "PrimaryCounter"
      || name == bytes "SecondaryCounter"
    else if interface_name == message_iface
    then name == bytes "Folder"
      || name == bytes "Subject"
      || name == bytes "Timestamp"
      || name == bytes "Sender"
      || name == bytes "SenderAddress"
      || name == bytes "ReplyTo"
      || name == bytes "Recipient"
      || name == bytes "RecipientAddress"
      || name == bytes "Type"
      || name == bytes "Status"
      || name == bytes "DeliveryStatus"
      || name == bytes "ConversationName"
      || name == bytes "Direction"
      || name == bytes "AttachmentMimeTypes"
    else false

unfoldable pub is_bool_property : Str → Str → Bool
is_bool_property interface_name name =
    if interface_name == phonebook_iface
    then name == bytes "FixedImageSize"
    else if interface_name == message_iface
    then name == bytes "Text"
      || name == bytes "Priority"
      || name == bytes "Read"
      || name == bytes "Deleted"
      || name == bytes "Sent"
      || name == bytes "Protected"
    else false

unfoldable pub is_known_property : Str → Str → Bool
is_known_property interface_name name =
    if is_string_property interface_name name || is_bool_property interface_name name
    then true
    else if interface_name == session_iface
    then name == bytes "Channel" || name == bytes "PSM"
    else if interface_name == transfer_iface
    then name == bytes "Session"
      || name == bytes "Time"
      || name == bytes "Size"
      || name == bytes "Transferred"
    else if interface_name == message_iface
    then name == bytes "Size" || name == bytes "AttachmentSize" || name == bytes "ConversationId"
    else interface_name == message_access_iface && name == bytes "SupportedTypes"

module _ ⦃s : Sdbus⦄ where
  open s use {Variant, contains_value_of_type}

  unfoldable pub has_expected_type : Str → Str → Variant → Bool
  has_expected_type interface_name name value =
      if is_string_property interface_name name
      then contains_value_of_type string value
      else if is_bool_property interface_name name
      then contains_value_of_type boolean value
      else if interface_name == session_iface && name == bytes "Channel"
      then contains_value_of_type u8 value
      else if interface_name == session_iface && name == bytes "PSM"
      then contains_value_of_type u16 value
      else if interface_name == transfer_iface && name == bytes "Session"
      then contains_value_of_type object_path value
      else if (interface_name == transfer_iface
            && (name == bytes "Time" || name == bytes "Size" || name == bytes "Transferred"))
          || (interface_name == message_iface
              && (name == bytes "Size"
                  || name == bytes "AttachmentSize"
                  || name == bytes "ConversationId"))
      then contains_value_of_type u64 value
      else if interface_name == message_access_iface && name == bytes "SupportedTypes"
      then contains_value_of_type strings value
      else false
