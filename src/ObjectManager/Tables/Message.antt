-- ===== src/ObjectManager/Tables/Message.antt =====
-- Table lemmas of native/src/obex_object_manager.cpp and obex_proxy_utils.cpp: the interface of
-- a message.
use bluez_obex_native.Common.{◌≡◌, false}
use bluez_obex_native.Common.Strings.{Str, bytes, ◌==◌}
use bluez_obex_native.OrderedMap
use bluez_obex_native.Sdbus.{Sdbus, initial, string, boolean, u64}
use bluez_obex_native.Bus.{PropertiesMap}
use bluez_obex_native.Properties.{message_props_from_map}
use bluez_obex_native.ObjectManager.Interfaces.{
  message_iface, is_string_property, is_bool_property, is_known_property, has_expected_type,
}
use bluez_obex_native.ObjectManager.Tables.Reading.{read_mistyped, read_other}

module _ ⦃s : Sdbus⦄ where
  open s use {Variant}

  module _ (path name : Str) (v : Variant) (props : PropertiesMap) where
    pub message_mistyped :
        has_expected_type message_iface name v ≡ false
        → message_props_from_map path (OrderedMap.insert name v props)
          ≡ message_props_from_map path (OrderedMap.erase name props)
    unfolding message_props_from_map has_expected_type is_string_property is_bool_property ◌==◌
        bytes
    message_mistyped h = λ j. record {
      object_path = path;
      folder =
          read_mistyped string (bytes "Folder") (initial string) name v props (λ e. rw e at h) j;
      subject =
          read_mistyped string (bytes "Subject") (initial string) name v props (λ e. rw e at h) j;
      timestamp =
          read_mistyped string (bytes "Timestamp") (initial string) name v props (λ e. rw e at h) j;
      sender =
          read_mistyped string (bytes "Sender") (initial string) name v props (λ e. rw e at h) j;
      sender_address =
          read_mistyped string (bytes "SenderAddress") (initial string) name v props
            (λ e. rw e at h) j;
      reply_to =
          read_mistyped string (bytes "ReplyTo") (initial string) name v props (λ e. rw e at h) j;
      recipient =
          read_mistyped string (bytes "Recipient") (initial string) name v props (λ e. rw e at h) j;
      recipient_address =
          read_mistyped string (bytes "RecipientAddress") (initial string) name v props
            (λ e. rw e at h) j;
      type = read_mistyped string (bytes "Type") (initial string) name v props (λ e. rw e at h) j;
      size = read_mistyped u64 (bytes "Size") (initial u64) name v props (λ e. rw e at h) j;
      text = read_mistyped boolean (bytes "Text") (initial boolean) name v props (λ e. rw e at h) j;
      status =
          read_mistyped string (bytes "Status") (initial string) name v props (λ e. rw e at h) j;
      attachment_size =
          read_mistyped u64 (bytes "AttachmentSize") (initial u64) name v props (λ e. rw e at h) j;
      priority =
          read_mistyped boolean (bytes "Priority") (initial boolean) name v props (λ e. rw e at h)
            j;
      read = read_mistyped boolean (bytes "Read") (initial boolean) name v props (λ e. rw e at h) j;
      deleted =
          read_mistyped boolean (bytes "Deleted") (initial boolean) name v props (λ e. rw e at h) j;
      sent = read_mistyped boolean (bytes "Sent") (initial boolean) name v props (λ e. rw e at h) j;
      protected =
          read_mistyped boolean (bytes "Protected") (initial boolean) name v props (λ e. rw e at h)
            j;
      delivery_status =
          read_mistyped string (bytes "DeliveryStatus") (initial string) name v props
            (λ e. rw e at h) j;
      conversation_id =
          read_mistyped u64 (bytes "ConversationId") (initial u64) name v props (λ e. rw e at h) j;
      conversation_name =
          read_mistyped string (bytes "ConversationName") (initial string) name v props
            (λ e. rw e at h) j;
      direction =
          read_mistyped string (bytes "Direction") (initial string) name v props (λ e. rw e at h) j;
      attachment_mime_types =
          read_mistyped string (bytes "AttachmentMimeTypes") (initial string) name v props
            (λ e. rw e at h) j;
    }

    pub message_unknown :
        is_known_property message_iface name ≡ false
        → message_props_from_map path (OrderedMap.insert name v props)
          ≡ message_props_from_map path props
    unfolding message_props_from_map is_known_property is_string_property is_bool_property ◌==◌
        bytes
    message_unknown h = λ j. record {
      object_path = path;
      folder = read_other string (bytes "Folder") (initial string) name v props (λ e. rw e at h) j;
      subject =
          read_other string (bytes "Subject") (initial string) name v props (λ e. rw e at h) j;
      timestamp =
          read_other string (bytes "Timestamp") (initial string) name v props (λ e. rw e at h) j;
      sender = read_other string (bytes "Sender") (initial string) name v props (λ e. rw e at h) j;
      sender_address =
          read_other string (bytes "SenderAddress") (initial string) name v props (λ e. rw e at h)
            j;
      reply_to =
          read_other string (bytes "ReplyTo") (initial string) name v props (λ e. rw e at h) j;
      recipient =
          read_other string (bytes "Recipient") (initial string) name v props (λ e. rw e at h) j;
      recipient_address =
          read_other string (bytes "RecipientAddress") (initial string) name v props
            (λ e. rw e at h) j;
      type = read_other string (bytes "Type") (initial string) name v props (λ e. rw e at h) j;
      size = read_other u64 (bytes "Size") (initial u64) name v props (λ e. rw e at h) j;
      text = read_other boolean (bytes "Text") (initial boolean) name v props (λ e. rw e at h) j;
      status = read_other string (bytes "Status") (initial string) name v props (λ e. rw e at h) j;
      attachment_size =
          read_other u64 (bytes "AttachmentSize") (initial u64) name v props (λ e. rw e at h) j;
      priority =
          read_other boolean (bytes "Priority") (initial boolean) name v props (λ e. rw e at h) j;
      read = read_other boolean (bytes "Read") (initial boolean) name v props (λ e. rw e at h) j;
      deleted =
          read_other boolean (bytes "Deleted") (initial boolean) name v props (λ e. rw e at h) j;
      sent = read_other boolean (bytes "Sent") (initial boolean) name v props (λ e. rw e at h) j;
      protected =
          read_other boolean (bytes "Protected") (initial boolean) name v props (λ e. rw e at h) j;
      delivery_status =
          read_other string (bytes "DeliveryStatus") (initial string) name v props (λ e. rw e at h)
            j;
      conversation_id =
          read_other u64 (bytes "ConversationId") (initial u64) name v props (λ e. rw e at h) j;
      conversation_name =
          read_other string (bytes "ConversationName") (initial string) name v props
            (λ e. rw e at h) j;
      direction =
          read_other string (bytes "Direction") (initial string) name v props (λ e. rw e at h) j;
      attachment_mime_types =
          read_other string (bytes "AttachmentMimeTypes") (initial string) name v props
            (λ e. rw e at h) j;
    }
