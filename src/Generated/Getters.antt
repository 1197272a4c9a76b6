-- ===== src/Generated/Getters.antt =====
-- The readers of the generated proxies, all of them, by the properties that they read.
pub mod Shown
pub mod Agreement
use bluez_obex_native.Common.Strings.{Str, bytes}
use bluez_obex_native.Sdbus.{
  Sdbus, ValueType, Value, string, object_path, boolean, u8, u16, u64, strings,
}
use bluez_obex_native.Bus.{Bus}
use bluez_obex_native.Calls.{Task}
use bluez_obex_native.Generated.Session1
use bluez_obex_native.Generated.Transfer1
use bluez_obex_native.Generated.PhonebookAccess1
use bluez_obex_native.Generated.MessageAccess1
use bluez_obex_native.Generated.Message1

pub data Getter : Type 0 where
  session_source session_destination session_channel session_psm : Getter
  session_target session_root : Getter
  transfer_status transfer_session transfer_name transfer_type : Getter
  transfer_time transfer_size transfer_transferred transfer_filename : Getter
  phonebook_folder phonebook_database_identifier phonebook_primary_counter
        phonebook_secondary_counter :
      Getter
  phonebook_fixed_image_size : Getter
  message_access_supported_types : Getter
  message_folder message_subject message_timestamp message_sender : Getter
  message_sender_address message_reply_to message_recipient message_recipient_address : Getter
  message_type message_size message_status message_priority : Getter
  message_read message_sent message_protected message_delivery_status : Getter
  message_conversation_id message_conversation_name message_direction
        message_attachment_mime_types :
      Getter

-- A property: its interface, its name, and the type that the reader asks for.
pub record Property : Type 0 where
  pub interface_name : Str
  pub name : Str
  pub value_type : ValueType

abbrev pub property : Str → Str → ValueType → Property
property interface_name name value_type = record {
  interface_name = interface_name;
  name = name;
  value_type = value_type;
}

abbrev pub property_of : Getter → Property
property_of session_source = property Session1.interface_name (bytes "Source") string
property_of session_destination = property Session1.interface_name (bytes "Destination") string
property_of session_channel = property Session1.interface_name (bytes "Channel") u8
property_of session_psm = property Session1.interface_name (bytes "PSM") u16
property_of session_target = property Session1.interface_name (bytes "Target") string
property_of session_root = property Session1.interface_name (bytes "Root") string
property_of transfer_status = property Transfer1.interface_name (bytes "Status") string
property_of transfer_session = property Transfer1.interface_name (bytes "Session") object_path
property_of transfer_name = property Transfer1.interface_name (bytes "Name") string
property_of transfer_type = property Transfer1.interface_name (bytes "Type") string
property_of transfer_time = property Transfer1.interface_name (bytes "Time") u64
property_of transfer_size = property Transfer1.interface_name (bytes "Size") u64
property_of transfer_transferred = property Transfer1.interface_name (bytes "Transferred") u64
property_of transfer_filename = property Transfer1.interface_name (bytes "Filename") string
property_of phonebook_folder = property PhonebookAccess1.interface_name (bytes "Folder") string
property_of phonebook_database_identifier =
    property PhonebookAccess1.interface_name (bytes "DatabaseIdentifier") string
property_of phonebook_primary_counter =
    property PhonebookAccess1.interface_name (bytes "PrimaryCounter") string
property_of phonebook_secondary_counter =
    property PhonebookAccess1.interface_name (bytes "SecondaryCounter") string
property_of phonebook_fixed_image_size =
    property PhonebookAccess1.interface_name (bytes "FixedImageSize") boolean
property_of message_access_supported_types =
    property MessageAccess1.interface_name (bytes "SupportedTypes") strings
property_of message_folder = property Message1.interface_name (bytes "Folder") string
property_of message_subject = property Message1.interface_name (bytes "Subject") string
property_of message_timestamp = property Message1.interface_name (bytes "Timestamp") string
property_of message_sender = property Message1.interface_name (bytes "Sender") string
property_of message_sender_address = property Message1.interface_name (bytes "SenderAddress") string
property_of message_reply_to = property Message1.interface_name (bytes "ReplyTo") string
property_of message_recipient = property Message1.interface_name (bytes "Recipient") string
property_of message_recipient_address =
    property Message1.interface_name (bytes "RecipientAddress") string
property_of message_type = property Message1.interface_name (bytes "Type") string
property_of message_size = property Message1.interface_name (bytes "Size") u64
property_of message_status = property Message1.interface_name (bytes "Status") string
property_of message_priority = property Message1.interface_name (bytes "Priority") boolean
property_of message_read = property Message1.interface_name (bytes "Read") boolean
property_of message_sent = property Message1.interface_name (bytes "Sent") boolean
property_of message_protected = property Message1.interface_name (bytes "Protected") boolean
property_of message_delivery_status =
    property Message1.interface_name (bytes "DeliveryStatus") string
property_of message_conversation_id = property Message1.interface_name (bytes "ConversationId") u64
property_of message_conversation_name =
    property Message1.interface_name (bytes "ConversationName") string
property_of message_direction = property Message1.interface_name (bytes "Direction") string
property_of message_attachment_mime_types =
    property Message1.interface_name (bytes "AttachmentMimeTypes") string

module _ ⦃s : Sdbus⦄ ⦃bus : Bus⦄ where
  abbrev pub get : (g : Getter) → Str → Task (Value (property_of g).value_type)
  get session_source = Session1.source
  get session_destination = Session1.destination
  get session_channel = Session1.channel
  get session_psm = Session1.psm
  get session_target = Session1.target
  get session_root = Session1.root
  get transfer_status = Transfer1.status
  get transfer_session = Transfer1.session
  get transfer_name = Transfer1.name
  get transfer_type = Transfer1.type
  get transfer_time = Transfer1.time
  get transfer_size = Transfer1.size
  get transfer_transferred = Transfer1.transferred
  get transfer_filename = Transfer1.filename
  get phonebook_folder = PhonebookAccess1.folder
  get phonebook_database_identifier = PhonebookAccess1.database_identifier
  get phonebook_primary_counter = PhonebookAccess1.primary_counter
  get phonebook_secondary_counter = PhonebookAccess1.secondary_counter
  get phonebook_fixed_image_size = PhonebookAccess1.fixed_image_size
  get message_access_supported_types = MessageAccess1.supported_types
  get message_folder = Message1.folder
  get message_subject = Message1.subject
  get message_timestamp = Message1.timestamp
  get message_sender = Message1.sender
  get message_sender_address = Message1.sender_address
  get message_reply_to = Message1.reply_to
  get message_recipient = Message1.recipient
  get message_recipient_address = Message1.recipient_address
  get message_type = Message1.type
  get message_size = Message1.size
  get message_status = Message1.status
  get message_priority = Message1.priority
  get message_read = Message1.read
  get message_sent = Message1.sent
  get message_protected = Message1.protected
  get message_delivery_status = Message1.delivery_status
  get message_conversation_id = Message1.conversation_id
  get message_conversation_name = Message1.conversation_name
  get message_direction = Message1.direction
  get message_attachment_mime_types = Message1.attachment_mime_types
