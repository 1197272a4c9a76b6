-- ===== src/Generated/Message1.antt =====
-- native/generated/message1_proxy.h: the methods and properties of an object with the interface.
use bluez_obex_native.Common.{ℕ, Bool, [], ◌∷◌}
use bluez_obex_native.Common.Strings.{Str, bytes}
use bluez_obex_native.Sdbus.{Sdbus, string, boolean, u64}
use bluez_obex_native.Bus.{
  PropertiesMap, call_method, set_property, text, flag, Bus, nothing, one_transfer,
}
use bluez_obex_native.Calls.{Task, call}
use bluez_obex_native.Generated.{read_property}

abbrev pub interface_name : Str
interface_name = bytes "org.bluez.obex.Message1"

module _ ⦃s : Sdbus⦄ ⦃bus : Bus⦄ where
  abbrev pub get : Str → Str → Bool → Task (Str × PropertiesMap)
  get object targetfile attachment =
      call one_transfer
        (call_method object interface_name (bytes "Get") (text targetfile ∷ flag attachment ∷ []))

  abbrev pub folder : Str → Task Str
  folder object = read_property string object interface_name (bytes "Folder")

  abbrev pub subject : Str → Task Str
  subject object = read_property string object interface_name (bytes "Subject")

  abbrev pub timestamp : Str → Task Str
  timestamp object = read_property string object interface_name (bytes "Timestamp")

  abbrev pub sender : Str → Task Str
  sender object = read_property string object interface_name (bytes "Sender")

  abbrev pub sender_address : Str → Task Str
  sender_address object = read_property string object interface_name (bytes "SenderAddress")

  abbrev pub reply_to : Str → Task Str
  reply_to object = read_property string object interface_name (bytes "ReplyTo")

  abbrev pub recipient : Str → Task Str
  recipient object = read_property string object interface_name (bytes "Recipient")

  abbrev pub recipient_address : Str → Task Str
  recipient_address object = read_property string object interface_name (bytes "RecipientAddress")

  abbrev pub type : Str → Task Str
  type object = read_property string object interface_name (bytes "Type")

  abbrev pub size : Str → Task ℕ
  size object = read_property u64 object interface_name (bytes "Size")

  abbrev pub status : Str → Task Str
  status object = read_property string object interface_name (bytes "Status")

  abbrev pub priority : Str → Task Bool
  priority object = read_property boolean object interface_name (bytes "Priority")

  abbrev pub read : Str → Task Bool
  read object = read_property boolean object interface_name (bytes "Read")

  abbrev pub set_read : Str → Bool → Task (Unit {0})
  set_read object value =
      call nothing (set_property object interface_name (bytes "Read") (flag value))

  abbrev pub set_deleted : Str → Bool → Task (Unit {0})
  set_deleted object value =
      call nothing (set_property object interface_name (bytes "Deleted") (flag value))

  abbrev pub sent : Str → Task Bool
  sent object = read_property boolean object interface_name (bytes "Sent")

  abbrev pub protected : Str → Task Bool
  protected object = read_property boolean object interface_name (bytes "Protected")

  abbrev pub delivery_status : Str → Task Str
  delivery_status object = read_property string object interface_name (bytes "DeliveryStatus")

  abbrev pub conversation_id : Str → Task ℕ
  conversation_id object = read_property u64 object interface_name (bytes "ConversationId")

  abbrev pub conversation_name : Str → Task Str
  conversation_name object = read_property string object interface_name (bytes "ConversationName")

  abbrev pub direction : Str → Task Str
  direction object = read_property string object interface_name (bytes "Direction")

  abbrev pub attachment_mime_types : Str → Task Str
  attachment_mime_types object =
      read_property string object interface_name (bytes "AttachmentMimeTypes")
