-- ===== src/Properties.antt =====
-- native/src/obex_proxy_utils.cpp: from dictionaries of variants to the structs of the wire.
pub mod Printing
use bluez_obex_native.Common.{
  ℕ, ◌+◌, Bool, true, false, Option, none, some, List, [], ◌∷◌, if◌then◌else◌,
}
use bluez_obex_native.Common.Int.{ℤ, pos, negsuc}
use bluez_obex_native.Common.Strings.{Str, bytes}
use bluez_obex_native.OrderedMap
use bluez_obex_native.OrderedMap.{OrderedMap}
use bluez_obex_native.Sdbus.{
  Sdbus, ValueType, Value, string, object_path, boolean, u8, u16, u32, u64, i16, i32, i64, strings,
  Outcome, ok, throws, ◌>>=◌,
}
use bluez_obex_native.Bus.{PropertiesMap}
use bluez_obex_native.Filters.{join_strings}
use bluez_obex_native.Filters.Decimal.{to_string}
use bluez_obex_native.Types.Session.{BluezObexSessionProps}
use bluez_obex_native.Types.Transfer.{
  BluezObexTransferProps, BluezObexProperty, BluezObexTransferResult,
}
use bluez_obex_native.Types.Phonebook.{BluezObexPhonebookProps}
use bluez_obex_native.Types.Message.{BluezObexMessageProps, BluezObexMessageAccessProps}

-- `std::to_string` of a signed number.
unfoldable pub signed_to_string : ℤ → Str
unfolding to_string
signed_to_string (pos n) = to_string n
signed_to_string (negsuc n) = b'-' ∷ to_string (n + 1)

abbrev pub bool_to_string : Bool → Str
bool_to_string true = bytes "true"
bool_to_string false = bytes "false"

module _ ⦃s : Sdbus⦄ where
  open s use {Variant, contains_value_of_type, get, dump_to_string}

  -- The `try` block: any exception gives the fallback.
  abbrev pub value_or : {A : Type 0} → A → Outcome A → A
  value_or fallback (ok x) = x
  value_or fallback (throws e) = fallback

  abbrev read_or : (t : ValueType) → Value t → Option Variant → Value t
  read_or t fallback none = fallback
  read_or t fallback (some v) = value_or fallback (get t v)

  unfoldable pub get_property_value : (t : ValueType) → PropertiesMap → Str → Value t → Value t
  get_property_value t properties key fallback = read_or t fallback (OrderedMap.find key properties)

  -- The result of the `try` block at a type that the variant holds.
  abbrev pub printed : (t : ValueType) → Value t → Str
  printed string x = x
  printed object_path x = x
  printed boolean x = bool_to_string x
  printed u8 x = to_string x
  printed u16 x = to_string x
  printed u32 x = to_string x
  printed u64 x = to_string x
  printed i16 x = signed_to_string x
  printed i32 x = signed_to_string x
  printed i64 x = signed_to_string x
  printed strings x = join_strings x

  abbrev pub print_caught : (t : ValueType) → Outcome (Value t) → Str
  print_caught t (ok x) = printed t x
  print_caught t (throws e) = []

  -- The types in the order in which they are tried.
  abbrev pub printable_types : List ValueType
  printable_types =
      string ∷ object_path ∷ boolean ∷ u8 ∷ u16 ∷ u32 ∷ u64 ∷ i16 ∷ i32 ∷ i64 ∷ strings ∷ []

  pub print_first : List ValueType → Variant → Outcome Str
  print_first [] value = dump_to_string value
  print_first (t ∷ ts) value =
      if contains_value_of_type t value
      then ok (print_caught t (get t value))
      else print_first ts value

  pub variant_to_string : Variant → Outcome Str
  unfolding print_first
  variant_to_string value = print_first printable_types value

  pub variant_map_to_properties : PropertiesMap → Outcome (List BluezObexProperty)
  unfolding variant_to_string
  variant_map_to_properties [] = ok []
  variant_map_to_properties ((key, value) ∷ properties) = do
    text ← variant_to_string value
    rest ← variant_map_to_properties properties
    ok (record { key = key; value = text } ∷ rest)

  pub transfer_result_from_dbus : Str → PropertiesMap → Outcome BluezObexTransferResult
  unfolding variant_map_to_properties
  transfer_result_from_dbus path properties = do
    list ← variant_map_to_properties properties
    ok (record { transfer_path = path; properties = list })

  abbrev string_at : PropertiesMap → Str → Str
  string_at properties key = get_property_value string properties key []

  abbrev flag_at : PropertiesMap → Str → Bool
  flag_at properties key = get_property_value boolean properties key false

  abbrev u64_at : PropertiesMap → Str → ℕ
  u64_at properties key = get_property_value u64 properties key 0

  unfoldable pub session_props_from_map : Str → PropertiesMap → BluezObexSessionProps
  session_props_from_map path properties = record {
    object_path = path;
    source = string_at properties (bytes "Source");
    destination = string_at properties (bytes "Destination");
    channel = get_property_value u8 properties (bytes "Channel") 0;
    psm = get_property_value u16 properties (bytes "PSM") 0;
    target = string_at properties (bytes "Target");
    root = string_at properties (bytes "Root");
  }

  unfoldable pub transfer_props_from_map : Str → PropertiesMap → BluezObexTransferProps
  transfer_props_from_map path properties = record {
    object_path = path;
    status = string_at properties (bytes "Status");
    session = get_property_value object_path properties (bytes "Session") [];
    name = string_at properties (bytes "Name");
    type = string_at properties (bytes "Type");
    time = u64_at properties (bytes "Time");
    size = u64_at properties (bytes "Size");
    transferred = u64_at properties (bytes "Transferred");
    filename = string_at properties (bytes "Filename");
  }

  unfoldable pub phonebook_props_from_map : Str → PropertiesMap → BluezObexPhonebookProps
  phonebook_props_from_map path properties = record {
    object_path = path;
    folder = string_at properties (bytes "Folder");
    database_identifier = string_at properties (bytes "DatabaseIdentifier");
    primary_counter = string_at properties (bytes "PrimaryCounter");
    secondary_counter = string_at properties (bytes "SecondaryCounter");
    fixed_image_size = flag_at properties (bytes "FixedImageSize");
  }

  unfoldable pub message_props_from_map : Str → PropertiesMap → BluezObexMessageProps
  message_props_from_map path properties = record {
    object_path = path;
    folder = string_at properties (bytes "Folder");
    subject = string_at properties (bytes "Subject");
    timestamp = string_at properties (bytes "Timestamp");
    sender = string_at properties (bytes "Sender");
    sender_address = string_at properties (bytes "SenderAddress");
    reply_to = string_at properties (bytes "ReplyTo");
    recipient = string_at properties (bytes "Recipient");
    recipient_address = string_at properties (bytes "RecipientAddress");
    type = string_at properties (bytes "Type");
    size = u64_at properties (bytes "Size");
    text = flag_at properties (bytes "Text");
    status = string_at properties (bytes "Status");
    attachment_size = u64_at properties (bytes "AttachmentSize");
    priority = flag_at properties (bytes "Priority");
    read = flag_at properties (bytes "Read");
    deleted = flag_at properties (bytes "Deleted");
    sent = flag_at properties (bytes "Sent");
    protected = flag_at properties (bytes "Protected");
    delivery_status = string_at properties (bytes "DeliveryStatus");
    conversation_id = u64_at properties (bytes "ConversationId");
    conversation_name = string_at properties (bytes "ConversationName");
    direction = string_at properties (bytes "Direction");
    attachment_mime_types = string_at properties (bytes "AttachmentMimeTypes");
  }

  unfoldable pub message_access_props_from_map : Str → PropertiesMap → BluezObexMessageAccessProps
  message_access_props_from_map path properties = record {
    object_path = path;
    supported_types = get_property_value strings properties (bytes "SupportedTypes") [];
  }
