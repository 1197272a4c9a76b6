-- ===== src/ObjectManager/Messages.antt =====
-- native/src/obex_object_manager.cpp: the messages that go to the Dart port.
use bluez_obex_native.Common.{ℕ, [], ◌∷◌}
use bluez_obex_native.Wire.{Buffer, encode}
use bluez_obex_native.Types.Session.{BluezObexSessionProps, session_props_meta}
use bluez_obex_native.Types.Transfer.{BluezObexTransferProps, transfer_props_meta}
use bluez_obex_native.Types.Phonebook.{BluezObexPhonebookProps, phonebook_props_meta}
use bluez_obex_native.Types.Message.{
  BluezObexMessageProps, message_props_meta, BluezObexMessageAccessProps, message_access_props_meta,
}
use bluez_obex_native.Types.Objects.{
  BluezObexObjectAdded, object_added_meta, BluezObexObjectRemoved, object_removed_meta,
  BluezObexError, error_meta,
}

-- The values with which `post_glaze` is instantiated, and the empty payload of a sentinel.
pub data Payload : Type 0 where
  session : BluezObexSessionProps → Payload
  transfer : BluezObexTransferProps → Payload
  phonebook : BluezObexPhonebookProps → Payload
  message : BluezObexMessageProps → Payload
  message_access : BluezObexMessageAccessProps → Payload
  added : BluezObexObjectAdded → Payload
  removed : BluezObexObjectRemoved → Payload
  error : BluezObexError → Payload
  nothing : Payload

pub payload_bytes : Payload → Buffer
payload_bytes (session x) = encode x
payload_bytes (transfer x) = encode x
payload_bytes (phonebook x) = encode x
payload_bytes (message x) = encode x
payload_bytes (message_access x) = encode x
payload_bytes (added x) = encode x
payload_bytes (removed x) = encode x
payload_bytes (error x) = encode x
payload_bytes nothing = []

pub record Posted : Type 0 where
  pub discriminator : ℕ
  pub payload : Payload

-- The bytes of the message that `post_bytes` hands to `Dart_PostCObject_DL`.
pub message_bytes : Posted → Buffer
unfolding payload_bytes
message_bytes p = p.discriminator ∷ payload_bytes p.payload
