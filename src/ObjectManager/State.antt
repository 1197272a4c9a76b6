-- ===== src/ObjectManager/State.antt =====
-- native/src/obex_object_manager.cpp: the state of the manager, and how it posts to Dart.
use bluez_obex_native.Types.Session.{BluezObexSessionProps}
use bluez_obex_native.Types.Transfer.{BluezObexTransferProps}
use bluez_obex_native.Types.Phonebook.{BluezObexPhonebookProps}
use bluez_obex_native.Types.Message.{BluezObexMessageProps, BluezObexMessageAccessProps}
use bluez_obex_native.Common.{ℕ, Bool, ◌||◌, Option, none, some, List, [], ◌∷◌, ◌++◌, if◌then◌else◌}
use bluez_obex_native.Common.Strings.{Str, bytes, ◌==◌}
use bluez_obex_native.OrderedMap.{OrderedMap}
use bluez_obex_native.Sdbus.{Sdbus}
use bluez_obex_native.Bus.{
  PropertiesMap, InterfacesMap, Request, create_proxy, call_method, text, Answer, reply, error, Bus,
  some_properties, nothing, ReplyType, Reply,
}
use bluez_obex_native.Properties.{
  session_props_from_map, transfer_props_from_map, phonebook_props_from_map, message_props_from_map,
  message_access_props_from_map,
}
use bluez_obex_native.ObjectManager.Interfaces.{
  session_iface, transfer_iface, phonebook_iface, message_iface, message_access_iface,
}
use bluez_obex_native.ObjectManager.Messages.{Payload, Posted}

abbrev pub obex_service : Str
obex_service = bytes "org.bluez.obex"

abbrev pub object_manager_iface : Str
object_manager_iface = bytes "org.freedesktop.DBus.ObjectManager"

abbrev pub properties_iface : Str
properties_iface = bytes "org.freedesktop.DBus.Properties"

-- The errors of an object that has gone meanwhile.
unfoldable pub is_gone : Str → Bool
is_gone name =
    name == bytes "org.freedesktop.DBus.Error.UnknownObject"
    || name == bytes "org.freedesktop.DBus.Error.UnknownInterface"

module _ ⦃s : Sdbus⦄ where
  abbrev pub extract_session_props : Str → PropertiesMap → BluezObexSessionProps
  extract_session_props object_path props = session_props_from_map object_path props

  abbrev pub extract_transfer_props : Str → PropertiesMap → BluezObexTransferProps
  extract_transfer_props object_path props = transfer_props_from_map object_path props

  abbrev pub extract_phonebook_props : Str → PropertiesMap → BluezObexPhonebookProps
  extract_phonebook_props object_path props = phonebook_props_from_map object_path props

  abbrev pub extract_message_props : Str → PropertiesMap → BluezObexMessageProps
  extract_message_props object_path props = message_props_from_map object_path props

  abbrev pub extract_message_access_props : Str → PropertiesMap → BluezObexMessageAccessProps
  extract_message_access_props object_path props = message_access_props_from_map object_path props

module _ ⦃s : Sdbus⦄ where
  open s use {Variant}

  -- The members of `ObexObjectManager`; `posted` holds the messages of the events port so far,
  -- `requests` what went to the bus.
  pub record Manager : Type 0 where
    pub failed : Bool
    pub interfaces_by_path : OrderedMap InterfacesMap
    pub posted : List Posted
    pub requests : List Request

  unfoldable pub post_bytes : ℕ → Payload → Manager → Manager
  post_bytes discriminator payload m = record m {
    posted = m.posted ++ record { discriminator = discriminator; payload = payload } ∷ [];
  }

  unfoldable pub post_glaze : ℕ → Payload → Manager → Manager
  unfolding post_bytes
  post_glaze discriminator value m = post_bytes discriminator value m

  unfoldable pub post_sentinel : ℕ → Manager → Manager
  unfolding post_bytes
  post_sentinel discriminator m = post_bytes discriminator Payload.nothing m

  unfoldable pub post_removed : Str → Str → Manager → Manager
  unfolding post_glaze
  post_removed path interface_name m =
      post_glaze 0x7e
        (Payload.removed (record { object_path = path; interface_name = interface_name })) m

  unfoldable pub post_added : Str → Str → Manager → Manager
  unfolding post_glaze
  post_added path interface_name m =
      post_glaze 0x7d
        (Payload.added (record { object_path = path; interface_name = interface_name })) m

  unfoldable pub post_error : Str → Str → Str → Manager → Manager
  unfolding post_glaze
  post_error path name message m =
      post_glaze 0x20
        (Payload.error (record { object_path = path; name = name; message = message })) m

  -- The chain of tests on the interface, at the end of `post_properties`.
  unfoldable pub post_snapshot : Str → Str → PropertiesMap → Manager → Manager
  unfolding post_glaze
  post_snapshot path interface_name props m =
      if interface_name == session_iface
      then post_glaze 0x01 (Payload.session (extract_session_props path props)) m
      else if interface_name == transfer_iface
      then post_glaze 0x02 (Payload.transfer (extract_transfer_props path props)) m
      else if interface_name == phonebook_iface
      then post_glaze 0x03 (Payload.phonebook (extract_phonebook_props path props)) m
      else if interface_name == message_iface
      then post_glaze 0x06 (Payload.message (extract_message_props path props)) m
      else if interface_name == message_access_iface
      then post_glaze 0x07 (Payload.message_access (extract_message_access_props path props)) m
      else m

  abbrev pub sent : Request → Manager → Manager
  sent r m = record m { requests = m.requests ++ r ∷ [] }

  unfoldable pub report : Str → Str → Str → Manager → Manager
  unfolding post_error
  report path name message m = if is_gone name then m else post_error path name message m

  module _ ⦃bus : Bus⦄ where
    abbrev pub answer : (t : ReplyType) → Request → Manager → Answer (Reply t)
    answer t r m = bus.respond t m.requests r

    -- A request through the proxy, unless that could not be made.
    unfoldable pub through :
        (t : ReplyType) → Request → Answer (Unit {0}) → Manager → Answer (Reply t) × Manager
    through t r (error name message) m = (error name message, m)
    through t r (reply _) m = (answer t r m, sent r m)

    -- A proxy of an object of the OBEX service, then one request through it.
    unfoldable pub ask : (t : ReplyType) → Str → Request → Manager → Answer (Reply t) × Manager
    unfolding through
    ask t path r m =
        let p = create_proxy obex_service path in through t r (answer nothing p m) (sent p m)

    -- `loaded` is what `GetAll` stores where the caller passes no properties.
    unfoldable pub post_loaded : Str → Str → Answer PropertiesMap × Manager → Manager
    unfolding report post_snapshot
    post_loaded path interface_name (reply props, m) = post_snapshot path interface_name props m
    post_loaded path interface_name (error name message, m) = report path name message m

    unfoldable pub post_properties : Str → Str → Option PropertiesMap → Manager → Manager
    unfolding post_snapshot post_loaded
    post_properties path interface_name (some props) m = post_snapshot path interface_name props m
    post_properties path interface_name none m = post_loaded path interface_name (
        ask some_properties path
          (call_method path properties_iface (bytes "GetAll") (text interface_name ∷ [])) m)
