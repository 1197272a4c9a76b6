-- ===== src/Proxies/Access.antt =====
-- native/src/obex_session_proxy.cpp and native/src/obex_transfer_proxy.cpp, and what all proxies
-- share: `createProxy` in their constructors and `get_all_properties` of
-- native/src/obex_proxy_utils.cpp.
use bluez_obex_native.Common.{[], ◌∷◌}
use bluez_obex_native.Common.Strings.{Str, bytes}
use bluez_obex_native.Wire.{Buffer, encode}
use bluez_obex_native.Sdbus.{Sdbus, dbus_error, std_exception, Outcome, ok, throws}
use bluez_obex_native.Bus.{
  PropertiesMap, create_proxy, call_method, text, Bus, nothing, some_properties,
}
use bluez_obex_native.Generated.Client1
use bluez_obex_native.Generated.Session1
use bluez_obex_native.Generated.Transfer1
use bluez_obex_native.Calls.{Task, pure, call, ◌>>=◌}
use bluez_obex_native.Properties.{session_props_from_map, transfer_props_from_map}
use bluez_obex_native.Types.Session.{BluezObexSessionProps, session_props_meta}
use bluez_obex_native.Types.Transfer.{BluezObexTransferProps, transfer_props_meta}
use bluez_obex_native.ObjectManager.Interfaces.{session_iface, transfer_iface}
use bluez_obex_native.ObjectManager.State.{obex_service, properties_iface}

abbrev pub client_path : Str
client_path = bytes "/org/bluez/obex"

module _ ⦃s : Sdbus⦄ where
  -- `try { … } catch (const sdbus::Error &) {}` around the assignment of a new value.
  abbrev pub unless_dbus_error : {A : Type 0} → A → Outcome A → Outcome A
  unless_dbus_error old (ok x) = ok x
  unless_dbus_error old (throws (dbus_error name message)) = ok old
  unless_dbus_error old (throws (std_exception message)) = throws (std_exception message)

  abbrev pub try_assign : {A : Type 0} → A → Task A → Task A
  try_assign old task log = (unless_dbus_error old (task log).0, (task log).1)

  module _ ⦃bus : Bus⦄ where
    unfoldable pub get_all_properties : Str → Str → Str → Task PropertiesMap
    get_all_properties service object_path interface_name = do
      created ← call nothing (create_proxy service object_path)
      call some_properties
          (call_method object_path properties_iface (bytes "GetAll") (text interface_name ∷ []))

    -- The constructor of a proxy.
    abbrev pub construct : Str → Task (Unit {0})
    construct object_path = call nothing (create_proxy obex_service object_path)

    abbrev pub obex_session_proxy : Str → Task (Unit {0})
    obex_session_proxy object_path = construct object_path

    abbrev pub obex_session_manager : Task (Unit {0})
    obex_session_manager = construct client_path

    abbrev pub obex_transfer_proxy : Str → Task (Unit {0})
    obex_transfer_proxy object_path = construct object_path

    -- `ObexSessionProxy`.
    unfoldable pub session_get_capabilities : Str → Task Str
    session_get_capabilities object_path = Session1.get_capabilities object_path

    unfoldable pub session_properties : Str → Task BluezObexSessionProps
    unfolding get_all_properties
    session_properties object_path = do
      properties ← get_all_properties obex_service object_path session_iface
      pure (session_props_from_map object_path properties)

    unfoldable pub session_encoded_properties : Str → Task Buffer
    unfolding session_properties
    session_encoded_properties object_path = do
      session ← session_properties object_path
      pure (encode session)

    -- What `create_session` reports where the properties cannot be read.
    abbrev pub fresh_session : Str → Str → BluezObexSessionProps
    fresh_session session_path destination = record session_props_meta.initial {
      object_path = session_path;
      destination = destination;
    }

    -- `ObexSessionManager`.
    unfoldable pub create_session : Str → PropertiesMap → Task BluezObexSessionProps
    unfolding session_properties
    create_session destination args = do
      session_path ← Client1.create_session client_path destination args
      try_assign (fresh_session session_path destination)
          (do constructed ← construct session_path; session_properties session_path)

    unfoldable pub encoded_create_session : Str → PropertiesMap → Task Buffer
    unfolding create_session
    encoded_create_session destination args = do
      session ← create_session destination args
      pure (encode session)

    unfoldable pub remove_session : Str → Task (Unit {0})
    remove_session session_path = Client1.remove_session client_path session_path

    -- `ObexTransferProxy`.
    unfoldable pub transfer_cancel : Str → Task (Unit {0})
    transfer_cancel object_path = Transfer1.cancel object_path

    unfoldable pub transfer_suspend : Str → Task (Unit {0})
    transfer_suspend object_path = Transfer1.suspend object_path

    unfoldable pub transfer_resume : Str → Task (Unit {0})
    transfer_resume object_path = Transfer1.resume object_path

    unfoldable pub transfer_properties : Str → Task BluezObexTransferProps
    unfolding get_all_properties
    transfer_properties object_path = do
      properties ← get_all_properties obex_service object_path transfer_iface
      pure (transfer_props_from_map object_path properties)

    unfoldable pub transfer_encoded_properties : Str → Task Buffer
    unfolding transfer_properties
    transfer_encoded_properties object_path = do
      transfer ← transfer_properties object_path
      pure (encode transfer)
