-- ===== src/Generated/Client1.antt =====
-- native/generated/client1_proxy.h: the methods and properties of an object with the interface.
use bluez_obex_native.Common.{[], ◌∷◌}
use bluez_obex_native.Common.Strings.{Str, bytes}
use bluez_obex_native.Sdbus.{Sdbus}
use bluez_obex_native.Bus.{
  PropertiesMap, call_method, text, path, dictionary, Bus, nothing, one_path,
}
use bluez_obex_native.Calls.{Task, call}

abbrev pub interface_name : Str
interface_name = bytes "org.bluez.obex.Client1"

module _ ⦃s : Sdbus⦄ ⦃bus : Bus⦄ where
  abbrev pub create_session : Str → Str → PropertiesMap → Task Str
  create_session object destination args = call one_path (
      call_method object interface_name (bytes "CreateSession")
        (text destination ∷ dictionary args ∷ []))

  abbrev pub remove_session : Str → Str → Task (Unit {0})
  remove_session object session =
      call nothing (call_method object interface_name (bytes "RemoveSession") (path session ∷ []))
