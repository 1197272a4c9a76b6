-- ===== src/Generated/Session1.antt =====
-- native/generated/session1_proxy.h: the methods and properties of an object with the interface.
use bluez_obex_native.Common.{ℕ, []}
use bluez_obex_native.Common.Strings.{Str, bytes}
use bluez_obex_native.Sdbus.{Sdbus, string, u8, u16}
use bluez_obex_native.Bus.{call_method, Bus, one_text}
use bluez_obex_native.Calls.{Task, call}
use bluez_obex_native.Generated.{read_property}

abbrev pub interface_name : Str
interface_name = bytes "org.bluez.obex.Session1"

module _ ⦃s : Sdbus⦄ ⦃bus : Bus⦄ where
  abbrev pub get_capabilities : Str → Task Str
  get_capabilities object =
      call one_text (call_method object interface_name (bytes "GetCapabilities") [])

  abbrev pub source : Str → Task Str
  source object = read_property string object interface_name (bytes "Source")

  abbrev pub destination : Str → Task Str
  destination object = read_property string object interface_name (bytes "Destination")

  abbrev pub channel : Str → Task ℕ
  channel object = read_property u8 object interface_name (bytes "Channel")

  abbrev pub psm : Str → Task ℕ
  psm object = read_property u16 object interface_name (bytes "PSM")

  abbrev pub target : Str → Task Str
  target object = read_property string object interface_name (bytes "Target")

  abbrev pub root : Str → Task Str
  root object = read_property string object interface_name (bytes "Root")
