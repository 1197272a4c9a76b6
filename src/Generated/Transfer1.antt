-- ===== src/Generated/Transfer1.antt =====
-- native/generated/transfer1_proxy.h: the methods and properties of an object with the interface.
use bluez_obex_native.Common.{ℕ, []}
use bluez_obex_native.Common.Strings.{Str, bytes}
use bluez_obex_native.Sdbus.{Sdbus, string, object_path, u64}
use bluez_obex_native.Bus.{call_method, Bus, nothing}
use bluez_obex_native.Calls.{Task, call}
use bluez_obex_native.Generated.{read_property}

abbrev pub interface_name : Str
interface_name = bytes "org.bluez.obex.Transfer1"

module _ ⦃s : Sdbus⦄ ⦃bus : Bus⦄ where
  abbrev pub cancel : Str → Task (Unit {0})
  cancel object = call nothing (call_method object interface_name (bytes "Cancel") [])

  abbrev pub suspend : Str → Task (Unit {0})
  suspend object = call nothing (call_method object interface_name (bytes "Suspend") [])

  abbrev pub resume : Str → Task (Unit {0})
  resume object = call nothing (call_method object interface_name (bytes "Resume") [])

  abbrev pub status : Str → Task Str
  status object = read_property string object interface_name (bytes "Status")

  abbrev pub session : Str → Task Str
  session object = read_property object_path object interface_name (bytes "Session")

  abbrev pub name : Str → Task Str
  name object = read_property string object interface_name (bytes "Name")

  abbrev pub type : Str → Task Str
  type object = read_property string object interface_name (bytes "Type")

  abbrev pub time : Str → Task ℕ
  time object = read_property u64 object interface_name (bytes "Time")

  abbrev pub size : Str → Task ℕ
  size object = read_property u64 object interface_name (bytes "Size")

  abbrev pub transferred : Str → Task ℕ
  transferred object = read_property u64 object interface_name (bytes "Transferred")

  abbrev pub filename : Str → Task Str
  filename object = read_property string object interface_name (bytes "Filename")
