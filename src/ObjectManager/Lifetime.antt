-- ===== src/ObjectManager/Lifetime.antt =====
-- native/src/obex_object_manager.cpp: the constructor of the manager, which subscribes to the
-- signals, and its destructor.
use bluez_obex_native.Common.{List, []}
use bluez_obex_native.Common.Strings.{Str, bytes}
use bluez_obex_native.Sdbus.{Sdbus, Outcome, ok, throws}
use bluez_obex_native.Bus.{Request, create_proxy, register_signal, add_match, Bus, nothing}
use bluez_obex_native.Calls.{Task, call, ◌>>=◌}
use bluez_obex_native.ObjectManager.State.{Manager, obex_service, object_manager_iface}
use bluez_obex_native.ObjectManager.Signals.{created, get_managed_objects}

abbrev pub root_path : Str
root_path = bytes "/"

abbrev pub bus_name : Str
bus_name = bytes "org.freedesktop.DBus"

abbrev pub bus_path : Str
bus_path = bytes "/org/freedesktop/DBus"

abbrev pub properties_rule : Str
properties_rule =
    bytes
      "type='signal',sender='org.bluez.obex',interface='org.freedesktop.DBus.Properties',member='PropertiesChanged',path_namespace='/org/bluez/obex'"

module _ ⦃s : Sdbus⦄ where
  -- The destructor: the subscription goes, and the cache is cleared.
  unfoldable pub destroyed : Manager → Manager
  destroyed m = record m { interfaces_by_path = [] }

  module _ ⦃bus : Bus⦄ where
    unfoldable pub subscribe_properties : Task (Unit {0})
    subscribe_properties = call nothing (add_match properties_rule)

    -- The constructor up to its end.
    unfoldable pub subscribe : Task (Unit {0})
    unfolding subscribe_properties
    subscribe = do
      owner ← call nothing (create_proxy bus_name bus_path)
      watched ← call nothing (register_signal bus_path bus_name (bytes "NameOwnerChanged"))
      matched ← subscribe_properties
      root ← call nothing (create_proxy obex_service root_path)
      added ←
          call nothing (register_signal root_path object_manager_iface (bytes "InterfacesAdded"))
      call nothing (register_signal root_path object_manager_iface (bytes "InterfacesRemoved"))

    -- A manager that is constructed and, where that has not thrown, has made its first query.
    unfoldable pub started : Outcome (Unit {0}) × List Request → Outcome (Unit {0}) × Manager
    unfolding get_managed_objects
    started (throws e, log) = (throws e, record created { requests = log })
    started (ok _, log) = get_managed_objects (record created { requests = log })
