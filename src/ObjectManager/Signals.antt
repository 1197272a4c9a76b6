-- ===== src/ObjectManager/Signals.antt =====
-- native/src/obex_object_manager.cpp: the handlers of the signals, the first query of all objects
-- and the end of the connection. They run one after the other on the thread of the event loop.
use bluez_obex_native.Common.{true, false, not, ◌&&◌, List, [], ◌∷◌, is_empty, if◌then◌else◌}
use bluez_obex_native.Common.Strings.{Str, bytes, ◌==◌}
use bluez_obex_native.OrderedMap.{OrderedMap}
use bluez_obex_native.Sdbus.{Sdbus, Outcome, ok, throws, dbus_error}
use bluez_obex_native.Bus.{
  PropertiesMap, InterfacesMap, call_method, Answer, reply, error, Bus, all_objects,
}
use bluez_obex_native.ObjectManager.State.{
  Manager, post_error, post_sentinel, object_manager_iface, answer, sent,
}
use bluez_obex_native.ObjectManager.Objects.{on_interfaces_added, on_interfaces_removed}
use bluez_obex_native.ObjectManager.Changes.{on_properties_changed}

module _ ⦃s : Sdbus⦄ where
  -- `failed_.exchange(true)`, then the cache is cleared and Dart is told.
  unfoldable pub connection_failed : Str → Manager → Manager
  unfolding post_error post_sentinel
  connection_failed message m =
      if m.failed
      then m
      else post_sentinel 0xff (
          post_error (bytes "/") (bytes "org.bluez.obex.Error.Disconnected") message
            (record m { failed = true; interfaces_by_path = [] }))

  -- The handler of `NameOwnerChanged`.
  unfoldable pub on_name_owner_changed : Str → Str → Str → Manager → Manager
  unfolding connection_failed
  on_name_owner_changed name old_owner new_owner m =
      if name == bytes "org.bluez.obex" && not (is_empty old_owner) && not (old_owner == new_owner)
      then connection_failed (bytes "OBEX service owner changed; create a new client") m
      else m

  -- What the event loop delivers: the signals with the arguments that they were read into, a
  -- signal that could not be read, and the exception that ends the loop.
  pub data Signal : Type 0 where
    interfaces_added : Str → InterfacesMap → Signal
    interfaces_removed : Str → List Str → Signal
    properties_changed : Str → Str → PropertiesMap → List Str → Signal
    name_owner_changed : Str → Str → Str → Signal
    unreadable : Signal
    loop_failed : Str → Signal

  -- A manager whose constructor has returned.
  abbrev pub created : Manager
  created = record { failed = false; interfaces_by_path = []; posted = []; requests = [] }

  module _ ⦃bus : Bus⦄ where
    unfoldable pub handle : Signal → Manager → Manager
    handle (interfaces_added path interfaces) m = on_interfaces_added path interfaces m
    handle (interfaces_removed path interfaces) m = on_interfaces_removed path interfaces m
    handle (properties_changed path interface_name changed invalidated) m =
        on_properties_changed path interface_name changed invalidated m
    handle (name_owner_changed name old_owner new_owner) m =
        on_name_owner_changed name old_owner new_owner m
    handle unreadable m = m
    handle (loop_failed message) m = connection_failed message m

    unfoldable pub add_objects : OrderedMap InterfacesMap → Manager → Manager
    add_objects [] m = m
    add_objects ((path, interfaces) ∷ objects) m =
        add_objects objects (on_interfaces_added path interfaces m)

    abbrev pub managed : Answer (OrderedMap InterfacesMap) → Manager → Outcome (Unit {0}) × Manager
    managed (reply objects) m = (ok tt, post_sentinel 0x00 (add_objects objects m))
    managed (error name message) m = (throws (dbus_error name message), m)

    unfoldable pub get_managed_objects : Manager → Outcome (Unit {0}) × Manager
    unfolding add_objects post_sentinel
    get_managed_objects m =
        let r = call_method (bytes "/") object_manager_iface (bytes "GetManagedObjects") [] in
        managed (answer all_objects r m) (sent r m)

    -- The signals in the order in which they arrive.
    unfoldable pub run : List Signal → Manager → Manager
    unfolding handle
    run [] m = m
    run (signal ∷ signals) m = run signals (handle signal m)
