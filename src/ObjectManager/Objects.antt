-- ===== src/ObjectManager/Objects.antt =====
-- native/src/obex_object_manager.cpp: objects that come (`on_interfaces_added`) and go
-- (`on_interfaces_removed`).
use bluez_obex_native.Common.{not, none, some, List, [], ◌∷◌, is_empty, get_or, if◌then◌else◌}
use bluez_obex_native.Common.Strings.{Str}
use bluez_obex_native.OrderedMap
use bluez_obex_native.OrderedMap.{OrderedMap}
use bluez_obex_native.Sdbus.{Sdbus}
use bluez_obex_native.Bus.{PropertiesMap, InterfacesMap, Bus}
use bluez_obex_native.ObjectManager.Interfaces.{is_obex_interface}
use bluez_obex_native.ObjectManager.State.{Manager, post_added, post_removed, post_properties}

module _ ⦃s : Sdbus⦄ where
  -- `interfaces_by_path_[path]`, which makes an empty map where there is none.
  abbrev pub interfaces_at : Str → Manager → InterfacesMap
  interfaces_at path m = get_or (OrderedMap.find path m.interfaces_by_path) []

  -- The erase of one interface; a path with no interfaces left goes too.
  abbrev pub without : Str → Str → InterfacesMap → Manager → Manager
  without path interface_name known m =
      let left = OrderedMap.erase interface_name known in
      record m {
        interfaces_by_path =
            if is_empty left
            then OrderedMap.erase path m.interfaces_by_path
            else OrderedMap.insert path left m.interfaces_by_path;
      }

  module _ ⦃bus : Bus⦄ where
    -- One interface of `on_interfaces_added`.
    unfoldable pub add_interface : Str → Str → PropertiesMap → Manager → Manager
    unfolding post_added post_properties
    add_interface path interface_name properties m =
        let inserted = not (OrderedMap.contains interface_name (interfaces_at path m)) in
        let cached = record m {
          interfaces_by_path =
              OrderedMap.insert path
                (OrderedMap.insert interface_name properties (interfaces_at path m))
                m.interfaces_by_path;
        } in
        post_properties path interface_name (some properties)
          (if inserted then post_added path interface_name cached else cached)

    unfoldable pub add_interfaces : Str → InterfacesMap → Manager → Manager
    add_interfaces path [] m = m
    add_interfaces path ((interface_name, properties) ∷ interfaces) m =
        add_interfaces path interfaces (
          if is_obex_interface interface_name
          then add_interface path interface_name properties m
          else m)

    unfoldable pub on_interfaces_added : Str → InterfacesMap → Manager → Manager
    on_interfaces_added path interfaces m = if m.failed then m else add_interfaces path interfaces m

    -- One interface of `on_interfaces_removed`.
    unfoldable pub remove_interface : Str → Str → Manager → Manager
    unfolding post_removed
    remove_interface path interface_name m = elim (OrderedMap.find path m.interfaces_by_path) [
      | none ↦ m
      | some known ↦
          if OrderedMap.contains interface_name known
          then post_removed path interface_name (without path interface_name known m)
          else without path interface_name known m
    ]

    unfoldable pub remove_interfaces : Str → List Str → Manager → Manager
    remove_interfaces path [] m = m
    remove_interfaces path (interface_name ∷ interfaces) m =
        remove_interfaces path interfaces
          (if is_obex_interface interface_name then remove_interface path interface_name m else m)

    unfoldable pub on_interfaces_removed : Str → List Str → Manager → Manager
    on_interfaces_removed path interfaces m =
        if m.failed then m else remove_interfaces path interfaces m
