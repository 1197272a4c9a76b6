-- ===== src/Devices.antt =====
-- native/src/bluez_device_registry.cpp: the Bluetooth devices that the service org.bluez knows.
use bluez_obex_native.Common.{
  ◌≡◌, ◌≢◌, Bool, true, false, none, some, List, [], ◌∷◌, ◌++◌, is_empty, All, All-append, arith,
  match_intro, if_intro, if◌then◌else◌,
}
use bluez_obex_native.Common.Strings.{Str, bytes}
use bluez_obex_native.OrderedMap
use bluez_obex_native.OrderedMap.{OrderedMap}
use bluez_obex_native.Sdbus.{Sdbus, ValueType, Value, string, boolean, strings, Outcome, ok, throws}
use bluez_obex_native.Bus.{
  PropertiesMap, InterfacesMap, create_proxy, call_method, Bus, all_objects, nothing,
}
use bluez_obex_native.Calls.{Task, pure, call, ◌>>=◌}
use bluez_obex_native.Types.Device.{BluezDevice, BluezDevices}

abbrev pub bluez_service : Str
bluez_service = bytes "org.bluez"

abbrev pub bluez_root_path : Str
bluez_root_path = bytes "/"

abbrev pub dbus_object_manager_iface : Str
dbus_object_manager_iface = bytes "org.freedesktop.DBus.ObjectManager"

abbrev pub device_iface : Str
device_iface = bytes "org.bluez.Device1"

module _ ⦃s : Sdbus⦄ where
  open s use {get}

  -- A read that gives the fallback where the key is missing or the value has another type.
  abbrev caught : {A : Type 0} → A → Outcome A → A
  caught fallback (ok x) = x
  caught fallback (throws e) = fallback

  unfoldable pub property_or : (t : ValueType) → PropertiesMap → Str → Value t → Value t
  property_or t properties key fallback = elim (OrderedMap.find key properties) [
    | none ↦ fallback
    | some v ↦ caught fallback (get t v)
  ]

  abbrev pub get_bool_property : PropertiesMap → Str → Bool → Bool
  get_bool_property properties key fallback = property_or boolean properties key fallback

  abbrev pub get_string_property : PropertiesMap → Str → Str
  get_string_property properties key = property_or string properties key []

  abbrev pub get_string_list_property : PropertiesMap → Str → List Str
  get_string_list_property properties key = property_or strings properties key []

  -- The name that is shown: the alias, else the name, else the address.
  unfoldable pub shown_name : PropertiesMap → Str → Str
  shown_name properties address =
      let alias = get_string_property properties (bytes "Alias") in
      let name =
        (if is_empty alias then get_string_property properties (bytes "Name") else alias) in
      if is_empty name then address else name

  unfoldable pub to_device : PropertiesMap → Str → BluezDevice
  unfolding shown_name
  to_device properties address = record {
    address = address;
    name = shown_name properties address;
    paired = get_bool_property properties (bytes "Paired") false;
    connected = get_bool_property properties (bytes "Connected") false;
    uuids = get_string_list_property properties (bytes "UUIDs");
  }

  -- What one object adds to the result.
  unfoldable pub push_device : InterfacesMap → List BluezDevice → List BluezDevice
  unfolding to_device
  push_device interfaces devices = elim (OrderedMap.find device_iface interfaces) [
    | none ↦ devices
    | some properties ↦
        let address = get_string_property properties (bytes "Address") in
        if is_empty address then devices else devices ++ to_device properties address ∷ []
  ]

  unfoldable pub push_devices : OrderedMap InterfacesMap → List BluezDevice → List BluezDevice
  unfolding push_device
  push_devices [] devices = devices
  push_devices ((path, interfaces) ∷ objects) devices =
      push_devices objects (push_device interfaces devices)

  module _ ⦃bus : Bus⦄ where
    -- Over a connection of its own to the system bus.
    unfoldable pub get_devices : Task BluezDevices
    unfolding push_devices
    get_devices = do
      created ← call nothing (create_proxy bluez_service bluez_root_path)
      objects ←
          call all_objects
            (call_method bluez_root_path dbus_object_manager_iface (bytes "GetManagedObjects") [])
      pure (record { devices = push_devices objects [] })

  -- A device that is listed has an address and a name to show.
  abbrev pub IsShown : BluezDevice → Type 0
  IsShown d = (d.address ≢ []) × (d.name ≢ [])

  not_empty : (t : Str) → is_empty t ≡ false → t ≢ []
  not_empty t h e = let k : true ≡ false = rw e at h in cc

  to_device-IsShown :
      (properties : PropertiesMap) (address : Str)
      → is_empty address ≡ false
      → IsShown (to_device properties address)
  unfolding to_device shown_name
  to_device-IsShown properties address h = (not_empty address h, not_empty _ (ground arith))

  push_device-IsShown :
      (interfaces : InterfacesMap) (devices : List BluezDevice)
      → All IsShown devices
      → All IsShown (push_device interfaces devices)
  unfolding push_device
  push_device-IsShown interfaces devices h =
      match_intro (All IsShown) (OrderedMap.find device_iface interfaces) devices _ (λ _. h)
        (λ properties _.
          let address = get_string_property properties (bytes "Address") in
          if_intro (All IsShown) (is_empty address) devices _ (λ _. h)
            (λ e. All-append IsShown devices _ h (to_device-IsShown properties address e, tt)))

  -- Every device that the loop lists has an address that is not empty and a name that is not
  -- empty, whatever the objects and their properties are.
  pub push_devices-IsShown :
      (objects : OrderedMap InterfacesMap) (devices : List BluezDevice)
      → All IsShown devices
      → All IsShown (push_devices objects devices)
  unfolding push_devices
  push_devices-IsShown [] devices h = h
  push_devices-IsShown ((path, interfaces) ∷ objects) devices h =
      push_devices-IsShown objects _ (push_device-IsShown interfaces devices h)
