-- ===== src/ObjectManager/Changes/Caching.antt =====
-- What is cached under a path and an interface, in the two ways in which it is looked up.
use bluez_obex_native.Common.{◌≡◌, ◌&&◌, some, arith, if◌then◌else◌}
use bluez_obex_native.Common.Strings.{Str, ◌==◌}
use bluez_obex_native.OrderedMap
use bluez_obex_native.OrderedMap.{OrderedMap}
use bluez_obex_native.Sdbus.{Sdbus}
use bluez_obex_native.Bus.{PropertiesMap, InterfacesMap}
use bluez_obex_native.ObjectManager.State.{Manager}
use bluez_obex_native.ObjectManager.View.{props_at}
use bluez_obex_native.ObjectManager.View.Lookups.{props_at-insert, props_at-found}
use bluez_obex_native.ObjectManager.Changes.{cached_at, with_cached}

module _ ⦃s : Sdbus⦄ where
  pub cached_at-find :
      (path iface : Str) (objects : OrderedMap InterfacesMap) (known : InterfacesMap)
      (props : PropertiesMap)
      → cached_at path iface objects ≡ some (known, props)
      → (OrderedMap.find path objects ≡ some known) × (OrderedMap.find iface known ≡ some props)
  unfolding cached_at
  cached_at-find path iface objects known props h = ground arith

  pub cached_at-props_at :
      (path iface : Str) (known : InterfacesMap) (props : PropertiesMap) (m : Manager)
      → cached_at path iface m.interfaces_by_path ≡ some (known, props)
      → props_at path iface m.interfaces_by_path ≡ some props
  cached_at-props_at path iface known props m h =
      let (at_path, at_iface) = cached_at-find path iface m.interfaces_by_path known props h in
      props_at-found path iface known props m.interfaces_by_path at_path at_iface

  pub with_cached-props_at :
      (path iface : Str) (known : InterfacesMap) (old props : PropertiesMap) (m : Manager)
      → cached_at path iface m.interfaces_by_path ≡ some (known, old)
      → (p i : Str)
      → props_at p i (with_cached path iface known props m).interfaces_by_path
        ≡ (if path == p && iface == i then some props else props_at p i m.interfaces_by_path)
  with_cached-props_at path iface known old props m h p i =
      props_at-insert p i path iface props known m.interfaces_by_path
        (rw (cached_at-find path iface m.interfaces_by_path known old h).0)
