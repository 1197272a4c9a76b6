-- ===== src/Generated.antt =====
-- native/generated: the proxies of the interfaces of org.bluez.obex, with a method for each method
-- and a reader or a writer for each property.
pub mod Client1
pub mod Session1
pub mod Transfer1
pub mod PhonebookAccess1
pub mod MessageAccess1
pub mod Message1
pub mod Getters
use bluez_obex_native.Common.Strings.{Str}
use bluez_obex_native.Sdbus.{Sdbus, ValueType, Value}
use bluez_obex_native.Bus.{get_property, Bus, one_variant}
use bluez_obex_native.Calls.{Task, lift, call, ◌>>=◌}

module _ ⦃s : Sdbus⦄ ⦃bus : Bus⦄ where
  -- `m_proxy.getProperty(name).onInterface(INTERFACE_NAME).get<T>()`.
  abbrev pub read_property : (t : ValueType) → Str → Str → Str → Task (Value t)
  read_property t object_path interface_name name = do
    value ← call one_variant (get_property object_path interface_name name)
    lift (s.get t value)
