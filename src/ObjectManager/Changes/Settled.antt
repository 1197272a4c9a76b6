-- ===== src/ObjectManager/Changes/Settled.antt =====
-- What the handler of PropertiesChanged leaves in the cache.
use bluez_obex_native.Common.{◌≡◌, true, false, Option, List, ◌⊎◌}
use bluez_obex_native.Common.Strings.{Str}
use bluez_obex_native.OrderedMap
use bluez_obex_native.OrderedMap.{OrderedMap}
use bluez_obex_native.Sdbus.{Sdbus}
use bluez_obex_native.Bus.{PropertiesMap, Bus}
use bluez_obex_native.ObjectManager.Changes.Merging.{known_keys, has_key, updated}
use bluez_obex_native.ObjectManager.Changes.Cached.{IsAnswered, IsAnswered}

module _ ⦃s : Sdbus⦄ where
  open s use {Variant}

  module _ ⦃bus : Bus⦄ where
    -- What the handler leaves under a key, where `props` was cached before it.
    abbrev pub IsSettled :
        Str → Str → Str → PropertiesMap → List Str → PropertiesMap → Option Variant → Type 0
    IsSettled path iface key changed invalidated props o =
        ((has_key key (known_keys iface invalidated) ≡ true) × IsAnswered path iface key o)
        ⊎ ((has_key key (known_keys iface invalidated) ≡ false)
            × (o ≡ updated iface key (OrderedMap.find key changed) (OrderedMap.find key props)))
