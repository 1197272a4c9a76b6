-- ===== src/Types/Device.antt =====
-- native/include/bluez_obex_types.h: the wire structs of paired devices.
use bluez_obex_native.Common.{List, [], Bool, false}
use bluez_obex_native.Common.Strings.{Str}
use bluez_obex_native.Wire.{Meta, done, field, boolean, string, strings, structs}

pub record BluezDevice : Type 0 where
  pub address : Str
  pub name : Str
  pub paired : Bool
  pub connected : Bool
  pub uuids : List Str

instance abbrev pub device_meta : Meta BluezDevice
device_meta = record {
  fields =
      field string (λ x. x.address) (λ v x. record x { address = v })
        (field string (λ x. x.name) (λ v x. record x { name = v })
          (field boolean (λ x. x.paired) (λ v x. record x { paired = v })
            (field boolean (λ x. x.connected) (λ v x. record x { connected = v })
              (field strings (λ x. x.uuids) (λ v x. record x { uuids = v }) done))));
  initial = record { address = []; name = []; paired = false; connected = false; uuids = [] };
}

pub record BluezDevices : Type 0 where
  pub devices : List BluezDevice

instance abbrev pub devices_meta : Meta BluezDevices
devices_meta = record {
  fields =
      field (structs ⦃m = device_meta⦄) (λ x. x.devices) (λ v x. record x { devices = v }) done;
  initial = record { devices = [] };
}
