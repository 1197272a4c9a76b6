-- ===== src/Types/Session.antt =====
-- native/include/bluez_obex_types.h: the wire structs of Session1 properties.
use bluez_obex_native.Common.{[], ℕ}
use bluez_obex_native.Common.Strings.{Str}
use bluez_obex_native.Wire.{Meta, done, field, string, u8, uint}

pub record BluezObexSessionProps : Type 0 where
  pub object_path : Str
  pub source : Str
  pub destination : Str
  pub channel : ℕ
  pub psm : ℕ
  pub target : Str
  pub root : Str

instance abbrev pub session_props_meta : Meta BluezObexSessionProps
session_props_meta = record {
  fields =
      field string (λ x. x.object_path) (λ v x. record x { object_path = v })
        (field string (λ x. x.source) (λ v x. record x { source = v })
          (field string (λ x. x.destination) (λ v x. record x { destination = v })
            (field u8 (λ x. x.channel) (λ v x. record x { channel = v })
              (field (uint 2) (λ x. x.psm) (λ v x. record x { psm = v })
                (field string (λ x. x.target) (λ v x. record x { target = v })
                  (field string (λ x. x.root) (λ v x. record x { root = v }) done))))));
  initial = record {
    object_path = [];
    source = [];
    destination = [];
    channel = 0;
    psm = 0;
    target = [];
    root = [];
  };
}
