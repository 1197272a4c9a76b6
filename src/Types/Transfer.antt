-- ===== src/Types/Transfer.antt =====
-- native/include/bluez_obex_types.h: the wire structs of transfers.
use bluez_obex_native.Common.{List, [], ℕ}
use bluez_obex_native.Common.Strings.{Str}
use bluez_obex_native.Wire.{Meta, done, field, string, structs, uint}

pub record BluezObexProperty : Type 0 where
  pub key : Str
  pub value : Str

instance abbrev pub property_meta : Meta BluezObexProperty
property_meta = record {
  fields =
      field string (λ x. x.key) (λ v x. record x { key = v })
        (field string (λ x. x.value) (λ v x. record x { value = v }) done);
  initial = record { key = []; value = [] };
}

pub record BluezObexTransferProps : Type 0 where
  pub object_path : Str
  pub status : Str
  pub session : Str
  pub name : Str
  pub type : Str
  pub time : ℕ
  pub size : ℕ
  pub transferred : ℕ
  pub filename : Str

instance abbrev pub transfer_props_meta : Meta BluezObexTransferProps
transfer_props_meta = record {
  fields =
      field string (λ x. x.object_path) (λ v x. record x { object_path = v })
        (field string (λ x. x.status) (λ v x. record x { status = v })
          (field string (λ x. x.session) (λ v x. record x { session = v })
            (field string (λ x. x.name) (λ v x. record x { name = v })
              (field string (λ x. x.type) (λ v x. record x { type = v })
                (field (uint 8) (λ x. x.time) (λ v x. record x { time = v })
                  (field (uint 8) (λ x. x.size) (λ v x. record x { size = v })
                    (field (uint 8) (λ x. x.transferred) (λ v x. record x { transferred = v })
                      (field string (λ x. x.filename) (λ v x. record x { filename = v })
                        done))))))));
  initial = record {
    object_path = [];
    status = [];
    session = [];
    name = [];
    type = [];
    time = 0;
    size = 0;
    transferred = 0;
    filename = [];
  };
}

pub record BluezObexTransferResult : Type 0 where
  pub transfer_path : Str
  pub properties : List BluezObexProperty

instance abbrev pub transfer_result_meta : Meta BluezObexTransferResult
transfer_result_meta = record {
  fields =
      field string (λ x. x.transfer_path) (λ v x. record x { transfer_path = v })
        (field (structs ⦃m = property_meta⦄) (λ x. x.properties)
          (λ v x. record x { properties = v }) done);
  initial = record { transfer_path = []; properties = [] };
}
