-- ===== src/Types/Objects.antt =====
-- native/include/bluez_obex_types.h: the wire structs of objects that come and go, and of errors.
use bluez_obex_native.Common.{List, []}
use bluez_obex_native.Common.Strings.{Str}
use bluez_obex_native.Wire.{Meta, done, field, string, strings}

pub record BluezObexManagedObjects : Type 0 where
  pub sessions : List Str
  pub transfers : List Str
  pub phonebooks : List Str
  pub message_accesses : List Str
  pub messages : List Str

instance abbrev pub managed_objects_meta : Meta BluezObexManagedObjects
managed_objects_meta = record {
  fields =
      field strings (λ x. x.sessions) (λ v x. record x { sessions = v })
        (field strings (λ x. x.transfers) (λ v x. record x { transfers = v })
          (field strings (λ x. x.phonebooks) (λ v x. record x { phonebooks = v })
            (field strings (λ x. x.message_accesses) (λ v x. record x { message_accesses = v })
              (field strings (λ x. x.messages) (λ v x. record x { messages = v }) done))));
  initial = record {
    sessions = [];
    transfers = [];
    phonebooks = [];
    message_accesses = [];
    messages = [];
  };
}

pub record BluezObexObjectRemoved : Type 0 where
  pub object_path : Str
  pub interface_name : Str

instance abbrev pub object_removed_meta : Meta BluezObexObjectRemoved
object_removed_meta = record {
  fields =
      field string (λ x. x.object_path) (λ v x. record x { object_path = v })
        (field string (λ x. x.interface_name) (λ v x. record x { interface_name = v }) done);
  initial = record { object_path = []; interface_name = [] };
}

pub record BluezObexObjectAdded : Type 0 where
  pub object_path : Str
  pub interface_name : Str

instance abbrev pub object_added_meta : Meta BluezObexObjectAdded
object_added_meta = record {
  fields =
      field string (λ x. x.object_path) (λ v x. record x { object_path = v })
        (field string (λ x. x.interface_name) (λ v x. record x { interface_name = v }) done);
  initial = record { object_path = []; interface_name = [] };
}

pub record BluezObexError : Type 0 where
  pub object_path : Str
  pub name : Str
  pub message : Str

instance abbrev pub error_meta : Meta BluezObexError
error_meta = record {
  fields =
      field string (λ x. x.object_path) (λ v x. record x { object_path = v })
        (field string (λ x. x.name) (λ v x. record x { name = v })
          (field string (λ x. x.message) (λ v x. record x { message = v }) done));
  initial = record { object_path = []; name = []; message = [] };
}
