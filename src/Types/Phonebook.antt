-- ===== src/Types/Phonebook.antt =====
-- native/include/bluez_obex_types.h: the wire structs of phonebooks.
use bluez_obex_native.Common.{List, [], Bool, false}
use bluez_obex_native.Common.Strings.{Str}
use bluez_obex_native.Wire.{Meta, done, field, boolean, string, structs}

pub record BluezObexPhonebookProps : Type 0 where
  pub object_path : Str
  pub folder : Str
  pub database_identifier : Str
  pub primary_counter : Str
  pub secondary_counter : Str
  pub fixed_image_size : Bool

instance abbrev pub phonebook_props_meta : Meta BluezObexPhonebookProps
phonebook_props_meta = record {
  fields =
      field string (λ x. x.object_path) (λ v x. record x { object_path = v })
        (field string (λ x. x.folder) (λ v x. record x { folder = v })
          (field string (λ x. x.database_identifier) (λ v x. record x { database_identifier = v })
            (field string (λ x. x.primary_counter) (λ v x. record x { primary_counter = v })
              (field string (λ x. x.secondary_counter) (λ v x. record x { secondary_counter = v })
                (field boolean (λ x. x.fixed_image_size) (λ v x. record x { fixed_image_size = v })
                  done)))));
  initial = record {
    object_path = [];
    folder = [];
    database_identifier = [];
    primary_counter = [];
    secondary_counter = [];
    fixed_image_size = false;
  };
}

pub record BluezObexPhonebookEntry : Type 0 where
  pub vcard : Str
  pub name : Str

instance abbrev pub phonebook_entry_meta : Meta BluezObexPhonebookEntry
phonebook_entry_meta = record {
  fields =
      field string (λ x. x.vcard) (λ v x. record x { vcard = v })
        (field string (λ x. x.name) (λ v x. record x { name = v }) done);
  initial = record { vcard = []; name = [] };
}

pub record BluezObexPhonebookEntries : Type 0 where
  pub entries : List BluezObexPhonebookEntry

instance abbrev pub phonebook_entries_meta : Meta BluezObexPhonebookEntries
phonebook_entries_meta = record {
  fields =
      field (structs ⦃m = phonebook_entry_meta⦄) (λ x. x.entries) (λ v x. record x { entries = v })
        done;
  initial = record { entries = [] };
}
