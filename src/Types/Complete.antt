-- ===== src/Types/Complete.antt =====
-- Every wire struct lists all its members, each by overloads that obey the laws of the format.
pub mod Messages
use bluez_obex_native.Common.{refl}
use bluez_obex_native.Wire.Fields.{
  FitsAlways, FitsBytes, FitsString, u8-IsLawful, boolean-IsLawful, uint-IsLawful, string-IsLawful,
}
use bluez_obex_native.Wire.Vectors.{FitsVector, strings-IsLawful}
use bluez_obex_native.Wire.Structs.{IsComplete, FitsStruct, structs-IsLawful}
use bluez_obex_native.Types.Session.{session_props_meta}
use bluez_obex_native.Types.Transfer.{property_meta, transfer_props_meta, transfer_result_meta}
use bluez_obex_native.Types.Phonebook.{
  phonebook_props_meta, phonebook_entry_meta, phonebook_entries_meta,
}
use bluez_obex_native.Types.Message.{
  message_props_meta, messages_meta, message_folder_meta, message_folders_meta,
  message_access_props_meta, filter_fields_meta,
}
use bluez_obex_native.Types.Objects.{
  managed_objects_meta, object_removed_meta, object_added_meta, error_meta,
}
use bluez_obex_native.Types.Device.{device_meta, devices_meta}

abbrev pub session_props_IsComplete : IsComplete session_props_meta
session_props_IsComplete = record {
  lawful = (
    (FitsString, string-IsLawful),
    (
      (FitsString, string-IsLawful),
      (
        (FitsString, string-IsLawful),
        (
          (FitsBytes 1, u8-IsLawful),
          (
            (FitsBytes 2, uint-IsLawful 2),
            ((FitsString, string-IsLawful), ((FitsString, string-IsLawful), tt)),
          ),
        ),
      ),
    ),
  );
  total = λ x y. refl;
}

abbrev pub property_IsComplete : IsComplete property_meta
property_IsComplete = record {
  lawful = ((FitsString, string-IsLawful), ((FitsString, string-IsLawful), tt));
  total = λ x y. refl;
}

abbrev pub transfer_props_IsComplete : IsComplete transfer_props_meta
transfer_props_IsComplete = record {
  lawful = (
    (FitsString, string-IsLawful),
    (
      (FitsString, string-IsLawful),
      (
        (FitsString, string-IsLawful),
        (
          (FitsString, string-IsLawful),
          (
            (FitsString, string-IsLawful),
            (
              (FitsBytes 8, uint-IsLawful 8),
              (
                (FitsBytes 8, uint-IsLawful 8),
                ((FitsBytes 8, uint-IsLawful 8), ((FitsString, string-IsLawful), tt)),
              ),
            ),
          ),
        ),
      ),
    ),
  );
  total = λ x y. refl;
}

abbrev pub transfer_result_IsComplete : IsComplete transfer_result_meta
transfer_result_IsComplete = record {
  lawful = (
    (FitsString, string-IsLawful),
    (
      (
        FitsVector (FitsStruct property_meta property_IsComplete),
        structs-IsLawful property_meta property_IsComplete,
      ),
      tt,
    ),
  );
  total = λ x y. refl;
}

abbrev pub phonebook_props_IsComplete : IsComplete phonebook_props_meta
phonebook_props_IsComplete = record {
  lawful = (
    (FitsString, string-IsLawful),
    (
      (FitsString, string-IsLawful),
      (
        (FitsString, string-IsLawful),
        (
          (FitsString, string-IsLawful),
          ((FitsString, string-IsLawful), ((FitsAlways, boolean-IsLawful), tt)),
        ),
      ),
    ),
  );
  total = λ x y. refl;
}

abbrev pub phonebook_entry_IsComplete : IsComplete phonebook_entry_meta
phonebook_entry_IsComplete = record {
  lawful = ((FitsString, string-IsLawful), ((FitsString, string-IsLawful), tt));
  total = λ x y. refl;
}

abbrev pub phonebook_entries_IsComplete : IsComplete phonebook_entries_meta
phonebook_entries_IsComplete = record {
  lawful = (
    (
      FitsVector (FitsStruct phonebook_entry_meta phonebook_entry_IsComplete),
      structs-IsLawful phonebook_entry_meta phonebook_entry_IsComplete,
    ),
    tt,
  );
  total = λ x y. refl;
}

abbrev pub managed_objects_IsComplete : IsComplete managed_objects_meta
managed_objects_IsComplete = record {
  lawful = (
    (FitsVector FitsString, strings-IsLawful),
    (
      (FitsVector FitsString, strings-IsLawful),
      (
        (FitsVector FitsString, strings-IsLawful),
        (
          (FitsVector FitsString, strings-IsLawful),
          ((FitsVector FitsString, strings-IsLawful), tt),
        ),
      ),
    ),
  );
  total = λ x y. refl;
}

abbrev pub object_removed_IsComplete : IsComplete object_removed_meta
object_removed_IsComplete = record {
  lawful = ((FitsString, string-IsLawful), ((FitsString, string-IsLawful), tt));
  total = λ x y. refl;
}

abbrev pub object_added_IsComplete : IsComplete object_added_meta
object_added_IsComplete = record {
  lawful = ((FitsString, string-IsLawful), ((FitsString, string-IsLawful), tt));
  total = λ x y. refl;
}

abbrev pub error_IsComplete : IsComplete error_meta
error_IsComplete = record {
  lawful = (
    (FitsString, string-IsLawful),
    ((FitsString, string-IsLawful), ((FitsString, string-IsLawful), tt)),
  );
  total = λ x y. refl;
}

abbrev pub device_IsComplete : IsComplete device_meta
device_IsComplete = record {
  lawful = (
    (FitsString, string-IsLawful),
    (
      (FitsString, string-IsLawful),
      (
        (FitsAlways, boolean-IsLawful),
        ((FitsAlways, boolean-IsLawful), ((FitsVector FitsString, strings-IsLawful), tt)),
      ),
    ),
  );
  total = λ x y. refl;
}

abbrev pub devices_IsComplete : IsComplete devices_meta
devices_IsComplete = record {
  lawful = (
    (
      FitsVector (FitsStruct device_meta device_IsComplete),
      structs-IsLawful device_meta device_IsComplete,
    ),
    tt,
  );
  total = λ x y. refl;
}
