-- ===== src/Types/Complete/Messages.antt =====
-- The structs of messages list all their members.
use bluez_obex_native.Common.{refl}
use bluez_obex_native.Wire.Fields.{
  FitsAlways, FitsBytes, FitsString, boolean-IsLawful, uint-IsLawful, string-IsLawful,
}
use bluez_obex_native.Wire.Vectors.{FitsVector, strings-IsLawful}
use bluez_obex_native.Wire.Structs.{IsComplete, FitsStruct, structs-IsLawful}
use bluez_obex_native.Types.Session.{session_props_meta}
use bluez_obex_native.Types.Transfer.{property_meta, transfer_props_meta, transfer_result_meta}
use bluez_obex_native.Types.Phonebook.{
  phonebook_props_meta, phonebook_entry_meta, phonebook_entries_meta,
}
use bluez_obex_native.Types.Message.{
  message_props_meta, messages_meta, message_folder_meta, message_folders_meta,
  message_access_props_meta, filter_fields_meta,
}
use bluez_obex_native.Types.Objects.{
  managed_objects_meta, object_removed_meta, object_added_meta, error_meta,
}
use bluez_obex_native.Types.Device.{device_meta, devices_meta}

abbrev pub message_props_IsComplete : IsComplete message_props_meta
message_props_IsComplete = record {
  lawful = (
    (FitsString, string-IsLawful),
    (
      (FitsString, string-IsLawful),
      (
        (FitsString, string-IsLawful),
        (
          (FitsString, string-IsLawful),
          (
            (FitsString, string-IsLawful),
            (
              (FitsString, string-IsLawful),
              (
                (FitsString, string-IsLawful),
                (
                  (FitsString, string-IsLawful),
                  (
                    (FitsString, string-IsLawful),
                    (
                      (FitsString, string-IsLawful),
                      (
                        (FitsBytes 8, uint-IsLawful 8),
                        (
                          (FitsAlways, boolean-IsLawful),
                          (
                            (FitsString, string-IsLawful),
                            (
                              (FitsBytes 8, uint-IsLawful 8),
                              (
                                (FitsAlways, boolean-IsLawful),
                                (
                                  (FitsAlways, boolean-IsLawful),
                                  (
                                    (FitsAlways, boolean-IsLawful),
                                    (
                                      (FitsAlways, boolean-IsLawful),
                                      (
                                        (FitsAlways, boolean-IsLawful),
                                        (
                                          (FitsString, string-IsLawful),
                                          (
                                            (FitsBytes 8, uint-IsLawful 8),
                                            (
                                              (FitsString, string-IsLawful),
                                              (
                                                (FitsString, string-IsLawful),
                                                ((FitsString, string-IsLawful), tt),
                                              ),
                                            ),
                                          ),
                                        ),
                                      ),
                                    ),
                                  ),
                                ),
                              ),
                            ),
                          ),
                        ),
                      ),
                    ),
                  ),
                ),
              ),
            ),
          ),
        ),
      ),
    ),
  );
  total = λ x y. refl;
}

abbrev pub messages_IsComplete : IsComplete messages_meta
messages_IsComplete = record {
  lawful = (
    (
      FitsVector (FitsStruct message_props_meta message_props_IsComplete),
      structs-IsLawful message_props_meta message_props_IsComplete,
    ),
    tt,
  );
  total = λ x y. refl;
}

abbrev pub message_folder_IsComplete : IsComplete message_folder_meta
message_folder_IsComplete = record {
  lawful = ((FitsString, string-IsLawful), tt);
  total = λ x y. refl;
}

abbrev pub message_folders_IsComplete : IsComplete message_folders_meta
message_folders_IsComplete = record {
  lawful = (
    (
      FitsVector (FitsStruct message_folder_meta message_folder_IsComplete),
      structs-IsLawful message_folder_meta message_folder_IsComplete,
    ),
    tt,
  );
  total = λ x y. refl;
}

abbrev pub message_access_props_IsComplete : IsComplete message_access_props_meta
message_access_props_IsComplete = record {
  lawful = ((FitsString, string-IsLawful), ((FitsVector FitsString, strings-IsLawful), tt));
  total = λ x y. refl;
}

abbrev pub filter_fields_IsComplete : IsComplete filter_fields_meta
filter_fields_IsComplete = record {
  lawful = ((FitsVector FitsString, strings-IsLawful), tt);
  total = λ x y. refl;
}
