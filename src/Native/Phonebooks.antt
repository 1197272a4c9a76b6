-- ===== src/Native/Phonebooks.antt =====
-- native/src/bluez_obex_client.cpp: the entry points for phone books.
use bluez_obex_native.Common.{ℕ, Bool}
use bluez_obex_native.Common.Strings.{bytes}
use bluez_obex_native.Sdbus.{Sdbus}
use bluez_obex_native.Bus.{Bus}
use bluez_obex_native.Calls.{lift, ◌>>=◌}
use bluez_obex_native.Types.Transfer.{transfer_result_meta}
use bluez_obex_native.Types.Device.{devices_meta}
use bluez_obex_native.Proxies.Phonebooks.{
  obex_phonebook_proxy, select, encoded_pull_all, encoded_pull, encoded_list, encoded_search,
  get_size, update_version, encoded_list_phonebook_fields, phonebook_encoded_properties,
}
use bluez_obex_native.Native.{
  Memory, Call, with_out, with_handle, given, with_client, call_bytes, call_status, call_number,
}
use bluez_obex_native.Native.Arguments.{CString, FilterArguments, make_variant_map}

module _ ⦃s : Sdbus⦄ ⦃bus : Bus⦄ where
  unfoldable pub bluez_obex_phonebook_select : ℕ → CString → CString → CString → Call
  unfolding select
  bluez_obex_phonebook_select handle phonebook_path_arg location_arg phonebook_arg =
      with_handle handle (
        given phonebook_path_arg (λ phonebook_path. given location_arg (λ location.
          given phonebook_arg (λ phonebook. with_client handle (
            call_status (bytes "bluez_obex_phonebook_select") (
              (do
                constructed ← obex_phonebook_proxy phonebook_path
                select phonebook_path location phonebook)))))))

  unfoldable pub bluez_obex_phonebook_get_size : ℕ → CString → Call
  unfolding get_size
  bluez_obex_phonebook_get_size handle phonebook_path_arg = with_handle handle (
      given phonebook_path_arg (λ phonebook_path. with_client handle (
        call_number (bytes "bluez_obex_phonebook_get_size")
          ((do constructed ← obex_phonebook_proxy phonebook_path; get_size phonebook_path)))))

  unfoldable pub bluez_obex_phonebook_update_version : ℕ → CString → Call
  unfolding update_version
  bluez_obex_phonebook_update_version handle phonebook_path_arg = with_handle handle (
      given phonebook_path_arg (λ phonebook_path. with_client handle (
        call_status (bytes "bluez_obex_phonebook_update_version")
          ((do constructed ← obex_phonebook_proxy phonebook_path; update_version phonebook_path)))))

  module _ ⦃memory : Memory⦄ where
    unfoldable pub bluez_obex_phonebook_get_properties : ℕ → CString → Bool → Call
    unfolding phonebook_encoded_properties
    bluez_obex_phonebook_get_properties handle phonebook_path_arg has_out = with_out has_out (
        with_handle handle (
          given phonebook_path_arg (λ phonebook_path. with_client handle (
            call_bytes (bytes "bluez_obex_phonebook_get_properties")
              ((do
                constructed ← obex_phonebook_proxy phonebook_path
                phonebook_encoded_properties phonebook_path))
              has_out))))

    unfoldable pub bluez_obex_phonebook_pull_all :
        ℕ → CString → CString → FilterArguments → Bool → Call
    unfolding encoded_pull_all
    bluez_obex_phonebook_pull_all handle phonebook_path_arg target_file_arg filters has_out =
        with_out has_out (
          with_handle handle (
            given phonebook_path_arg (λ phonebook_path. given target_file_arg (λ target_file.
              with_client handle (
                call_bytes (bytes "bluez_obex_phonebook_pull_all")
                  ((do
                    constructed ← obex_phonebook_proxy phonebook_path
                    filter ← lift (make_variant_map filters)
                    encoded_pull_all phonebook_path target_file filter))
                  has_out)))))

    unfoldable pub bluez_obex_phonebook_pull :
        ℕ → CString → CString → CString → FilterArguments → Bool → Call
    unfolding encoded_pull
    bluez_obex_phonebook_pull handle phonebook_path_arg vcard_arg target_file_arg filters has_out =
        with_out has_out (
          with_handle handle (
            given phonebook_path_arg (λ phonebook_path. given vcard_arg (λ vcard.
              given target_file_arg (λ target_file. with_client handle (
                call_bytes (bytes "bluez_obex_phonebook_pull")
                  ((do
                    constructed ← obex_phonebook_proxy phonebook_path
                    filter ← lift (make_variant_map filters)
                    encoded_pull phonebook_path vcard target_file filter))
                  has_out))))))

    unfoldable pub bluez_obex_phonebook_list : ℕ → CString → FilterArguments → Bool → Call
    unfolding encoded_list
    bluez_obex_phonebook_list handle phonebook_path_arg filters has_out = with_out has_out (
        with_handle handle (
          given phonebook_path_arg (λ phonebook_path. with_client handle (
            call_bytes (bytes "bluez_obex_phonebook_list")
              ((do
                constructed ← obex_phonebook_proxy phonebook_path
                filter ← lift (make_variant_map filters)
                encoded_list phonebook_path filter))
              has_out))))

    unfoldable pub bluez_obex_phonebook_search :
        ℕ → CString → CString → CString → FilterArguments → Bool → Call
    unfolding encoded_search
    bluez_obex_phonebook_search handle phonebook_path_arg field_arg value_arg filters has_out =
        with_out has_out (
          with_handle handle (
            given phonebook_path_arg (λ phonebook_path. given field_arg (λ field.
              given value_arg (λ value. with_client handle (
                call_bytes (bytes "bluez_obex_phonebook_search")
                  ((do
                    constructed ← obex_phonebook_proxy phonebook_path
                    filter ← lift (make_variant_map filters)
                    encoded_search phonebook_path field value filter))
                  has_out))))))

    unfoldable pub bluez_obex_phonebook_list_filter_fields : ℕ → CString → Bool → Call
    unfolding encoded_list_phonebook_fields
    bluez_obex_phonebook_list_filter_fields handle phonebook_path_arg has_out = with_out has_out (
        with_handle handle (
          given phonebook_path_arg (λ phonebook_path. with_client handle (
            call_bytes (bytes "bluez_obex_phonebook_list_filter_fields")
              ((do
                constructed ← obex_phonebook_proxy phonebook_path
                encoded_list_phonebook_fields phonebook_path))
              has_out))))
