-- ===== src/Native/Messages.antt =====
-- native/src/bluez_obex_client.cpp: the entry points for messages.
use bluez_obex_native.Common.{ℕ, Bool, true, not, eqb}
use bluez_obex_native.Common.Int.{ℤ, pos, negsuc}
use bluez_obex_native.Common.Strings.{bytes}
use bluez_obex_native.Wire.{encode}
use bluez_obex_native.Sdbus.{Sdbus}
use bluez_obex_native.Bus.{Bus}
use bluez_obex_native.Calls.{pure, lift, ◌>>=◌}
use bluez_obex_native.Types.Transfer.{transfer_result_meta}
use bluez_obex_native.Types.Device.{devices_meta}
use bluez_obex_native.Proxies.Messages.{
  obex_message_access_proxy, obex_message_proxy, set_folder, encoded_list_folders,
  encoded_list_filter_fields, encoded_list_messages, update_inbox, push_message,
  message_access_encoded_properties, encoded_get, set_read, set_deleted, message_encoded_properties,
}
use bluez_obex_native.Native.{
  Memory, Call, with_out, with_handle, given, with_client, call_bytes, call_status,
}
use bluez_obex_native.Native.Arguments.{CString, FilterArguments, make_variant_map}

-- `x != 0`.
abbrev pub is_nonzero : ℤ → Bool
is_nonzero (pos n) = not (eqb n 0)
is_nonzero (negsuc n) = true

module _ ⦃s : Sdbus⦄ ⦃bus : Bus⦄ where
  unfoldable pub bluez_obex_message_access_set_folder : ℕ → CString → CString → Call
  unfolding set_folder
  bluez_obex_message_access_set_folder handle message_access_path_arg folder_arg =
      with_handle handle (
        given message_access_path_arg (λ message_access_path. given folder_arg (λ folder.
          with_client handle (
            call_status (bytes "bluez_obex_message_access_set_folder") (
              (do
                constructed ← obex_message_access_proxy message_access_path
                set_folder message_access_path folder))))))

  unfoldable pub bluez_obex_message_access_update_inbox : ℕ → CString → Call
  unfolding update_inbox
  bluez_obex_message_access_update_inbox handle message_access_path_arg = with_handle handle (
      given message_access_path_arg (λ message_access_path. with_client handle (
        call_status (bytes "bluez_obex_message_access_update_inbox") (
          (do
            constructed ← obex_message_access_proxy message_access_path
            update_inbox message_access_path)))))

  unfoldable pub bluez_obex_message_set_read : ℕ → CString → ℤ → Call
  unfolding set_read
  bluez_obex_message_set_read handle message_path_arg read = with_handle handle (
      given message_path_arg (λ message_path. with_client handle (
        call_status (bytes "bluez_obex_message_set_read") (
          (do
            constructed ← obex_message_proxy message_path
            set_read message_path (is_nonzero read))))))

  unfoldable pub bluez_obex_message_set_deleted : ℕ → CString → ℤ → Call
  unfolding set_deleted
  bluez_obex_message_set_deleted handle message_path_arg deleted = with_handle handle (
      given message_path_arg (λ message_path. with_client handle (
        call_status (bytes "bluez_obex_message_set_deleted") (
          (do
            constructed ← obex_message_proxy message_path
            set_deleted message_path (is_nonzero deleted))))))

  module _ ⦃memory : Memory⦄ where
    unfoldable pub bluez_obex_message_access_get_properties : ℕ → CString → Bool → Call
    unfolding message_access_encoded_properties
    bluez_obex_message_access_get_properties handle message_access_path_arg has_out =
        with_out has_out (
          with_handle handle (
            given message_access_path_arg (λ message_access_path. with_client handle (
              call_bytes (bytes "bluez_obex_message_access_get_properties")
                ((do
                  constructed ← obex_message_access_proxy message_access_path
                  message_access_encoded_properties message_access_path))
                has_out))))

    unfoldable pub bluez_obex_message_access_list_folders :
        ℕ → CString → FilterArguments → Bool → Call
    unfolding encoded_list_folders
    bluez_obex_message_access_list_folders handle message_access_path_arg filters has_out =
        with_out has_out (
          with_handle handle (
            given message_access_path_arg (λ message_access_path. with_client handle (
              call_bytes (bytes "bluez_obex_message_access_list_folders")
                ((do
                  constructed ← obex_message_access_proxy message_access_path
                  filter ← lift (make_variant_map filters)
                  encoded_list_folders message_access_path filter))
                has_out))))

    unfoldable pub bluez_obex_message_access_list_filter_fields : ℕ → CString → Bool → Call
    unfolding encoded_list_filter_fields
    bluez_obex_message_access_list_filter_fields handle message_access_path_arg has_out =
        with_out has_out (
          with_handle handle (
            given message_access_path_arg (λ message_access_path. with_client handle (
              call_bytes (bytes "bluez_obex_message_access_list_filter_fields")
                ((do
                  constructed ← obex_message_access_proxy message_access_path
                  encoded_list_filter_fields message_access_path))
                has_out))))

    unfoldable pub bluez_obex_message_access_list_messages :
        ℕ → CString → CString → FilterArguments → Bool → Call
    unfolding encoded_list_messages
    bluez_obex_message_access_list_messages handle message_access_path_arg folder_arg filters
          has_out =
        with_out has_out (
          with_handle handle (
            given message_access_path_arg (λ message_access_path. given folder_arg (λ folder.
              with_client handle (
                call_bytes (bytes "bluez_obex_message_access_list_messages")
                  ((do
                    constructed ← obex_message_access_proxy message_access_path
                    filter ← lift (make_variant_map filters)
                    encoded_list_messages message_access_path folder filter))
                  has_out)))))

    unfoldable pub bluez_obex_message_access_push_message :
        ℕ → CString → CString → CString → FilterArguments → Bool → Call
    unfolding push_message
    bluez_obex_message_access_push_message handle message_access_path_arg source_file_arg folder_arg
          arguments has_out =
        with_out has_out (
          with_handle handle (
            given message_access_path_arg (λ message_access_path.
              given source_file_arg (λ source_file. given folder_arg (λ folder. with_client handle (
                call_bytes (bytes "bluez_obex_message_access_push_message")
                  ((do
                    constructed ← obex_message_access_proxy message_access_path
                    options ← lift (make_variant_map arguments)
                    pushed ← push_message message_access_path source_file folder options
                    pure (encode pushed)))
                  has_out))))))

    unfoldable pub bluez_obex_message_get_properties : ℕ → CString → Bool → Call
    unfolding message_encoded_properties
    bluez_obex_message_get_properties handle message_path_arg has_out = with_out has_out (
        with_handle handle (
          given message_path_arg (λ message_path. with_client handle (
            call_bytes (bytes "bluez_obex_message_get_properties")
              ((do
                constructed ← obex_message_proxy message_path
                message_encoded_properties message_path))
              has_out))))

    unfoldable pub bluez_obex_message_get : ℕ → CString → CString → ℤ → Bool → Call
    unfolding encoded_get
    bluez_obex_message_get handle message_path_arg target_file_arg attachment has_out =
        with_out has_out (
          with_handle handle (
            given message_path_arg (λ message_path. given target_file_arg (λ target_file.
              with_client handle (
                call_bytes (bytes "bluez_obex_message_get")
                  ((do
                    constructed ← obex_message_proxy message_path
                    encoded_get message_path target_file (is_nonzero attachment)))
                  has_out)))))
