-- ===== src/Native/Invocations/Passes.antt =====
-- Every call of the C interface goes through its guards to one of three ways to make it.
use bluez_obex_native.Common.{ℕ, ◌≡◌, refl, Bool, true, some}
use bluez_obex_native.Common.Strings.{Str}
use bluez_obex_native.Wire.{Buffer}
use bluez_obex_native.Sdbus.{Sdbus}
use bluez_obex_native.Bus.{Bus, Request, create_proxy, nothing}
use bluez_obex_native.Devices.{get_devices, bluez_service, bluez_root_path}
use bluez_obex_native.Types.Device.{devices_meta}
use bluez_obex_native.Wire.{encode}
use bluez_obex_native.Calls.{Task, pure, call, ◌>>=◌}
use bluez_obex_native.Native.{
  Memory, NativeState, Call, with_out, with_handle, given, with_client, call_bytes, call_status,
  call_number,
}
use bluez_obex_native.Native.Arguments.{CString}
use bluez_obex_native.Native.Sessions.{
  bluez_obex_client_create_session, bluez_obex_client_remove_session,
  bluez_obex_session_get_properties, bluez_obex_session_get_capabilities,
  bluez_obex_transfer_get_properties, bluez_obex_transfer_cancel, bluez_obex_transfer_suspend,
  bluez_obex_transfer_resume, bluez_obex_get_managed_objects, bluez_obex_get_devices,
}
use bluez_obex_native.Native.Phonebooks.{
  bluez_obex_phonebook_get_properties, bluez_obex_phonebook_select, bluez_obex_phonebook_pull_all,
  bluez_obex_phonebook_pull, bluez_obex_phonebook_list, bluez_obex_phonebook_search,
  bluez_obex_phonebook_get_size, bluez_obex_phonebook_update_version,
  bluez_obex_phonebook_list_filter_fields,
}
use bluez_obex_native.Native.Messages.{
  bluez_obex_message_access_set_folder, bluez_obex_message_access_get_properties,
  bluez_obex_message_access_list_folders, bluez_obex_message_access_list_filter_fields,
  bluez_obex_message_access_list_messages, bluez_obex_message_access_update_inbox,
  bluez_obex_message_access_push_message, bluez_obex_message_get_properties, bluez_obex_message_get,
  bluez_obex_message_set_read, bluez_obex_message_set_deleted,
}
use bluez_obex_native.Native.Invocations.{
  Invocation, handle_of, operation_of, First, IsServed, invoke, client_create_session_call,
  client_remove_session_call, session_get_properties_call, session_get_capabilities_call,
  transfer_get_properties_call, transfer_cancel_call, transfer_suspend_call, transfer_resume_call,
  get_managed_objects_call, get_devices_call, phonebook_get_properties_call, phonebook_select_call,
  phonebook_pull_all_call, phonebook_pull_call, phonebook_list_call, phonebook_search_call,
  phonebook_get_size_call, phonebook_update_version_call, phonebook_list_filter_fields_call,
  message_access_set_folder_call, message_access_get_properties_call,
  message_access_list_folders_call, message_access_list_filter_fields_call,
  message_access_list_messages_call, message_access_update_inbox_call,
  message_access_push_message_call, message_get_properties_call, message_get_call,
  message_set_read_call, message_set_deleted_call,
}

module _ ⦃s : Sdbus⦄ where
  first :
      ⦃bus : Bus⦄ {A : Type 0} (r : Request) (f : Unit {0} → Task A) → First (call nothing r >>= f)
  first r f = (r, λ name message e. rw e refl)

  devices-First : ⦃bus : Bus⦄ → First ((do found ← get_devices; pure (encode found)))
  unfolding get_devices
  devices-First = (create_proxy bluez_service bluez_root_path, λ name message e. rw e refl)

  module _ (Q : Call → Type 0) (st : NativeState)
      (out : (has_out : Bool) (c : Call) → (has_out ≡ true → Q c) → Q (with_out has_out c))
      (handle_ok : (handle : ℕ) (c : Call) → Q c → Q (with_handle handle c))
      (text : (arg : CString) (f : Str → Call) → ((x : Str) → Q (f x)) → Q (given arg f))
      (client : (handle : ℕ) (c : Call)
        → (IsServed (some handle) st → Q c)
        → Q (with_client handle c)) where
    module _ ⦃bus : Bus⦄ ⦃memory : Memory⦄ where
      pub passes :
          (i : Invocation)
          → (IsServed (handle_of i) st
              → (label : Str) (fn : Task Buffer) (has_out : Bool) → label ≡ operation_of i
              → First fn
              → has_out ≡ true
              → Q (call_bytes label fn has_out))
          → (IsServed (handle_of i) st
              → (label : Str) (fn : Task (Unit {0})) → label ≡ operation_of i
              → First fn
              → Q (call_status label fn))
          → (IsServed (handle_of i) st
              → (label : Str) (fn : Task ℕ) → label ≡ operation_of i
              → First fn
              → Q (call_number label fn))
          → Q (invoke i)
      unfolding invoke bluez_obex_client_create_session bluez_obex_client_remove_session
          bluez_obex_session_get_properties bluez_obex_session_get_capabilities
          bluez_obex_transfer_get_properties bluez_obex_transfer_cancel bluez_obex_transfer_suspend
          bluez_obex_transfer_resume bluez_obex_get_managed_objects bluez_obex_get_devices
          bluez_obex_phonebook_get_properties bluez_obex_phonebook_select
          bluez_obex_phonebook_pull_all bluez_obex_phonebook_pull bluez_obex_phonebook_list
          bluez_obex_phonebook_search bluez_obex_phonebook_get_size
          bluez_obex_phonebook_update_version bluez_obex_phonebook_list_filter_fields
          bluez_obex_message_access_set_folder bluez_obex_message_access_get_properties
          bluez_obex_message_access_list_folders bluez_obex_message_access_list_filter_fields
          bluez_obex_message_access_list_messages bluez_obex_message_access_update_inbox
          bluez_obex_message_access_push_message bluez_obex_message_get_properties
          bluez_obex_message_get bluez_obex_message_set_read bluez_obex_message_set_deleted
      passes (client_create_session_call handle destination target has_out) b t n =
          out has_out _ (λ e. handle_ok handle _ (
            text destination _
              (λ destination_text. client handle _ (λ c. b c _ _ has_out refl (first _ _) e))))
      passes (client_remove_session_call handle session_path) b t n = handle_ok handle _ (
          text session_path _
            (λ session_path_text. client handle _ (λ c. t c _ _ refl (first _ _))))
      passes (session_get_properties_call handle session_path has_out) b t n = out has_out _ (λ e.
          handle_ok handle _ (
            text session_path _
              (λ session_path_text. client handle _ (λ c. b c _ _ has_out refl (first _ _) e))))
      passes (session_get_capabilities_call handle session_path has_out) b t n = out has_out _ (λ e.
          handle_ok handle _ (
            text session_path _
              (λ session_path_text. client handle _ (λ c. b c _ _ has_out refl (first _ _) e))))
      passes (transfer_get_properties_call handle transfer_path has_out) b t n = out has_out _ (λ e.
          handle_ok handle _ (
            text transfer_path _
              (λ transfer_path_text. client handle _ (λ c. b c _ _ has_out refl (first _ _) e))))
      passes (transfer_cancel_call handle transfer_path) b t n = handle_ok handle _ (
          text transfer_path _
            (λ transfer_path_text. client handle _ (λ c. t c _ _ refl (first _ _))))
      passes (transfer_suspend_call handle transfer_path) b t n = handle_ok handle _ (
          text transfer_path _
            (λ transfer_path_text. client handle _ (λ c. t c _ _ refl (first _ _))))
      passes (transfer_resume_call handle transfer_path) b t n = handle_ok handle _ (
          text transfer_path _
            (λ transfer_path_text. client handle _ (λ c. t c _ _ refl (first _ _))))
      passes (get_managed_objects_call handle has_out) b t n =
          out has_out _
            (λ e. handle_ok handle _ (client handle _ (λ c. b c _ _ has_out refl (first _ _) e)))
      passes (get_devices_call has_out) b t n =
          out has_out _ (λ e. b tt _ _ has_out refl devices-First e)
      passes (phonebook_get_properties_call handle phonebook_path has_out) b t n =
          out has_out _ (λ e. handle_ok handle _ (
            text phonebook_path _
              (λ phonebook_path_text. client handle _ (λ c. b c _ _ has_out refl (first _ _) e))))
      passes (phonebook_select_call handle phonebook_path location phonebook) b t n =
          handle_ok handle _ (
            text phonebook_path _ (λ phonebook_path_text. text location _ (λ location_text.
              text phonebook _
                (λ phonebook_text. client handle _ (λ c. t c _ _ refl (first _ _))))))
      passes (phonebook_pull_all_call handle phonebook_path target_file filters has_out) b t n =
          out has_out _ (λ e. handle_ok handle _ (
            text phonebook_path _ (λ phonebook_path_text.
              text target_file _
                (λ target_file_text. client handle _ (λ c. b c _ _ has_out refl (first _ _) e)))))
      passes (phonebook_pull_call handle phonebook_path vcard target_file filters has_out) b t n =
          out has_out _ (λ e. handle_ok handle _ (
            text phonebook_path _ (λ phonebook_path_text. text vcard _ (λ vcard_text.
              text target_file _
                (λ target_file_text. client handle _ (λ c. b c _ _ has_out refl (first _ _) e))))))
      passes (phonebook_list_call handle phonebook_path filters has_out) b t n = out has_out _ (λ e.
          handle_ok handle _ (
            text phonebook_path _
              (λ phonebook_path_text. client handle _ (λ c. b c _ _ has_out refl (first _ _) e))))
      passes (phonebook_search_call handle phonebook_path field value filters has_out) b t n =
          out has_out _ (λ e. handle_ok handle _ (
            text phonebook_path _ (λ phonebook_path_text. text field _ (λ field_text.
              text value _
                (λ value_text. client handle _ (λ c. b c _ _ has_out refl (first _ _) e))))))
      passes (phonebook_get_size_call handle phonebook_path) b t n = handle_ok handle _ (
          text phonebook_path _
            (λ phonebook_path_text. client handle _ (λ c. n c _ _ refl (first _ _))))
      passes (phonebook_update_version_call handle phonebook_path) b t n = handle_ok handle _ (
          text phonebook_path _
            (λ phonebook_path_text. client handle _ (λ c. t c _ _ refl (first _ _))))
      passes (phonebook_list_filter_fields_call handle phonebook_path has_out) b t n =
          out has_out _ (λ e. handle_ok handle _ (
            text phonebook_path _
              (λ phonebook_path_text. client handle _ (λ c. b c _ _ has_out refl (first _ _) e))))
      passes (message_access_set_folder_call handle message_access_path folder) b t n =
          handle_ok handle _ (
            text message_access_path _ (λ message_access_path_text.
              text folder _ (λ folder_text. client handle _ (λ c. t c _ _ refl (first _ _)))))
      passes (message_access_get_properties_call handle message_access_path has_out) b t n =
          out has_out _ (λ e. handle_ok handle _ (
            text message_access_path _ (λ message_access_path_text.
              client handle _ (λ c. b c _ _ has_out refl (first _ _) e))))
      passes (message_access_list_folders_call handle message_access_path filters has_out) b t n =
          out has_out _ (λ e. handle_ok handle _ (
            text message_access_path _ (λ message_access_path_text.
              client handle _ (λ c. b c _ _ has_out refl (first _ _) e))))
      passes (message_access_list_filter_fields_call handle message_access_path has_out) b t n =
          out has_out _ (λ e. handle_ok handle _ (
            text message_access_path _ (λ message_access_path_text.
              client handle _ (λ c. b c _ _ has_out refl (first _ _) e))))
      passes (message_access_list_messages_call handle message_access_path folder filters has_out) b
            t n =
          out has_out _ (λ e. handle_ok handle _ (
            text message_access_path _ (λ message_access_path_text.
              text folder _
                (λ folder_text. client handle _ (λ c. b c _ _ has_out refl (first _ _) e)))))
      passes (message_access_update_inbox_call handle message_access_path) b t n =
          handle_ok handle _ (
            text message_access_path _
              (λ message_access_path_text. client handle _ (λ c. t c _ _ refl (first _ _))))
      passes
            (message_access_push_message_call handle message_access_path source_file folder
              arguments has_out)
            b t n =
          out has_out _ (λ e. handle_ok handle _ (
            text message_access_path _ (λ message_access_path_text.
              text source_file _ (λ source_file_text.
                text folder _
                  (λ folder_text. client handle _ (λ c. b c _ _ has_out refl (first _ _) e))))))
      passes (message_get_properties_call handle message_path has_out) b t n = out has_out _ (λ e.
          handle_ok handle _ (
            text message_path _
              (λ message_path_text. client handle _ (λ c. b c _ _ has_out refl (first _ _) e))))
      passes (message_get_call handle message_path target_file attachment has_out) b t n =
          out has_out _ (λ e. handle_ok handle _ (
            text message_path _ (λ message_path_text.
              text target_file _
                (λ target_file_text. client handle _ (λ c. b c _ _ has_out refl (first _ _) e)))))
      passes (message_set_read_call handle message_path read) b t n = handle_ok handle _ (
          text message_path _
            (λ message_path_text. client handle _ (λ c. t c _ _ refl (first _ _))))
      passes (message_set_deleted_call handle message_path deleted) b t n = handle_ok handle _ (
          text message_path _
            (λ message_path_text. client handle _ (λ c. t c _ _ refl (first _ _))))
