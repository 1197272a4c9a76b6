-- ===== src/Native/Invocations.antt =====
-- native/src/bluez_obex_client.cpp: all calls with a result, and how each of them begins.
pub mod Passes
use bluez_obex_native.Common.{ℕ, ◌≡◌, refl, [], ◌∷◌, Bool, true, Option, none, some}
use bluez_obex_native.Common.Int.{ℤ}
use bluez_obex_native.Common.Strings.{Str, bytes}
use bluez_obex_native.Wire.{Buffer}
use bluez_obex_native.Sdbus.{Sdbus, dbus_error, throws}
use bluez_obex_native.Bus.{Bus, Request, error, nothing}
use bluez_obex_native.Calls.{Task, call, ◌>>=◌}
use bluez_obex_native.Registry.{BluezObexClientContext, client_for}
use bluez_obex_native.Native.{
  Memory, NativeState, Call, with_out, with_handle, given, with_client, call_bytes, call_status,
  call_number,
}
use bluez_obex_native.Native.Arguments.{CString, FilterArguments}
use bluez_obex_native.Native.Sessions.{
  bluez_obex_client_create_session, bluez_obex_client_remove_session,
  bluez_obex_session_get_properties, bluez_obex_session_get_capabilities,
  bluez_obex_transfer_get_properties, bluez_obex_transfer_cancel, bluez_obex_transfer_suspend,
  bluez_obex_transfer_resume, bluez_obex_get_managed_objects, bluez_obex_get_devices,
}
use bluez_obex_native.Native.Phonebooks.{
  bluez_obex_phonebook_get_properties, bluez_obex_phonebook_select, bluez_obex_phonebook_pull_all,
  bluez_obex_phonebook_pull, bluez_obex_phonebook_list, bluez_obex_phonebook_search,
  bluez_obex_phonebook_get_size, bluez_obex_phonebook_update_version,
  bluez_obex_phonebook_list_filter_fields,
}
use bluez_obex_native.Native.Messages.{
  bluez_obex_message_access_set_folder, bluez_obex_message_access_get_properties,
  bluez_obex_message_access_list_folders, bluez_obex_message_access_list_filter_fields,
  bluez_obex_message_access_list_messages, bluez_obex_message_access_update_inbox,
  bluez_obex_message_access_push_message, bluez_obex_message_get_properties, bluez_obex_message_get,
  bluez_obex_message_set_read, bluez_obex_message_set_deleted,
}

-- A call from Dart that returns a status, with its arguments.
pub data Invocation : Type 0 where
  client_create_session_call : ℕ → CString → CString → Bool → Invocation
  client_remove_session_call : ℕ → CString → Invocation
  session_get_properties_call : ℕ → CString → Bool → Invocation
  session_get_capabilities_call : ℕ → CString → Bool → Invocation
  transfer_get_properties_call : ℕ → CString → Bool → Invocation
  transfer_cancel_call : ℕ → CString → Invocation
  transfer_suspend_call : ℕ → CString → Invocation
  transfer_resume_call : ℕ → CString → Invocation
  get_managed_objects_call : ℕ → Bool → Invocation
  get_devices_call : Bool → Invocation
  phonebook_get_properties_call : ℕ → CString → Bool → Invocation
  phonebook_select_call : ℕ → CString → CString → CString → Invocation
  phonebook_pull_all_call : ℕ → CString → CString → FilterArguments → Bool → Invocation
  phonebook_pull_call : ℕ → CString → CString → CString → FilterArguments → Bool → Invocation
  phonebook_list_call : ℕ → CString → FilterArguments → Bool → Invocation
  phonebook_search_call : ℕ → CString → CString → CString → FilterArguments → Bool → Invocation
  phonebook_get_size_call : ℕ → CString → Invocation
  phonebook_update_version_call : ℕ → CString → Invocation
  phonebook_list_filter_fields_call : ℕ → CString → Bool → Invocation
  message_access_set_folder_call : ℕ → CString → CString → Invocation
  message_access_get_properties_call : ℕ → CString → Bool → Invocation
  message_access_list_folders_call : ℕ → CString → FilterArguments → Bool → Invocation
  message_access_list_filter_fields_call : ℕ → CString → Bool → Invocation
  message_access_list_messages_call : ℕ → CString → CString → FilterArguments → Bool → Invocation
  message_access_update_inbox_call : ℕ → CString → Invocation
  message_access_push_message_call :
      ℕ → CString → CString → CString → FilterArguments → Bool → Invocation
  message_get_properties_call : ℕ → CString → Bool → Invocation
  message_get_call : ℕ → CString → CString → ℤ → Bool → Invocation
  message_set_read_call : ℕ → CString → ℤ → Invocation
  message_set_deleted_call : ℕ → CString → ℤ → Invocation

-- The handle that a call is made on.
abbrev pub handle_of : Invocation → Option ℕ
handle_of (client_create_session_call handle destination target has_out) = some handle
handle_of (client_remove_session_call handle session_path) = some handle
handle_of (session_get_properties_call handle session_path has_out) = some handle
handle_of (session_get_capabilities_call handle session_path has_out) = some handle
handle_of (transfer_get_properties_call handle transfer_path has_out) = some handle
handle_of (transfer_cancel_call handle transfer_path) = some handle
handle_of (transfer_suspend_call handle transfer_path) = some handle
handle_of (transfer_resume_call handle transfer_path) = some handle
handle_of (get_managed_objects_call handle has_out) = some handle
handle_of (get_devices_call has_out) = none
handle_of (phonebook_get_properties_call handle phonebook_path has_out) = some handle
handle_of (phonebook_select_call handle phonebook_path location phonebook) = some handle
handle_of (phonebook_pull_all_call handle phonebook_path target_file filters has_out) = some handle
handle_of (phonebook_pull_call handle phonebook_path vcard target_file filters has_out) =
    some handle
handle_of (phonebook_list_call handle phonebook_path filters has_out) = some handle
handle_of (phonebook_search_call handle phonebook_path field value filters has_out) = some handle
handle_of (phonebook_get_size_call handle phonebook_path) = some handle
handle_of (phonebook_update_version_call handle phonebook_path) = some handle
handle_of (phonebook_list_filter_fields_call handle phonebook_path has_out) = some handle
handle_of (message_access_set_folder_call handle message_access_path folder) = some handle
handle_of (message_access_get_properties_call handle message_access_path has_out) = some handle
handle_of (message_access_list_folders_call handle message_access_path filters has_out) =
    some handle
handle_of (message_access_list_filter_fields_call handle message_access_path has_out) = some handle
handle_of (message_access_list_messages_call handle message_access_path folder filters has_out) =
    some handle
handle_of (message_access_update_inbox_call handle message_access_path) = some handle
handle_of
      (message_access_push_message_call handle message_access_path source_file folder arguments
        has_out) =
    some handle
handle_of (message_get_properties_call handle message_path has_out) = some handle
handle_of (message_get_call handle message_path target_file attachment has_out) = some handle
handle_of (message_set_read_call handle message_path read) = some handle
handle_of (message_set_deleted_call handle message_path deleted) = some handle

-- The name of the entry point, by which an error is recorded.
abbrev pub operation_of : Invocation → Str
operation_of (client_create_session_call _ _ _ _) = bytes "bluez_obex_client_create_session"
operation_of (client_remove_session_call _ _) = bytes "bluez_obex_client_remove_session"
operation_of (session_get_properties_call _ _ _) = bytes "bluez_obex_session_get_properties"
operation_of (session_get_capabilities_call _ _ _) = bytes "bluez_obex_session_get_capabilities"
operation_of (transfer_get_properties_call _ _ _) = bytes "bluez_obex_transfer_get_properties"
operation_of (transfer_cancel_call _ _) = bytes "bluez_obex_transfer_cancel"
operation_of (transfer_suspend_call _ _) = bytes "bluez_obex_transfer_suspend"
operation_of (transfer_resume_call _ _) = bytes "bluez_obex_transfer_resume"
operation_of (get_managed_objects_call _ _) = bytes "bluez_obex_get_managed_objects"
operation_of (get_devices_call _) = bytes "bluez_obex_get_devices"
operation_of (phonebook_get_properties_call _ _ _) = bytes "bluez_obex_phonebook_get_properties"
operation_of (phonebook_select_call _ _ _ _) = bytes "bluez_obex_phonebook_select"
operation_of (phonebook_pull_all_call _ _ _ _ _) = bytes "bluez_obex_phonebook_pull_all"
operation_of (phonebook_pull_call _ _ _ _ _ _) = bytes "bluez_obex_phonebook_pull"
operation_of (phonebook_list_call _ _ _ _) = bytes "bluez_obex_phonebook_list"
operation_of (phonebook_search_call _ _ _ _ _ _) = bytes "bluez_obex_phonebook_search"
operation_of (phonebook_get_size_call _ _) = bytes "bluez_obex_phonebook_get_size"
operation_of (phonebook_update_version_call _ _) = bytes "bluez_obex_phonebook_update_version"
operation_of (phonebook_list_filter_fields_call _ _ _) =
    bytes "bluez_obex_phonebook_list_filter_fields"
operation_of (message_access_set_folder_call _ _ _) = bytes "bluez_obex_message_access_set_folder"
operation_of (message_access_get_properties_call _ _ _) =
    bytes "bluez_obex_message_access_get_properties"
operation_of (message_access_list_folders_call _ _ _ _) =
    bytes "bluez_obex_message_access_list_folders"
operation_of (message_access_list_filter_fields_call _ _ _) =
    bytes "bluez_obex_message_access_list_filter_fields"
operation_of (message_access_list_messages_call _ _ _ _ _) =
    bytes "bluez_obex_message_access_list_messages"
operation_of (message_access_update_inbox_call _ _) = bytes "bluez_obex_message_access_update_inbox"
operation_of (message_access_push_message_call _ _ _ _ _ _) =
    bytes "bluez_obex_message_access_push_message"
operation_of (message_get_properties_call _ _ _) = bytes "bluez_obex_message_get_properties"
operation_of (message_get_call _ _ _ _ _) = bytes "bluez_obex_message_get"
operation_of (message_set_read_call _ _ _) = bytes "bluez_obex_message_set_read"
operation_of (message_set_deleted_call _ _ _) = bytes "bluez_obex_message_set_deleted"

module _ ⦃s : Sdbus⦄ where
  -- The handle, where there is one, is that of a client that has not failed.
  abbrev pub IsServed : Option ℕ → NativeState → Type 0
  IsServed none st = Unit
  IsServed (some handle) st = (c : BluezObexClientContext) × (client_for handle st.clients ≡ some c)

  module _ ⦃bus : Bus⦄ ⦃memory : Memory⦄ where
    unfoldable pub invoke : Invocation → Call
    invoke (client_create_session_call handle destination target has_out) =
        bluez_obex_client_create_session handle destination target has_out
    invoke (client_remove_session_call handle session_path) =
        bluez_obex_client_remove_session handle session_path
    invoke (session_get_properties_call handle session_path has_out) =
        bluez_obex_session_get_properties handle session_path has_out
    invoke (session_get_capabilities_call handle session_path has_out) =
        bluez_obex_session_get_capabilities handle session_path has_out
    invoke (transfer_get_properties_call handle transfer_path has_out) =
        bluez_obex_transfer_get_properties handle transfer_path has_out
    invoke (transfer_cancel_call handle transfer_path) =
        bluez_obex_transfer_cancel handle transfer_path
    invoke (transfer_suspend_call handle transfer_path) =
        bluez_obex_transfer_suspend handle transfer_path
    invoke (transfer_resume_call handle transfer_path) =
        bluez_obex_transfer_resume handle transfer_path
    invoke (get_managed_objects_call handle has_out) = bluez_obex_get_managed_objects handle has_out
    invoke (get_devices_call has_out) = bluez_obex_get_devices has_out
    invoke (phonebook_get_properties_call handle phonebook_path has_out) =
        bluez_obex_phonebook_get_properties handle phonebook_path has_out
    invoke (phonebook_select_call handle phonebook_path location phonebook) =
        bluez_obex_phonebook_select handle phonebook_path location phonebook
    invoke (phonebook_pull_all_call handle phonebook_path target_file filters has_out) =
        bluez_obex_phonebook_pull_all handle phonebook_path target_file filters has_out
    invoke (phonebook_pull_call handle phonebook_path vcard target_file filters has_out) =
        bluez_obex_phonebook_pull handle phonebook_path vcard target_file filters has_out
    invoke (phonebook_list_call handle phonebook_path filters has_out) =
        bluez_obex_phonebook_list handle phonebook_path filters has_out
    invoke (phonebook_search_call handle phonebook_path field value filters has_out) =
        bluez_obex_phonebook_search handle phonebook_path field value filters has_out
    invoke (phonebook_get_size_call handle phonebook_path) =
        bluez_obex_phonebook_get_size handle phonebook_path
    invoke (phonebook_update_version_call handle phonebook_path) =
        bluez_obex_phonebook_update_version handle phonebook_path
    invoke (phonebook_list_filter_fields_call handle phonebook_path has_out) =
        bluez_obex_phonebook_list_filter_fields handle phonebook_path has_out
    invoke (message_access_set_folder_call handle message_access_path folder) =
        bluez_obex_message_access_set_folder handle message_access_path folder
    invoke (message_access_get_properties_call handle message_access_path has_out) =
        bluez_obex_message_access_get_properties handle message_access_path has_out
    invoke (message_access_list_folders_call handle message_access_path filters has_out) =
        bluez_obex_message_access_list_folders handle message_access_path filters has_out
    invoke (message_access_list_filter_fields_call handle message_access_path has_out) =
        bluez_obex_message_access_list_filter_fields handle message_access_path has_out
    invoke (message_access_list_messages_call handle message_access_path folder filters has_out) =
        bluez_obex_message_access_list_messages handle message_access_path folder filters has_out
    invoke (message_access_update_inbox_call handle message_access_path) =
        bluez_obex_message_access_update_inbox handle message_access_path
    invoke
          (message_access_push_message_call handle message_access_path source_file folder arguments
            has_out) =
        bluez_obex_message_access_push_message handle message_access_path source_file folder
          arguments has_out
    invoke (message_get_properties_call handle message_path has_out) =
        bluez_obex_message_get_properties handle message_path has_out
    invoke (message_get_call handle message_path target_file attachment has_out) =
        bluez_obex_message_get handle message_path target_file attachment has_out
    invoke (message_set_read_call handle message_path read) =
        bluez_obex_message_set_read handle message_path read
    invoke (message_set_deleted_call handle message_path deleted) =
        bluez_obex_message_set_deleted handle message_path deleted

  module _ ⦃bus : Bus⦄ where
    -- The first request of a task; where it fails the task makes no other one and throws that.
    abbrev pub First : {A : Type 0} → Task A → Type 0
    First fn =
        (r : Request) × ((name message : Str)
          → bus.respond nothing [] r ≡ error name message
          → fn [] ≡ (throws (dbus_error name message), r ∷ []))
