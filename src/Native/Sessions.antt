-- ===== src/Native/Sessions.antt =====
-- native/src/bluez_obex_client.cpp: the entry points for sessions, transfers, objects and devices.
use bluez_obex_native.Common.{ℕ, Bool, not, [], is_empty, if◌then◌else◌}
use bluez_obex_native.Common.Strings.{Str, bytes}
use bluez_obex_native.OrderedMap
use bluez_obex_native.Wire.{encode}
use bluez_obex_native.Sdbus.{Sdbus, string}
use bluez_obex_native.Bus.{PropertiesMap, Bus}
use bluez_obex_native.Calls.{pure, ◌>>=◌}
use bluez_obex_native.Types.Transfer.{transfer_result_meta}
use bluez_obex_native.Types.Device.{devices_meta}
use bluez_obex_native.Proxies.Access.{
  obex_session_manager, obex_session_proxy, obex_transfer_proxy, encoded_create_session,
  remove_session, session_encoded_properties, session_get_capabilities, transfer_encoded_properties,
  transfer_cancel, transfer_suspend, transfer_resume,
}
use bluez_obex_native.Devices.{get_devices}
use bluez_obex_native.Clients.{get_managed_objects}
use bluez_obex_native.Native.{
  Memory, Call, with_out, with_handle, given, with_client, call_bytes, call_status,
}
use bluez_obex_native.Native.Arguments.{CString, cstr_or_empty}

module _ ⦃s : Sdbus⦄ where
  open s use {make}

  -- The arguments of `CreateSession`.
  abbrev pub session_arguments : Str → PropertiesMap
  session_arguments target =
      if not (is_empty target)
      then OrderedMap.insert (bytes "Target") (make string target) []
      else []

module _ ⦃s : Sdbus⦄ ⦃bus : Bus⦄ where
  unfoldable pub bluez_obex_client_remove_session : ℕ → CString → Call
  unfolding remove_session
  bluez_obex_client_remove_session handle session_path_arg = with_handle handle (
      given session_path_arg (λ session_path. with_client handle (
        call_status (bytes "bluez_obex_client_remove_session")
          ((do constructed ← obex_session_manager; remove_session session_path)))))

  unfoldable pub bluez_obex_transfer_cancel : ℕ → CString → Call
  unfolding transfer_cancel
  bluez_obex_transfer_cancel handle transfer_path_arg = with_handle handle (
      given transfer_path_arg (λ transfer_path. with_client handle (
        call_status (bytes "bluez_obex_transfer_cancel")
          ((do constructed ← obex_transfer_proxy transfer_path; transfer_cancel transfer_path)))))

  unfoldable pub bluez_obex_transfer_suspend : ℕ → CString → Call
  unfolding transfer_suspend
  bluez_obex_transfer_suspend handle transfer_path_arg = with_handle handle (
      given transfer_path_arg (λ transfer_path. with_client handle (
        call_status (bytes "bluez_obex_transfer_suspend")
          ((do constructed ← obex_transfer_proxy transfer_path; transfer_suspend transfer_path)))))

  unfoldable pub bluez_obex_transfer_resume : ℕ → CString → Call
  unfolding transfer_resume
  bluez_obex_transfer_resume handle transfer_path_arg = with_handle handle (
      given transfer_path_arg (λ transfer_path. with_client handle (
        call_status (bytes "bluez_obex_transfer_resume")
          ((do constructed ← obex_transfer_proxy transfer_path; transfer_resume transfer_path)))))

  module _ ⦃memory : Memory⦄ where
    unfoldable pub bluez_obex_client_create_session : ℕ → CString → CString → Bool → Call
    unfolding encoded_create_session
    bluez_obex_client_create_session handle destination_arg target has_out = with_out has_out (
        with_handle handle (
          given destination_arg (λ destination. with_client handle (
            call_bytes (bytes "bluez_obex_client_create_session")
              ((do
                constructed ← obex_session_manager
                encoded_create_session destination (session_arguments (cstr_or_empty target))))
              has_out))))

    unfoldable pub bluez_obex_session_get_properties : ℕ → CString → Bool → Call
    unfolding session_encoded_properties
    bluez_obex_session_get_properties handle session_path_arg has_out = with_out has_out (
        with_handle handle (
          given session_path_arg (λ session_path. with_client handle (
            call_bytes (bytes "bluez_obex_session_get_properties")
              ((do
                constructed ← obex_session_proxy session_path
                session_encoded_properties session_path))
              has_out))))

    unfoldable pub bluez_obex_session_get_capabilities : ℕ → CString → Bool → Call
    unfolding session_get_capabilities
    bluez_obex_session_get_capabilities handle session_path_arg has_out = with_out has_out (
        with_handle handle (
          given session_path_arg (λ session_path. with_client handle (
            call_bytes (bytes "bluez_obex_session_get_capabilities")
              ((do
                constructed ← obex_session_proxy session_path
                session_get_capabilities session_path))
              has_out))))

    unfoldable pub bluez_obex_transfer_get_properties : ℕ → CString → Bool → Call
    unfolding transfer_encoded_properties
    bluez_obex_transfer_get_properties handle transfer_path_arg has_out = with_out has_out (
        with_handle handle (
          given transfer_path_arg (λ transfer_path. with_client handle (
            call_bytes (bytes "bluez_obex_transfer_get_properties")
              ((do
                constructed ← obex_transfer_proxy transfer_path
                transfer_encoded_properties transfer_path))
              has_out))))

    unfoldable pub bluez_obex_get_managed_objects : ℕ → Bool → Call
    unfolding get_managed_objects
    bluez_obex_get_managed_objects handle has_out = with_out has_out (
        with_handle handle (
          with_client handle
            (call_bytes (bytes "bluez_obex_get_managed_objects") (get_managed_objects) has_out)))

    -- The services are here those of the system bus.
    unfoldable pub bluez_obex_get_devices : Bool → Call
    unfolding get_devices
    bluez_obex_get_devices has_out = with_out has_out (
        call_bytes (bytes "bluez_obex_get_devices") ((do found ← get_devices; pure (encode found)))
          has_out)
