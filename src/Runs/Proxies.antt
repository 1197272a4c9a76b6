-- ===== src/Runs/Proxies.antt =====
-- Runs of the proxies, the device registry and the client.
use bluez_obex_native.Common.{◌≡◌, refl, some, [], ◌∷◌, ◌++◌, arith, All}
use bluez_obex_native.Common.Strings.{Str, bytes}
use bluez_obex_native.OrderedMap.{OrderedMap}
use bluez_obex_native.Sdbus.{ok, string}
use bluez_obex_native.Bus.{InterfacesMap, nothing}
use bluez_obex_native.Types.Session.{BluezObexSessionProps}
use bluez_obex_native.Types.Objects.{managed_objects_meta}
use bluez_obex_native.ObjectManager.Interfaces.{session_iface, transfer_iface}
use bluez_obex_native.Devices.{device_iface, push_devices, push_devices-IsShown, IsShown}
use bluez_obex_native.Clients.{push_objects, with_paths, push_objects-paths_with}
use bluez_obex_native.Proxies.Folders.{
  slash, normalized, strip_front, strip_back, rfind, parent_of, child_of, IsStripped, IsCut,
  normalized-IsStripped, rfind-IsCut,
}
use bluez_obex_native.Proxies.Access.{create_session}
use bluez_obex_native.Proxies.Messages.{list_messages}
use bluez_obex_native.Generated.MessageAccess1.{set_folder_request, list_messages_request}
use bluez_obex_native.Proxies.Requests.{
  create_session-created, after_set_folder, list_messages-requests,
}
use bluez_obex_native.Samples.Variants.{sample, sample_sdbus}
use bluez_obex_native.Samples.Services.{
  sample_bus, session_path, transfer_path, session_properties, queued,
}

abbrev inbox : Str
inbox = bytes "//telecom/msg/inbox/"

normalized-inbox : normalized inbox ≡ bytes "telecom/msg" ++ slash ∷ bytes "inbox"
unfolding normalized strip_front strip_back bytes
normalized-inbox = refl

last_separator : rfind slash (normalized inbox) ≡ some 11
unfolding rfind normalized strip_front strip_back bytes
last_separator = refl

normalized-IsStripped_example : IsStripped inbox (normalized inbox)
normalized-IsStripped_example = normalized-IsStripped inbox

rfind-IsCut_example :
    IsCut (normalized inbox) (parent_of (normalized inbox) 11) (child_of (normalized inbox) 11)
rfind-IsCut_example = rfind-IsCut inbox 11 last_separator

list_messages-requests_example :
    (list_messages session_path inbox [] []).1
    ≡ ([] ++ set_folder_request session_path (slash ∷ bytes "telecom/msg") ∷ [])
      ++ after_set_folder (list_messages_request session_path (bytes "inbox") []) (
          sample_bus.respond nothing []
            (set_folder_request session_path (slash ∷ bytes "telecom/msg")))
unfolding bytes
list_messages-requests_example =
    list_messages-requests session_path inbox (bytes "telecom/msg") (bytes "inbox") [] []
      normalized-inbox (λ e. cc)
      (omega arith, (omega arith, (omega arith, (omega arith, (omega arith, tt)))))

create_session-created_example :
    (session : BluezObexSessionProps) × ((create_session (bytes "00:11:22:33:44:55") [] []).0
      ≡ ok session)
    × (session.object_path ≡ session_path)
create_session-created_example =
    create_session-created (bytes "00:11:22:33:44:55") [] [] session_path refl

abbrev two_objects : OrderedMap InterfacesMap
two_objects =
    (session_path, (session_iface, session_properties) ∷ [])
    ∷ (transfer_path, (transfer_iface, queued) ∷ [])
    ∷ []

push_objects-paths_with_example :
    push_objects two_objects managed_objects_meta.initial
    ≡ with_paths two_objects managed_objects_meta.initial
push_objects-paths_with_example = push_objects-paths_with two_objects managed_objects_meta.initial

abbrev phone : OrderedMap InterfacesMap
phone =
    (
      bytes "/org/bluez/hci0/dev_1",
      (device_iface, (bytes "Address", sample string (bytes "00:11:22:33:44:55")) ∷ []) ∷ [],
    )
    ∷ []

push_devices-IsShown_example : All IsShown (push_devices phone [])
push_devices-IsShown_example = push_devices-IsShown phone [] tt
