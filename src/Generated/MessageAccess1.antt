-- ===== src/Generated/MessageAccess1.antt =====
-- native/generated/message_access1_proxy.h: the methods and properties of an object with the interface.
use bluez_obex_native.Common.{List, [], ◌∷◌}
use bluez_obex_native.Common.Strings.{Str, bytes}
use bluez_obex_native.OrderedMap.{OrderedMap}
use bluez_obex_native.Sdbus.{Sdbus, strings}
use bluez_obex_native.Bus.{
  PropertiesMap, Request, call_method, text, dictionary, Bus, nothing, one_transfer, names, items,
  objects,
}
use bluez_obex_native.Calls.{Task, call}
use bluez_obex_native.Generated.{read_property}

abbrev pub interface_name : Str
interface_name = bytes "org.bluez.obex.MessageAccess1"

module _ ⦃s : Sdbus⦄ where
  abbrev pub set_folder_request : Str → Str → Request
  set_folder_request object name =
      call_method object interface_name (bytes "SetFolder") (text name ∷ [])

  abbrev pub list_messages_request : Str → Str → PropertiesMap → Request
  list_messages_request object folder filter =
      call_method object interface_name (bytes "ListMessages")
        (text folder ∷ dictionary filter ∷ [])

module _ ⦃s : Sdbus⦄ ⦃bus : Bus⦄ where
  abbrev pub set_folder : Str → Str → Task (Unit {0})
  set_folder object name = call nothing (set_folder_request object name)

  abbrev pub list_folders : Str → PropertiesMap → Task (List PropertiesMap)
  list_folders object filter =
      call items (call_method object interface_name (bytes "ListFolders") (dictionary filter ∷ []))

  abbrev pub list_filter_fields : Str → Task (List Str)
  list_filter_fields object =
      call names (call_method object interface_name (bytes "ListFilterFields") [])

  abbrev pub list_messages : Str → Str → PropertiesMap → Task (OrderedMap PropertiesMap)
  list_messages object folder filter = call objects (list_messages_request object folder filter)

  abbrev pub update_inbox : Str → Task (Unit {0})
  update_inbox object = call nothing (call_method object interface_name (bytes "UpdateInbox") [])

  abbrev pub push_message : Str → Str → Str → PropertiesMap → Task (Str × PropertiesMap)
  push_message object sourcefile folder args = call one_transfer (
      call_method object interface_name (bytes "PushMessage")
        (text sourcefile ∷ text folder ∷ dictionary args ∷ []))

  abbrev pub supported_types : Str → Task (List Str)
  supported_types object = read_property strings object interface_name (bytes "SupportedTypes")
