-- ===== src/Proxies/Messages.antt =====
-- native/src/obex_message_proxy.cpp: the folders and messages of a phone (`ObexMessageAccessProxy`)
-- and one message (`ObexMessageProxy`).
use bluez_obex_native.Common.{Bool, none, some, List, [], ◌∷◌, is_empty, if◌then◌else◌}
use bluez_obex_native.Common.Strings.{Str, bytes}
use bluez_obex_native.OrderedMap.{OrderedMap}
use bluez_obex_native.Wire.{Buffer, encode}
use bluez_obex_native.Sdbus.{Sdbus, string}
use bluez_obex_native.Bus.{PropertiesMap, Bus}
use bluez_obex_native.Generated.MessageAccess1
use bluez_obex_native.Generated.Message1
use bluez_obex_native.Calls.{Task, pure, lift, ◌>>=◌}
use bluez_obex_native.Properties.{
  get_property_value, message_props_from_map, message_access_props_from_map,
  transfer_result_from_dbus,
}
use bluez_obex_native.Types.Message.{
  BluezObexMessageProps, BluezObexMessages, BluezObexMessageFolder, BluezObexMessageFolders,
  BluezObexMessageAccessProps, BluezObexFilterFields, message_props_meta, messages_meta,
  message_folders_meta, message_access_props_meta, filter_fields_meta,
}
use bluez_obex_native.Types.Transfer.{BluezObexTransferResult, transfer_result_meta}
use bluez_obex_native.ObjectManager.Interfaces.{message_access_iface, message_iface}
use bluez_obex_native.ObjectManager.State.{obex_service}
use bluez_obex_native.Proxies.Access.{construct, get_all_properties}
use bluez_obex_native.Proxies.Folders.{slash, normalized, rfind, parent_of, child_of}

module _ ⦃s : Sdbus⦄ where
  -- The loops of `to_folders` and `to_messages`.
  unfoldable pub each_folder : List PropertiesMap → List BluezObexMessageFolder
  each_folder [] = []
  each_folder (item ∷ rest) =
      record { name = get_property_value string item (bytes "Name") [] } ∷ each_folder rest

  abbrev pub to_folders : List PropertiesMap → BluezObexMessageFolders
  to_folders found = record { folders = each_folder found }

  unfoldable pub each_message : OrderedMap PropertiesMap → List BluezObexMessageProps
  each_message [] = []
  each_message ((path, props) ∷ rest) = message_props_from_map path props ∷ each_message rest

  abbrev pub to_messages : OrderedMap PropertiesMap → BluezObexMessages
  to_messages found = record { messages = each_message found }

  module _ ⦃bus : Bus⦄ where
    abbrev pub obex_message_access_proxy : Str → Task (Unit {0})
    obex_message_access_proxy object_path = construct object_path

    abbrev pub obex_message_proxy : Str → Task (Unit {0})
    obex_message_proxy object_path = construct object_path

    unfoldable pub set_folder : Str → Str → Task (Unit {0})
    set_folder object_path name = MessageAccess1.set_folder object_path name

    unfoldable pub list_folders : Str → PropertiesMap → Task BluezObexMessageFolders
    list_folders object_path filter = do
      found ← MessageAccess1.list_folders object_path filter
      pure (to_folders found)

    unfoldable pub encoded_list_folders : Str → PropertiesMap → Task Buffer
    unfolding list_folders
    encoded_list_folders object_path filter = do
      found ← list_folders object_path filter
      pure (encode found)

    unfoldable pub list_filter_fields : Str → Task BluezObexFilterFields
    list_filter_fields object_path = do
      found ← MessageAccess1.list_filter_fields object_path
      pure (record { fields = found })

    unfoldable pub encoded_list_filter_fields : Str → Task Buffer
    unfolding list_filter_fields
    encoded_list_filter_fields object_path = do
      found ← list_filter_fields object_path
      pure (encode found)

    -- `to_messages(message_access.ListMessages(…))`.
    abbrev pub list_in_folder : Str → Str → PropertiesMap → Task BluezObexMessages
    list_in_folder object_path folder filter = do
      found ← MessageAccess1.list_messages object_path folder filter
      pure (to_messages found)

    -- The folder before the last separator is entered, unless it is empty.
    unfoldable pub enter_parent : Str → Str → Task (Unit {0})
    unfolding set_folder
    enter_parent object_path parent =
        if is_empty parent then pure tt else set_folder object_path (slash ∷ parent)

    unfoldable pub list_messages : Str → Str → PropertiesMap → Task BluezObexMessages
    unfolding enter_parent
    list_messages object_path folder filter = elim (rfind slash (normalized folder)) [
      | none ↦ list_in_folder object_path (normalized folder) filter
      | some separator ↦
          enter_parent object_path (parent_of (normalized folder) separator) >>= (λ entered.
            list_in_folder object_path (child_of (normalized folder) separator) filter)
    ]

    unfoldable pub encoded_list_messages : Str → Str → PropertiesMap → Task Buffer
    unfolding list_messages
    encoded_list_messages object_path folder filter = do
      found ← list_messages object_path folder filter
      pure (encode found)

    unfoldable pub update_inbox : Str → Task (Unit {0})
    update_inbox object_path = MessageAccess1.update_inbox object_path

    unfoldable pub push_message : Str → Str → Str → PropertiesMap → Task BluezObexTransferResult
    push_message object_path source_file folder args = do
      (path, props) ← MessageAccess1.push_message object_path source_file folder args
      lift (transfer_result_from_dbus path props)

    unfoldable pub message_access_properties : Str → Task BluezObexMessageAccessProps
    unfolding get_all_properties
    message_access_properties object_path = do
      properties ← get_all_properties obex_service object_path message_access_iface
      pure (message_access_props_from_map object_path properties)

    unfoldable pub message_access_encoded_properties : Str → Task Buffer
    unfolding message_access_properties
    message_access_encoded_properties object_path = do
      access ← message_access_properties object_path
      pure (encode access)

    -- `ObexMessageProxy`.
    unfoldable pub get_message : Str → Str → Bool → Task BluezObexTransferResult
    get_message object_path target_file attachment = do
      (path, props) ← Message1.get object_path target_file attachment
      lift (transfer_result_from_dbus path props)

    unfoldable pub encoded_get : Str → Str → Bool → Task Buffer
    unfolding get_message
    encoded_get object_path target_file attachment = do
      got ← get_message object_path target_file attachment
      pure (encode got)

    unfoldable pub set_read : Str → Bool → Task (Unit {0})
    set_read object_path read = Message1.set_read object_path read

    unfoldable pub set_deleted : Str → Bool → Task (Unit {0})
    set_deleted object_path deleted = Message1.set_deleted object_path deleted

    unfoldable pub message_properties : Str → Task BluezObexMessageProps
    unfolding get_all_properties
    message_properties object_path = do
      properties ← get_all_properties obex_service object_path message_iface
      pure (message_props_from_map object_path properties)

    unfoldable pub message_encoded_properties : Str → Task Buffer
    unfolding message_properties
    message_encoded_properties object_path = do
      message ← message_properties object_path
      pure (encode message)
