-- ===== src/Proxies/Phonebooks.antt =====
-- native/src/obex_phonebook_proxy.cpp: the phone books of a phone.
use bluez_obex_native.Common.{ℕ, List, [], ◌∷◌}
use bluez_obex_native.Common.Strings.{Str}
use bluez_obex_native.Wire.{Buffer, encode}
use bluez_obex_native.Sdbus.{Sdbus}
use bluez_obex_native.Bus.{PropertiesMap, Bus}
use bluez_obex_native.Generated.PhonebookAccess1
use bluez_obex_native.Calls.{Task, pure, lift, ◌>>=◌}
use bluez_obex_native.Properties.{phonebook_props_from_map, transfer_result_from_dbus}
use bluez_obex_native.Types.Phonebook.{
  BluezObexPhonebookProps, BluezObexPhonebookEntry, BluezObexPhonebookEntries, phonebook_props_meta,
  phonebook_entries_meta,
}
use bluez_obex_native.Types.Message.{BluezObexFilterFields, filter_fields_meta}
use bluez_obex_native.Types.Transfer.{BluezObexTransferResult, transfer_result_meta}
use bluez_obex_native.ObjectManager.Interfaces.{phonebook_iface}
use bluez_obex_native.ObjectManager.State.{obex_service}
use bluez_obex_native.Proxies.Access.{construct, get_all_properties}

-- The loop of `to_entries`.
unfoldable pub each_entry : List (Str × Str) → List BluezObexPhonebookEntry
each_entry [] = []
each_entry ((vcard, name) ∷ items) = record { vcard = vcard; name = name } ∷ each_entry items

abbrev pub to_entries : List (Str × Str) → BluezObexPhonebookEntries
to_entries items = record { entries = each_entry items }

module _ ⦃s : Sdbus⦄ ⦃bus : Bus⦄ where
  abbrev pub obex_phonebook_proxy : Str → Task (Unit {0})
  obex_phonebook_proxy object_path = construct object_path

  unfoldable pub select : Str → Str → Str → Task (Unit {0})
  select object_path location phonebook = PhonebookAccess1.select object_path location phonebook

  unfoldable pub pull_all : Str → Str → PropertiesMap → Task BluezObexTransferResult
  pull_all object_path target_file filters = do
    (path, props) ← PhonebookAccess1.pull_all object_path target_file filters
    lift (transfer_result_from_dbus path props)

  unfoldable pub encoded_pull_all : Str → Str → PropertiesMap → Task Buffer
  unfolding pull_all
  encoded_pull_all object_path target_file filters = do
    pulled ← pull_all object_path target_file filters
    pure (encode pulled)

  unfoldable pub pull : Str → Str → Str → PropertiesMap → Task BluezObexTransferResult
  pull object_path vcard target_file filters = do
    (path, props) ← PhonebookAccess1.pull object_path vcard target_file filters
    lift (transfer_result_from_dbus path props)

  unfoldable pub encoded_pull : Str → Str → Str → PropertiesMap → Task Buffer
  unfolding pull
  encoded_pull object_path vcard target_file filters = do
    pulled ← pull object_path vcard target_file filters
    pure (encode pulled)

  unfoldable pub list : Str → PropertiesMap → Task BluezObexPhonebookEntries
  list object_path filters = do
    items ← PhonebookAccess1.list object_path filters
    pure (to_entries items)

  unfoldable pub encoded_list : Str → PropertiesMap → Task Buffer
  unfolding list
  encoded_list object_path filters = do entries ← list object_path filters; pure (encode entries)

  unfoldable pub search : Str → Str → Str → PropertiesMap → Task BluezObexPhonebookEntries
  search object_path field value filters = do
    items ← PhonebookAccess1.search object_path field value filters
    pure (to_entries items)

  unfoldable pub encoded_search : Str → Str → Str → PropertiesMap → Task Buffer
  unfolding search
  encoded_search object_path field value filters = do
    entries ← search object_path field value filters
    pure (encode entries)

  unfoldable pub get_size : Str → Task ℕ
  get_size object_path = PhonebookAccess1.get_size object_path

  unfoldable pub update_version : Str → Task (Unit {0})
  update_version object_path = PhonebookAccess1.update_version object_path

  unfoldable pub list_phonebook_fields : Str → Task BluezObexFilterFields
  list_phonebook_fields object_path = do
    found ← PhonebookAccess1.list_filter_fields object_path
    pure (record { fields = found })

  unfoldable pub encoded_list_phonebook_fields : Str → Task Buffer
  unfolding list_phonebook_fields
  encoded_list_phonebook_fields object_path = do
    found ← list_phonebook_fields object_path
    pure (encode found)

  unfoldable pub phonebook_properties : Str → Task BluezObexPhonebookProps
  unfolding get_all_properties
  phonebook_properties object_path = do
    properties ← get_all_properties obex_service object_path phonebook_iface
    pure (phonebook_props_from_map object_path properties)

  unfoldable pub phonebook_encoded_properties : Str → Task Buffer
  unfolding phonebook_properties
  phonebook_encoded_properties object_path = do
    phonebook ← phonebook_properties object_path
    pure (encode phonebook)
