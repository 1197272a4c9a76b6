-- ===== src/Generated/PhonebookAccess1.antt =====
-- native/generated/phonebook_access1_proxy.h: the methods and properties of an object with the interface.
use bluez_obex_native.Common.{ℕ, Bool, List, [], ◌∷◌}
use bluez_obex_native.Common.Strings.{Str, bytes}
use bluez_obex_native.Sdbus.{Sdbus, string, boolean}
use bluez_obex_native.Bus.{
  PropertiesMap, call_method, text, dictionary, Bus, nothing, one_transfer, pairs, names, number,
}
use bluez_obex_native.Calls.{Task, call}
use bluez_obex_native.Generated.{read_property}

abbrev pub interface_name : Str
interface_name = bytes "org.bluez.obex.PhonebookAccess1"

module _ ⦃s : Sdbus⦄ ⦃bus : Bus⦄ where
  abbrev pub select : Str → Str → Str → Task (Unit {0})
  select object location phonebook =
      call nothing
        (call_method object interface_name (bytes "Select") (text location ∷ text phonebook ∷ []))

  abbrev pub pull_all : Str → Str → PropertiesMap → Task (Str × PropertiesMap)
  pull_all object targetfile filters = call one_transfer (
      call_method object interface_name (bytes "PullAll")
        (text targetfile ∷ dictionary filters ∷ []))

  abbrev pub list : Str → PropertiesMap → Task (List (Str × Str))
  list object filters =
      call pairs (call_method object interface_name (bytes "List") (dictionary filters ∷ []))

  abbrev pub pull : Str → Str → Str → PropertiesMap → Task (Str × PropertiesMap)
  pull object vcard targetfile filters = call one_transfer (
      call_method object interface_name (bytes "Pull")
        (text vcard ∷ text targetfile ∷ dictionary filters ∷ []))

  abbrev pub search : Str → Str → Str → PropertiesMap → Task (List (Str × Str))
  search object field value filters = call pairs (
      call_method object interface_name (bytes "Search")
        (text field ∷ text value ∷ dictionary filters ∷ []))

  abbrev pub get_size : Str → Task ℕ
  get_size object = call number (call_method object interface_name (bytes "GetSize") [])

  abbrev pub update_version : Str → Task (Unit {0})
  update_version object =
      call nothing (call_method object interface_name (bytes "UpdateVersion") [])

  abbrev pub list_filter_fields : Str → Task (List Str)
  list_filter_fields object =
      call names (call_method object interface_name (bytes "ListFilterFields") [])

  abbrev pub folder : Str → Task Str
  folder object = read_property string object interface_name (bytes "Folder")

  abbrev pub database_identifier : Str → Task Str
  database_identifier object =
      read_property string object interface_name (bytes "DatabaseIdentifier")

  abbrev pub primary_counter : Str → Task Str
  primary_counter object = read_property string object interface_name (bytes "PrimaryCounter")

  abbrev pub secondary_counter : Str → Task Str
  secondary_counter object = read_property string object interface_name (bytes "SecondaryCounter")

  abbrev pub fixed_image_size : Str → Task Bool
  fixed_image_size object = read_property boolean object interface_name (bytes "FixedImageSize")
