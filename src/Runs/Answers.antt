-- ===== src/Runs/Answers.antt =====
-- A run of a call of the C interface down to the services and back.
use bluez_obex_native.Common.{◌≡◌, refl, true, false, some, List, [], ◌∷◌, length, arith}
use bluez_obex_native.Common.Int.{pos}
use bluez_obex_native.Common.Strings.{Str, bytes, ◌==◌}
use bluez_obex_native.Entries.{entry_at, emplace_entry}
use bluez_obex_native.OrderedMap
use bluez_obex_native.OrderedMap.Laws.{find-insert, find-empty}
use bluez_obex_native.Wire.{
  Buffer, encode, decode, encode_struct, encode_impl, encode_string, encode_uint, write_bytes,
  le_bytes, encode_u8,
}
use bluez_obex_native.Wire.Structs.{FitsStruct}
use bluez_obex_native.Sdbus.{string}
use bluez_obex_native.Bus.{
  PropertiesMap, Request, Answer, reply, error, Bus, ReplyType, Reply, nothing, some_properties,
}
use bluez_obex_native.Properties.{session_props_from_map, get_property_value}
use bluez_obex_native.Types.Session.{BluezObexSessionProps, session_props_meta}
use bluez_obex_native.Types.Complete.{session_props_IsComplete}
use bluez_obex_native.Registry.{BluezObexClientContext, registry, register, client_for}
use bluez_obex_native.ObjectManager.Signals.{created}
use bluez_obex_native.Native.{NativeState, no_error}
use bluez_obex_native.Native.Contract.{result}
use bluez_obex_native.Native.Sessions.{bluez_obex_session_get_properties}
use bluez_obex_native.Native.Answers.{proxy_request, all_request, session_get_properties-decode}
use bluez_obex_native.Samples.Variants.{sample, sample_sdbus}
use bluez_obex_native.Samples.Memory.{sample_memory}

abbrev source : PropertiesMap
source = OrderedMap.insert (bytes "Source") (sample string (b'a' ∷ [])) []

abbrev respond : (t : ReplyType) → List Request → Request → Answer (Reply t)
respond nothing sent r = reply tt
respond some_properties sent r = reply source
respond t sent r = error [] []

-- Services that answer GetAll.
instance abbrev answering : Bus
answering = record { respond = respond }

abbrev context : BluezObexClientContext
context = record { object_manager = created; failed = false }

abbrev one_client : NativeState
one_client = record {
  dart_api_initialized = true;
  last_error = no_error;
  clients = register context registry;
  blocks = [];
}

abbrev path : Str
path = b'/' ∷ []

abbrev session : BluezObexSessionProps
session = record session_props_meta.initial { object_path = path; source = b'a' ∷ [] }

read_session : session_props_from_map path source ≡ session
unfolding session_props_from_map get_property_value ◌==◌ bytes
read_session =
    rw
      (
        find-insert (bytes "Source") (bytes "Source") (sample string (b'a' ∷ [])) [],
        find-insert (bytes "Source") (bytes "Destination") (sample string (b'a' ∷ [])) [],
        find-insert (bytes "Source") (bytes "Channel") (sample string (b'a' ∷ [])) [],
        find-insert (bytes "Source") (bytes "PSM") (sample string (b'a' ∷ [])) [],
        find-insert (bytes "Source") (bytes "Target") (sample string (b'a' ∷ [])) [],
        find-insert (bytes "Source") (bytes "Root") (sample string (b'a' ∷ [])) [],
        find-empty {V = sample_sdbus.Variant} (bytes "Destination"),
        find-empty {V = sample_sdbus.Variant} (bytes "Channel"),
        find-empty {V = sample_sdbus.Variant} (bytes "PSM"),
        find-empty {V = sample_sdbus.Variant} (bytes "Target"),
        find-empty {V = sample_sdbus.Variant} (bytes "Root"),
      )
      refl

session-FitsStruct : FitsStruct session_props_meta session_props_IsComplete session
session-FitsStruct = (
  (omega arith, (omega arith, tt)),
  (
    (omega arith, (omega arith, tt)),
    ((omega arith, tt), (omega arith, (omega arith, ((omega arith, tt), ((omega arith, tt), tt))))),
  ),
)

session-length : length (encode session) ≡ 25
unfolding encode encode_struct encode_impl encode_string encode_uint write_bytes le_bytes encode_u8
session-length = refl

found : client_for 1 one_client.clients ≡ some context
unfolding register client_for entry_at emplace_entry
found = refl

session_get_properties-decode_example :
    (block : Buffer) × (bluez_obex_session_get_properties 1 (some path) true one_client
      ≡ result
          (pos (length block))
          (some 1)
          (proxy_request path ∷ proxy_request path ∷ all_request path ∷ [])
          (record one_client { blocks = (1, block) ∷ [] }))
    × (decode block 0 session_props_meta.initial
        ≡ some (session_props_from_map path source, length block))
session_get_properties-decode_example =
    session_get_properties-decode 1 path one_client context source 1 (omega arith) found refl refl
      refl (rw read_session session-FitsStruct) (rw (read_session, session-length) (omega arith))
      refl
