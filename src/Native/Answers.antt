-- ===== src/Native/Answers.antt =====
-- A call of the C interface from the client down to the services and back: the properties of a
-- session.
use bluez_obex_native.Common.{
  ℕ, ◌≡◌, ◌≤◌, refl, true, false, some, List, [], ◌∷◌, length, eqb, arith,
}
use bluez_obex_native.Common.Int.{pos}
use bluez_obex_native.Common.Strings.{Str, bytes}
use bluez_obex_native.Wire.{
  Buffer, encode, decode, encode_struct, encode_impl, encode_string, encode_uint, write_bytes,
  le_bytes, encode_u8,
}
use bluez_obex_native.Wire.Structs.{FitsStruct}
use bluez_obex_native.Sdbus.{Sdbus, ok}
use bluez_obex_native.Bus.{
  PropertiesMap, Bus, Request, create_proxy, call_method, text, reply, nothing, some_properties,
}
use bluez_obex_native.Calls.{Task, ◌>>=◌}
use bluez_obex_native.Properties.{session_props_from_map}
use bluez_obex_native.Types.Session.{BluezObexSessionProps, session_props_meta}
use bluez_obex_native.Types.Complete.{session_props_IsComplete}
use bluez_obex_native.ObjectManager.Interfaces.{session_iface}
use bluez_obex_native.ObjectManager.State.{obex_service, properties_iface}
use bluez_obex_native.Proxies.Access.{
  construct, get_all_properties, session_properties, session_encoded_properties,
}
use bluez_obex_native.Registry.{BluezObexClientContext, client_for}
use bluez_obex_native.Native.{Memory, int32_max, NativeState}
use bluez_obex_native.Native.Contract.{result}
use bluez_obex_native.Native.Sessions.{bluez_obex_session_get_properties}
use bluez_obex_native.Native.Delivery.{call_bytes-decode}

-- No encoding of a session is empty.
encode-session : (x : BluezObexSessionProps) → 1 ≤ length (encode x)
unfolding encode encode_struct encode_impl encode_string encode_uint write_bytes le_bytes encode_u8
encode-session x = omega arith

module _ ⦃s : Sdbus⦄ ⦃bus : Bus⦄ ⦃memory : Memory⦄ where
  abbrev pub proxy_request : Str → Request
  proxy_request path = create_proxy obex_service path

  abbrev pub all_request : Str → Request
  all_request path = call_method path properties_iface (bytes "GetAll") (text session_iface ∷ [])

  -- A handle that finds a client, a service that answers GetAll with properties of which the
  -- session fits the wire format, with an encoding not longer than INT32_MAX and a block for it: the
  -- call returns the length of the block, has made three requests, and the block decodes to that
  -- session.
  pub session_get_properties-decode :
      (handle : ℕ) (path : Str) (st : NativeState) (c : BluezObexClientContext)
      (properties : PropertiesMap) (address : ℕ)
      → 1 ≤ handle
      → client_for handle st.clients ≡ some c
      → bus.respond nothing [] (proxy_request path) ≡ reply tt
      → bus.respond nothing (proxy_request path ∷ []) (proxy_request path) ≡ reply tt
      → bus.respond some_properties
          (proxy_request path ∷ proxy_request path ∷ [])
          (all_request path)
        ≡ reply properties
      → FitsStruct session_props_meta session_props_IsComplete
          (session_props_from_map path properties)
      → length (encode (session_props_from_map path properties)) ≤ int32_max
      → memory.malloc st.blocks (length (encode (session_props_from_map path properties)))
        ≡ some address
      → (block : Buffer) × (bluez_obex_session_get_properties handle (some path) true st
          ≡ result
              (pos (length block))
              (some address)
              (proxy_request path ∷ proxy_request path ∷ all_request path ∷ [])
              (record st { blocks = (address, block) ∷ st.blocks }))
        × (decode block 0 session_props_meta.initial
            ≡ some (session_props_from_map path properties, length block))
  unfolding bluez_obex_session_get_properties session_encoded_properties session_properties
      get_all_properties
  session_get_properties-decode handle path st c properties address positive found first second
        third fits small got =
      let nonzero : eqb handle 0 ≡ false = ground arith in
      let asked : List Request = proxy_request path ∷ proxy_request path ∷ all_request path ∷ [] in
      let task : Task Buffer = (do constructed ← construct path; session_encoded_properties path) in
      let done : task [] ≡ (ok (encode (session_props_from_map path properties)), asked) =
        rw (first, second, third) refl in
      rw (nonzero, found)
        (call_bytes-decode session_props_meta session_props_IsComplete
          (bytes "bluez_obex_session_get_properties") task (session_props_from_map path properties)
          session_props_meta.initial asked st address fits done
          (encode-session (session_props_from_map path properties)) small got)
