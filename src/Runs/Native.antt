-- ===== src/Runs/Native.antt =====
-- Runs of the C interface.
use bluez_obex_native.Common.{◌≡◌, refl, true, false, some, [], ◌∷◌, length, arith}
use bluez_obex_native.Common.Int.{pos}
use bluez_obex_native.Common.Strings.{bytes}
use bluez_obex_native.Entries.{entry_at, emplace_entry}
use bluez_obex_native.Wire.{
  Buffer, encode, decode, encode_struct, encode_impl, encode_string, encode_uint, write_bytes,
  le_bytes,
}
use bluez_obex_native.Sdbus.{Exception, dbus_error, ok}
use bluez_obex_native.Calls.{pure}
use bluez_obex_native.Registry.{BluezObexClientContext, registry, register, client_for}
use bluez_obex_native.ObjectManager.Signals.{created, get_managed_objects}
use bluez_obex_native.ObjectManager.Lifetime.{subscribe, started}
use bluez_obex_native.ObjectManager.Ending.{ends, IsOpen, IsOpen-IsKept, created-IsOpen}
use bluez_obex_native.ObjectManager.State.{Manager}
use bluez_obex_native.ObjectManager.Steps.Changes.{get_managed_objects-keeps}
use bluez_obex_native.ObjectManager.View.{IsFaithful}
use bluez_obex_native.Types.Objects.{BluezObexObjectRemoved, object_removed_meta}
use bluez_obex_native.Types.Complete.{object_removed_IsComplete}
use bluez_obex_native.Native.{NativeState, call_bytes, rejected}
use bluez_obex_native.Native.Invocations.{
  operation_of, Invocation, session_get_properties_call, invoke,
}
use bluez_obex_native.Native.Lifecycle.{
  bluez_obex_free, bluez_obex_init, bluez_obex_client_create, bluez_obex_client_destroy, opened,
}
use bluez_obex_native.Native.Contract.{Contract, result, invoke-Contract, invoke-lost}
use bluez_obex_native.Native.Delivery.{out_address, free-invoke, call_bytes-decode}
use bluez_obex_native.Native.Reach.{
  loaded, ◌⟶*◌, invoked, initialized, client_created, client_destroyed, here, next, IsSound,
  reachable-IsSound, client_for-IsFaithful,
}
use bluez_obex_native.Native.Stale.{destroyed-refused}
use bluez_obex_native.Samples.Variants.{sample_sdbus}
use bluez_obex_native.Samples.Services.{sample_bus, session_path}
use bluez_obex_native.Samples.Memory.{sample_memory}
use bluez_obex_native.Samples.Platforms.{sample_platform}

abbrev with_client_1 : NativeState
with_client_1 =
    (bluez_obex_client_create (pos 7) (ok tt) (ok tt) (bluez_obex_init true (pos 0) loaded)).1

abbrev get_properties : Invocation
get_properties = session_get_properties_call 1 (some session_path) true

-- A client is created, asked and destroyed.
abbrev asked_and_destroyed :
    loaded ⟶* bluez_obex_client_destroy 1 (invoke get_properties with_client_1).1
asked_and_destroyed = next (initialized true (pos 0)) (
    next (client_created sample_platform sample_bus (pos 7) (ok tt) (ok tt))
      (next (invoked sample_bus sample_memory get_properties) (next (client_destroyed 1) here)))

reachable-IsSound_example :
    IsSound (bluez_obex_client_destroy 1 (invoke get_properties with_client_1).1)
reachable-IsSound_example = reachable-IsSound asked_and_destroyed

created_once : loaded ⟶* with_client_1
created_once =
    next (initialized true (pos 0))
      (next (client_created sample_platform sample_bus (pos 7) (ok tt) (ok tt)) here)

-- The context of the client that was created.
abbrev context_1 : BluezObexClientContext
context_1 = record { object_manager = (opened (ok tt)).1; failed = false }

with_client_1-clients : with_client_1.clients ≡ register context_1 registry
unfolding bluez_obex_init bluez_obex_client_create started subscribe get_managed_objects
with_client_1-clients = refl

abbrev subscribed : Manager
subscribed = record created { requests = (subscribe []).1 }

healthy_1 : context_1.object_manager.failed ≡ false
unfolding started subscribe
healthy_1 = (get_managed_objects-keeps IsOpen IsOpen-IsKept subscribed created-IsOpen).0

found_1 : client_for 1 with_client_1.clients ≡ some context_1
unfolding register client_for entry_at emplace_entry
found_1 = rw (with_client_1-clients, healthy_1) refl

client_for-IsFaithful_example :
    IsFaithful context_1.object_manager × (ends context_1.object_manager.posted ≡ 0)
client_for-IsFaithful_example = client_for-IsFaithful 1 context_1 created_once found_1

next_id_2 : with_client_1.clients.next_id ≡ 2
unfolding register
next_id_2 = rw with_client_1-clients refl

abbrev created_again :
    bluez_obex_client_destroy 1 with_client_1
    ⟶* (bluez_obex_client_create
        (pos 7)
        (ok tt)
        (ok tt)
        (bluez_obex_client_destroy 1 with_client_1)).1
created_again = next (client_created sample_platform sample_bus (pos 7) (ok tt) (ok tt)) here

abbrev afterwards : NativeState
afterwards =
    (bluez_obex_client_create (pos 7) (ok tt) (ok tt) (bluez_obex_client_destroy 1 with_client_1)).1

destroyed-refused_example : invoke get_properties afterwards ≡ rejected afterwards
destroyed-refused_example =
    destroyed-refused with_client_1 afterwards 1 created_again sample_bus sample_memory
      get_properties (rw next_id_2 (omega arith)) (rw next_id_2 (omega arith)) refl

invoke-Contract_example :
    Contract (operation_of get_properties) with_client_1 (invoke get_properties with_client_1)
invoke-Contract_example = invoke-Contract get_properties with_client_1

invoke-lost_example : invoke get_properties loaded ≡ rejected loaded
unfolding client_for entry_at
invoke-lost_example = invoke-lost get_properties 1 loaded refl refl

free-invoke_example :
    (bluez_obex_free
      (out_address (invoke get_properties with_client_1).0)
      (invoke get_properties with_client_1).1).blocks
    ≡ with_client_1.blocks
unfolding entry_at bluez_obex_client_create bluez_obex_init started subscribe register
    get_managed_objects
free-invoke_example = free-invoke get_properties with_client_1 refl

abbrev gone : BluezObexObjectRemoved
gone = record { object_path = b'/' ∷ []; interface_name = b'i' ∷ b'f' ∷ [] }

gone-length : length (encode gone) ≡ 11
unfolding encode encode_struct encode_impl encode_string encode_uint write_bytes le_bytes
gone-length = refl

call_bytes-decode_example :
    (block : Buffer) × (call_bytes (bytes "gone") (pure (encode gone)) true loaded
      ≡ result (pos (length block)) (some 1) [] (record loaded { blocks = (1, block) ∷ [] }))
    × (decode block 0 object_removed_meta.initial ≡ some (gone, length block))
call_bytes-decode_example =
    call_bytes-decode object_removed_meta object_removed_IsComplete (bytes "gone")
      (pure (encode gone)) gone object_removed_meta.initial [] loaded 1
      ((omega arith, (omega arith, tt)), ((omega arith, (omega arith, (omega arith, tt))), tt)) refl
      (rw gone-length (omega arith)) (rw gone-length (omega arith)) refl

-- A service that knows no object of that path.
abbrev not_found : Exception
not_found = dbus_error (bytes "org.freedesktop.DBus.Error.UnknownObject") (bytes "no such object")
