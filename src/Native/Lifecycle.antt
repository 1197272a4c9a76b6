-- ===== src/Native/Lifecycle.antt =====
-- native/src/bluez_obex_client.cpp: the start of the library, clients that come and go, the thread
-- of a client, and what is handed back by the caller.
use bluez_obex_native.Common.{ℕ, Bool, true, false, not, ◌||◌, [], eqb, if◌then◌else◌}
use bluez_obex_native.Common.Int.{ℤ, pos, negsuc}
use bluez_obex_native.Common.Strings.{Str, bytes}
use bluez_obex_native.Entries.{erase_entry}
use bluez_obex_native.Sdbus.{Sdbus, Exception, Outcome, ok, throws}
use bluez_obex_native.Bus.{Bus}
use bluez_obex_native.ObjectManager.State.{Manager}
use bluez_obex_native.ObjectManager.Signals.{
  Signal, loop_failed, created, handle, connection_failed,
}
use bluez_obex_native.ObjectManager.Lifetime.{subscribe, started}
use bluez_obex_native.Registry.{
  Platform, handle_of, BluezObexClientContext, register, client_destroy, change_client,
}
use bluez_obex_native.Native.{NativeState, no_error, record_error}

abbrev pub is_zero : ℤ → Bool
is_zero (pos n) = eqb n 0
is_zero (negsuc n) = false

module _ ⦃s : Sdbus⦄ where
  unfoldable pub bluez_obex_last_error_name : NativeState → Str
  bluez_obex_last_error_name st = st.last_error.name

  unfoldable pub bluez_obex_last_error_message : NativeState → Str
  bluez_obex_last_error_message st = st.last_error.message

  -- `free`, of an address that a call has handed over, or of null.
  unfoldable pub bluez_obex_free : ℕ → NativeState → NativeState
  bluez_obex_free buffer st = record st { blocks = erase_entry buffer st.blocks }

  -- `initialize` is what `Dart_InitializeApiDL` returns.
  unfoldable pub bluez_obex_init : Bool → ℤ → NativeState → NativeState
  bluez_obex_init has_data initialize st =
      if not has_data || st.dart_api_initialized
      then st
      else record st { dart_api_initialized = is_zero initialize }

  abbrev pub create_failed : Exception → NativeState → ℕ × NativeState
  create_failed e st =
      (0, record st { last_error = record_error (bytes "bluez_obex_client_create") e })

  -- The end of the `try` block: the thread starts, and the context is registered.
  abbrev pub create_registered :
      ⦃platform : Platform⦄
      → Outcome (Unit {0})
      → Outcome (Unit {0}) × Manager
      → NativeState
      → ℕ × NativeState
  create_registered thread (throws e, m) st = create_failed e st
  create_registered (throws e) (ok _, m) st = create_failed e st
  create_registered (ok _) (ok _, m) st = (
    handle_of st.clients.next_id,
    record st { clients = register (record { object_manager = m; failed = false }) st.clients },
  )

  -- What the event loop of a client delivers; an exception that leaves it sets both flags.
  unfoldable pub event_loop : ⦃bus : Bus⦄ → Signal → BluezObexClientContext → BluezObexClientContext
  unfolding handle
  event_loop (loop_failed message) c = record {
    failed = true;
    object_manager = connection_failed message c.object_manager;
  }
  event_loop signal c = record c { object_manager = handle signal c.object_manager }

  unfoldable pub signalled : ⦃bus : Bus⦄ → ℕ → Signal → NativeState → NativeState
  unfolding event_loop change_client
  signalled client signal st = record st {
    clients = change_client client (event_loop signal) st.clients;
  }

  unfoldable pub bluez_obex_client_destroy : ℕ → NativeState → NativeState
  unfolding client_destroy
  bluez_obex_client_destroy client st = record st { clients = client_destroy client st.clients }

  module _ ⦃bus : Bus⦄ where
    -- The manager of a connection, which may not have been opened.
    abbrev pub opened : Outcome (Unit {0}) → Outcome (Unit {0}) × Manager
    opened (throws e) = (throws e, created)
    opened (ok _) = started (subscribe [])

    -- The handle, null for failure. `connection` and `thread` are how opening the session bus and
    -- starting the thread have ended.
    unfoldable pub bluez_obex_client_create :
        ⦃platform : Platform⦄
        → ℤ
        → Outcome (Unit {0})
        → Outcome (Unit {0})
        → NativeState
        → ℕ × NativeState
    unfolding started subscribe register
    bluez_obex_client_create events_port connection thread st =
        let cleared = record st { last_error = no_error } in
        if not st.dart_api_initialized || is_zero events_port
        then (0, cleared)
        else create_registered thread (opened connection) cleared
