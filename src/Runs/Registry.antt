-- ===== src/Runs/Registry.antt =====
-- Runs of the registry of clients.
use bluez_obex_native.Common.{◌≡◌, ◌≤◌, refl, false, none, some, List, [], ◌∷◌, arith}
use bluez_obex_native.ObjectManager.Signals
use bluez_obex_native.Samples.Variants.{sample_sdbus}
use bluez_obex_native.Samples.Platforms.{sample_platform}
use bluez_obex_native.Entries.{entry_at, emplace_entry}
use bluez_obex_native.Registry.{
  handle_of, BluezObexClientContext, registry, register, client_destroy, client_for, Event, created,
  destroyed, after, after_all,
}
use bluez_obex_native.Registry.Tokens.{client_destroy-client_for, register-client_for}

abbrev healthy : BluezObexClientContext
healthy = record { object_manager = Signals.created; failed = false }

abbrev two_clients : List Event
two_clients = created healthy ∷ destroyed 1 ∷ created healthy ∷ []

client_destroy-client_for_example :
    client_for 1 (after_all two_clients (client_destroy 1 (register healthy registry))) ≡ none
unfolding register
client_destroy-client_for_example =
    client_destroy-client_for two_clients (register healthy registry) 1 (omega arith) (omega arith)

register-client_for_example :
    (1 ≤ handle_of ⦃platform = sample_platform⦄ (after_all two_clients registry).next_id)
    × (client_for
          (handle_of ⦃platform = sample_platform⦄ (after_all two_clients registry).next_id)
          (register healthy (after_all two_clients registry))
        ≡ some healthy)
register-client_for_example =
    register-client_for ⦃platform = sample_platform⦄ two_clients healthy (ground arith) refl

second_client : client_for 2 (after_all two_clients registry) ≡ some healthy
unfolding client_for after_all after register client_destroy emplace_entry entry_at
second_client = refl
