-- ===== src/Registry.antt =====
-- native/src/bluez_obex_client.cpp: the registry of clients. Dart holds a token as an opaque
-- pointer; it is looked up, and never dereferenced.
pub mod Tokens
use bluez_obex_native.Common.{
  ℕ, suc, ◌+◌, ◌%◌, ◌^◌, ◌≤◌, ◌<◌, ◌≡◌, refl, Bool, true, false, ◌||◌, Option, none, some, List, [],
  ◌∷◌, arith, length, eqb, if◌then◌else◌,
}
use bluez_obex_native.Entries.{entry_at, erase_entry, emplace_entry, update_entry}
use bluez_obex_native.Sdbus.{Sdbus}
use bluez_obex_native.ObjectManager.State.{Manager}

-- The width of a pointer, which is that of `uintptr_t`: no wider than a `uint64_t`.
pub record Platform : Type 0 where
  pub pointer_bits : ℕ
  pub pointer_bits-bound : 2 ^ pointer_bits ≤ 2 ^ 64

-- A pointer is a number below `2 ^ pointer_bits`; as a `uint64_t` it is the same number.
abbrev pub token_of : ℕ → ℕ
token_of handle = handle

-- `static_cast<uintptr_t>(token)`.
abbrev pub handle_of : ⦃platform : Platform⦄ → ℕ → ℕ
handle_of ⦃platform⦄ token = token % 2 ^ platform.pointer_bits

module _ ⦃s : Sdbus⦄ where
  -- The connection and the thread are of the library; `ObexClient` has no state of its own.
  pub record BluezObexClientContext : Type 0 where
    pub object_manager : Manager
    pub failed : Bool

  abbrev pub Clients : Type 0
  Clients = List (ℕ × BluezObexClientContext)

  pub record ClientRegistry : Type 0 where
    pub clients : Clients
    pub next_id : ℕ

  abbrev pub registry : ClientRegistry
  registry = record { clients = []; next_id = 1 }

  -- The condition under which `client_for` has no client.
  abbrev pub is_lost : BluezObexClientContext → Bool
  is_lost c = c.failed || c.object_manager.failed

  unfoldable pub client_for : ℕ → ClientRegistry → Option BluezObexClientContext
  unfolding entry_at
  client_for handle r = elim (entry_at (token_of handle) r.clients) [
    | none ↦ none
    | some c ↦ if is_lost c then none else some c
  ]

  -- The end of `bluez_obex_client_create`; the handle that it returns is that of `next_id`
  -- before it.
  unfoldable pub register : BluezObexClientContext → ClientRegistry → ClientRegistry
  unfolding emplace_entry
  register c r = record {
    clients = emplace_entry r.next_id c r.clients;
    next_id = (r.next_id + 1) % 2 ^ 64;
  }

  unfoldable pub client_destroy : ℕ → ClientRegistry → ClientRegistry
  unfolding erase_entry
  client_destroy handle r = record r { clients = erase_entry (token_of handle) r.clients }

  -- What a context does while it is registered, on its own thread.
  unfoldable pub change_client :
      ℕ → (BluezObexClientContext → BluezObexClientContext) → ClientRegistry → ClientRegistry
  unfolding update_entry
  change_client handle f r = record r { clients = update_entry handle f r.clients }

  -- What happens to the registry: a client is created, one is destroyed, the context of one
  -- changes.
  pub data Event : Type 0 where
    created : BluezObexClientContext → Event
    destroyed : ℕ → Event
    changed : ℕ → (BluezObexClientContext → BluezObexClientContext) → Event

  unfoldable pub after : Event → ClientRegistry → ClientRegistry
  unfolding register client_destroy change_client
  after (created c) r = register c r
  after (destroyed handle) r = client_destroy handle r
  after (changed handle f) r = change_client handle f r

  unfoldable pub after_all : List Event → ClientRegistry → ClientRegistry
  unfolding after
  after_all [] r = r
  after_all (e ∷ es) r = after_all es (after e r)
