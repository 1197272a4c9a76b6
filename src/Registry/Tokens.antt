-- ===== src/Registry/Tokens.antt =====
-- Tokens of the registry of clients are not used again, and find their clients.
use bluez_obex_native.Common.{
  ℕ, ◌+◌, ◌^◌, ◌≤◌, ◌<◌, ◌≡◌, refl, false, Option, none, some, List, [], ◌∷◌, arith, length,
  if◌then◌else◌,
}
use native.Mathlib.Nat.{mod-eq_of_lt}
use bluez_obex_native.Sdbus.{Sdbus}
use bluez_obex_native.Registry.{
  Platform, handle_of, BluezObexClientContext, ClientRegistry, registry, client_for, register,
  client_destroy, change_client, is_lost, Event, created, destroyed, changed, after, after_all,
}
use bluez_obex_native.Entries.{entry_at, emplace_entry}
use bluez_obex_native.Entries.Laws.{
  entry_at-erase_entry, erase_entry-keeps, update_entry-keeps, emplace_entry-keeps,
  entry_at-emplace_entry,
}

module _ ⦃s : Sdbus⦄ where
  stays_away :
      (es : List Event) (r : ClientRegistry) (token : ℕ)
      → token < r.next_id
      → r.next_id + length es < 2 ^ 64
      → entry_at token r.clients ≡ none
      → entry_at token (after_all es r).clients ≡ none
  unfolding after_all after register client_destroy change_client
  stays_away [] r token lt bound h = h
  stays_away (created c ∷ es) r token lt bound h =
      stays_away es (register c r) token (ground arith) (ground arith)
        (emplace_entry-keeps token r.next_id c r.clients (ground arith) h)
  stays_away (destroyed handle ∷ es) r token lt bound h =
      stays_away es (client_destroy handle r) token lt (ground arith)
        (erase_entry-keeps token handle r.clients h)
  stays_away (changed handle f ∷ es) r token lt bound h =
      stays_away es (change_client handle f r) token lt (ground arith)
        (update_entry-keeps token handle f r.clients h)

  -- A token that was given out and whose client was destroyed never finds a client again, whatever
  -- happens to the registry then, as long as the count of clients stays below 2^64.
  pub client_destroy-client_for :
      (es : List Event) (r : ClientRegistry) (token : ℕ)
      → token < r.next_id
      → r.next_id + length es < 2 ^ 64
      → client_for token (after_all es (client_destroy token r)) ≡ none
  unfolding client_for client_destroy
  client_destroy-client_for es r token lt bound = rw (
    client_for,
    stays_away es (client_destroy token r) token lt bound (entry_at-erase_entry token r.clients),
  )

  -- No token from `next_id` on is in use, and `next_id` is not the token of a null pointer.
  abbrev IsFresh : ClientRegistry → Type 0
  IsFresh r = (1 ≤ r.next_id) × ((t : ℕ) → r.next_id ≤ t → entry_at t r.clients ≡ none)

  after_all-IsFresh :
      (es : List Event) (r : ClientRegistry)
      → r.next_id + length es < 2 ^ 64
      → IsFresh r
      → IsFresh (after_all es r)
  unfolding after_all after register client_destroy change_client
  after_all-IsFresh [] r bound h = h
  after_all-IsFresh (created c ∷ es) r bound h =
      after_all-IsFresh es (register c r) (ground arith) (
        ground arith,
        λ t le. emplace_entry-keeps t r.next_id c r.clients (ground arith) (h.1 t (ground arith)),
      )
  after_all-IsFresh (destroyed handle ∷ es) r bound h =
      after_all-IsFresh es (client_destroy handle r) (ground arith)
        (h.0, λ t le. erase_entry-keeps t handle r.clients (h.1 t le))
  after_all-IsFresh (changed handle f ∷ es) r bound h =
      after_all-IsFresh es (change_client handle f r) (ground arith)
        (h.0, λ t le. update_entry-keeps t handle f r.clients (h.1 t le))

  found_for :
      (o : Option BluezObexClientContext) (c : BluezObexClientContext)
      → o ≡ some c
      → is_lost c ≡ false
      → (elim o [ none ↦ none | some x ↦ if is_lost x then none else some x ]) ≡ some c
  found_for none c e h = cc
  found_for (some x) c e h = let at : x ≡ c = cc in rw (at, h)

  after_all-next_id :
      (es : List Event) (r : ClientRegistry) → (after_all es r).next_id ≤ r.next_id + length es
  unfolding after_all after register client_destroy change_client
  after_all-next_id [] r = omega arith
  after_all-next_id (created c ∷ es) r = ground (arith, after_all-next_id es (register c r))
  after_all-next_id (destroyed handle ∷ es) r =
      ground (arith, after_all-next_id es (client_destroy handle r))
  after_all-next_id (changed handle f ∷ es) r =
      ground (arith, after_all-next_id es (change_client handle f r))

  -- After any events, fewer than there are pointers, the handle of the next client that is created
  -- is not null and finds that client, where it has not failed.
  pub register-client_for :
      ⦃platform : Platform⦄ (es : List Event) (c : BluezObexClientContext)
      → 1 + length es < 2 ^ platform.pointer_bits
      → is_lost c ≡ false
      → (1 ≤ handle_of (after_all es registry).next_id)
        × (client_for
              (handle_of (after_all es registry).next_id)
              (register c (after_all es registry))
            ≡ some c)
  unfolding client_for register entry_at
  register-client_for ⦃platform⦄ es c bound h =
      let fits : 2 ^ platform.pointer_bits ≤ 2 ^ 64 = platform.pointer_bits-bound in
      let fresh = after_all-IsFresh es registry (omega arith) (omega arith, λ t le. refl) in
      let token : ℕ = (after_all es registry).next_id in
      let below : token < 2 ^ platform.pointer_bits =
        omega (arith, after_all-next_id es registry) in
      let whole : handle_of token ≡ token = mod-eq_of_lt below in
      rw whole (
        fresh.0,
        found_for (entry_at token (emplace_entry token c (after_all es registry).clients)) c
            (entry_at-emplace_entry token c (after_all es registry).clients
              (fresh.1 token (omega arith)))
            h,
      )
