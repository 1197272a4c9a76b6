-- ===== src/Native/Stale.antt =====
-- Handles of clients that were destroyed.
use bluez_obex_native.Common.{
  ℕ, suc, ◌+◌, ◌^◌, ◌<◌, ◌≡◌, subst, sym, ap, none, some, arith, if_intro, not, ◌||◌,
}
use bluez_obex_native.Common.Strings.{Str}
use bluez_obex_native.Entries.{entry_at}
use bluez_obex_native.Entries.Laws.{
  entry_at-erase_entry, erase_entry-keeps, update_entry-keeps, emplace_entry-keeps,
}
use bluez_obex_native.Sdbus.{Sdbus, Outcome, ok, throws}
use bluez_obex_native.Bus.{Bus}
use bluez_obex_native.ObjectManager.State.{Manager}
use bluez_obex_native.Registry.{
  Platform, ClientRegistry, client_for, register, client_destroy, change_client,
}
use bluez_obex_native.Native.{Memory, NativeState, Returned, rejected}
use bluez_obex_native.Native.Invocations.{operation_of, Invocation, handle_of, invoke}
use bluez_obex_native.Native.Contract.{
  Contract, refusal, unreachable, failed, too_long, number, delivered, invoke-Contract, invoke-lost,
}
use bluez_obex_native.Native.Lifecycle.{
  bluez_obex_free, bluez_obex_init, bluez_obex_client_create, bluez_obex_client_destroy, signalled,
  create_registered, event_loop,
}
use bluez_obex_native.Native.Reach.{
  ◌⟶◌, ◌⟶*◌, invoked, freed, initialized, client_created, client_destroyed, client_signalled, here,
  next,
}

module _ ⦃s : Sdbus⦄ where
  -- The number of steps.
  abbrev pub steps : {a b : NativeState} → a ⟶* b → ℕ
  steps here = 0
  steps (next x xs) = suc (steps xs)

  -- The token was given out, has no client, and one more token can be given out.
  abbrev IsGone : ℕ → ℕ → ClientRegistry → Type 0
  IsGone token n r =
      (token < r.next_id) × (r.next_id + n < 2 ^ 64) × (entry_at token r.clients ≡ none)

  IsGone-weaken : (token n : ℕ) (r : ClientRegistry) → IsGone token (suc n) r → IsGone token n r
  IsGone-weaken token n r (lt, bound, e) = (lt, ground arith, e)

  Contract-clients :
      ⦃bus : Bus⦄ (operation : Str) (st : NativeState) (r : Returned × NativeState)
      → Contract operation st r
      → r.1.clients ≡ st.clients
  Contract-clients operation st r (refusal e) = ap (λ (r : Returned × NativeState). r.1.clients) e
  Contract-clients operation st r (unreachable request name message u e) =
      ap (λ (r : Returned × NativeState). r.1.clients) e
  Contract-clients operation st r (failed asked name message reached e) =
      ap (λ (r : Returned × NativeState). r.1.clients) e
  Contract-clients operation st r (too_long payload asked reached l e) =
      ap (λ (r : Returned × NativeState). r.1.clients) e
  Contract-clients operation st r (number n asked reached e) =
      ap (λ (r : Returned × NativeState). r.1.clients) e
  Contract-clients operation st r (delivered payload address asked reached lo hi positive fresh e) =
      ap (λ (r : Returned × NativeState). r.1.clients) e

  create_registered-IsGone :
      ⦃platform : Platform⦄ (token n : ℕ) (thread : Outcome (Unit {0})) (o : Outcome (Unit {0}))
      (m : Manager) (st : NativeState)
      → IsGone token (suc n) st.clients
      → IsGone token n (create_registered thread (o, m) st).1.clients
  unfolding register
  create_registered-IsGone token n thread (throws e) m st h = IsGone-weaken token n st.clients h
  create_registered-IsGone token n (throws e) (ok x) m st h = IsGone-weaken token n st.clients h
  create_registered-IsGone token n (ok y) (ok x) m st (lt, bound, e) = (
    ground arith,
    ground arith,
    emplace_entry-keeps token st.clients.next_id _ st.clients.clients (ground arith) e,
  )

  ⟶-IsGone :
      (token n : ℕ) {st st' : NativeState}
      → st ⟶ st'
      → IsGone token (suc n) st.clients
      → IsGone token n st'.clients
  unfolding bluez_obex_free bluez_obex_init bluez_obex_client_create bluez_obex_client_destroy
      signalled client_destroy change_client
  ⟶-IsGone token n (invoked {st} bus memory i) h =
      subst (IsGone token n)
        (sym (
          Contract-clients ⦃bus = bus⦄ (operation_of i) st _
            (invoke-Contract ⦃bus = bus⦄ ⦃memory = memory⦄ i st)))
        (IsGone-weaken token n st.clients h)
  ⟶-IsGone token n (freed {st} buffer) h = IsGone-weaken token n st.clients h
  ⟶-IsGone token n (initialized {st} has_data initialize) h =
      if_intro (λ (x : NativeState). IsGone token n x.clients)
        (not has_data || st.dart_api_initialized) st _ (λ _. IsGone-weaken token n st.clients h)
        (λ _. IsGone-weaken token n st.clients h)
  ⟶-IsGone token n (client_created {st} platform bus events_port connection thread) h =
      if_intro (λ (r : ℕ × NativeState). IsGone token n r.1.clients)
        (not st.dart_api_initialized || _) _ _ (λ _. IsGone-weaken token n st.clients h)
        (λ _. create_registered-IsGone ⦃platform = platform⦄ token n thread _ _ _ h)
  ⟶-IsGone token n (client_destroyed {st} client) (lt, bound, e) =
      (lt, ground arith, erase_entry-keeps token client st.clients.clients e)
  ⟶-IsGone token n (client_signalled {st} bus client signal) (lt, bound, e) = (
    lt,
    ground arith,
    update_entry-keeps token client (event_loop ⦃bus = bus⦄ signal) st.clients.clients e,
  )

  ⟶*-IsGone :
      (token n : ℕ) {st st' : NativeState} (xs : st ⟶* st')
      → IsGone token (steps xs + n) st.clients
      → IsGone token n st'.clients
  ⟶*-IsGone token n here h = (h.0, omega arith, h.2)
  ⟶*-IsGone token n (next x xs) h =
      ⟶*-IsGone token n xs (⟶-IsGone token (steps xs + n) x (h.0, omega arith, h.2))

  not_found : (token n : ℕ) (r : ClientRegistry) → IsGone token n r → client_for token r ≡ none
  unfolding client_for
  not_found token n r (lt, bound, e) = rw (e, client_for)

  -- Once `bluez_obex_client_destroy` was called with a handle that had been given out, every call
  -- on that handle returns -1, changes nothing and asks no service for anything, whatever has
  -- happened since, as long as fewer than 2^64 handles can have been given out.
  pub destroyed-refused :
      (st st' : NativeState) (token : ℕ) (xs : bluez_obex_client_destroy token st ⟶* st')
      (bus : Bus) (memory : Memory) (i : Invocation)
      → token < st.clients.next_id
      → st.clients.next_id + steps xs < 2 ^ 64
      → handle_of i ≡ some token
      → invoke ⦃bus = bus⦄ ⦃memory = memory⦄ i st' ≡ rejected st'
  unfolding bluez_obex_client_destroy client_destroy
  destroyed-refused st st' token xs bus memory i lt bound e =
      invoke-lost ⦃bus = bus⦄ ⦃memory = memory⦄ i token st' e (
        not_found token 0 st'.clients
          (⟶*-IsGone token 0 xs (lt, omega arith, entry_at-erase_entry token st.clients.clients)))
