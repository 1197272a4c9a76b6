-- ===== src/Native/Reach.antt =====
-- The states that the native library can be in: whatever Dart calls, whatever the services answer,
-- and in any order with what the event loops of the clients deliver.
use bluez_obex_native.Common.{
  ℕ, ◌≡◌, ◌≤◌, refl, subst, sym, Bool, true, false, Option, none, some, List, [], ◌∷◌, ◌⊎◌, inl,
  inr, length, arith, eqb, if_intro, if◌then◌else◌, ◌||◌, not,
}
use bluez_obex_native.Common.Int.{ℤ}
use bluez_obex_native.Common.Strings.{Str}
use bluez_obex_native.Entries.{entry_at, erase_entry}
use bluez_obex_native.Entries.Laws.{
  erase_entry-keeps, AllValues, entry_at-AllValues, erase_entry-AllValues, emplace_entry-AllValues,
  update_entry-AllValues,
}
use bluez_obex_native.Sdbus.{Sdbus, Outcome, ok, throws}
use bluez_obex_native.Bus.{Bus, Request}
use bluez_obex_native.ObjectManager.State.{Manager}
use bluez_obex_native.ObjectManager.Signals.{
  Signal, interfaces_added, interfaces_removed, properties_changed, name_owner_changed, unreadable,
  loop_failed, created, handle,
}
use bluez_obex_native.ObjectManager.Lifetime.{subscribe, started}
use bluez_obex_native.ObjectManager.View.{IsFaithful}
use bluez_obex_native.ObjectManager.Refinement.{
  created-IsFaithful, handle-IsFaithful, get_managed_objects-IsFaithful,
  connection_failed-IsFaithful,
}
use bluez_obex_native.ObjectManager.Steps.Changes.{get_managed_objects-keeps}
use bluez_obex_native.ObjectManager.Ending.{
  ends, IsOpen, IsClosed, IsOpen-IsKept, created-IsOpen, handle-failed, IsOpen-handle,
  connection_failed-IsClosed,
}
use bluez_obex_native.Registry.{
  Platform, BluezObexClientContext, registry, is_lost, client_for, register, client_destroy,
  change_client,
}
use bluez_obex_native.Native.{Memory, Blocks, NativeState, Returned, no_error}
use bluez_obex_native.Native.Invocations.{operation_of, Invocation, invoke}
use bluez_obex_native.Native.Contract.{
  Contract, refusal, unreachable, failed, too_long, number, delivered, invoke-Contract,
}
use bluez_obex_native.Native.Lifecycle.{
  bluez_obex_free, bluez_obex_init, bluez_obex_client_create, bluez_obex_client_destroy, signalled,
  event_loop, opened, create_registered,
}

module _ ⦃s : Sdbus⦄ where
  -- When the library is loaded.
  abbrev pub loaded : NativeState
  loaded = record {
    dart_api_initialized = false;
    last_error = no_error;
    clients = registry;
    blocks = [];
  }

  infix 40 ◌⟶◌ ◌⟶*◌
  -- One call, or one signal on the thread of a client. The services and `malloc` may answer
  -- otherwise each time.
  pub data ◌⟶◌ : NativeState → NativeState → Type 0 where
    invoked :
        {st : NativeState} (bus : Bus) (memory : Memory) (i : Invocation)
        → st ⟶ (invoke ⦃bus = bus⦄ ⦃memory = memory⦄ i st).1
    freed : {st : NativeState} (buffer : ℕ) → st ⟶ bluez_obex_free buffer st
    initialized :
        {st : NativeState} (has_data : Bool) (initialize : ℤ)
        → st ⟶ bluez_obex_init has_data initialize st
    client_created :
        {st : NativeState} (platform : Platform) (bus : Bus) (events_port : ℤ)
        (connection thread : Outcome (Unit {0}))
        → st
          ⟶ (bluez_obex_client_create ⦃bus = bus⦄ ⦃platform = platform⦄ events_port connection
              thread st).1
    client_destroyed : {st : NativeState} (client : ℕ) → st ⟶ bluez_obex_client_destroy client st
    client_signalled :
        {st : NativeState} (bus : Bus) (client : ℕ) (signal : Signal)
        → st ⟶ signalled ⦃bus = bus⦄ client signal st

  pub data ◌⟶*◌ : NativeState → NativeState → Type 0 where
    here : {st : NativeState} → st ⟶* st
    next : {a b c : NativeState} → a ⟶ b → b ⟶* c → a ⟶* c

  -- The messages of a client describe the cache of its manager, and its stream has not ended, or
  -- has ended once; then calls on it are refused.
  abbrev pub IsSoundClient : BluezObexClientContext → Type 0
  IsSoundClient c =
      IsFaithful c.object_manager
      × ((IsOpen c.object_manager × (c.failed ≡ false)) ⊎ IsClosed c.object_manager)

  -- The blocks that are handed over are not empty, and have addresses of their own, not null.
  abbrev pub AreDistinct : Blocks → Type 0
  AreDistinct [] = Unit
  AreDistinct ((address, payload) ∷ blocks) =
      (1 ≤ address) × (1 ≤ length payload) × (entry_at address blocks ≡ none) × AreDistinct blocks

  abbrev pub IsSound : NativeState → Type 0
  IsSound st = AllValues IsSoundClient st.clients.clients × AreDistinct st.blocks

  erase_entry-AreDistinct :
      (buffer : ℕ) (blocks : Blocks) → AreDistinct blocks → AreDistinct (erase_entry buffer blocks)
  unfolding erase_entry
  erase_entry-AreDistinct buffer [] h = tt
  erase_entry-AreDistinct buffer ((address, payload) ∷ blocks) (a, l, e, h) =
      let rest : AreDistinct (erase_entry buffer blocks) =
        erase_entry-AreDistinct buffer blocks h in
      if_intro AreDistinct (eqb address buffer) _ _ (λ _. rest)
        (λ _. (a, l, erase_entry-keeps address buffer blocks e, rest))

  Contract-IsSound :
      ⦃bus : Bus⦄ (operation : Str) (st : NativeState) (r : Returned × NativeState)
      → Contract operation st r
      → IsSound st
      → IsSound r.1
  Contract-IsSound operation st r (refusal e) h = subst (λ r. IsSound r.1) (sym e) h
  Contract-IsSound operation st r (unreachable request name message u e) h =
      subst (λ r. IsSound r.1) (sym e) h
  Contract-IsSound operation st r (failed asked name message reached e) h =
      subst (λ r. IsSound r.1) (sym e) h
  Contract-IsSound operation st r (too_long payload asked reached l e) h =
      subst (λ r. IsSound r.1) (sym e) h
  Contract-IsSound operation st r (number n asked reached e) h = subst (λ r. IsSound r.1) (sym e) h
  Contract-IsSound operation st r (delivered payload address asked reached lo hi positive fresh e)
        (c, b) =
      subst (λ r. IsSound r.1) (sym e) (c, (positive, lo, fresh, b))

  handled-IsSound :
      (bus : Bus) (signal : Signal) (c : BluezObexClientContext)
      → IsSoundClient c
      → IsSoundClient (record c { object_manager = handle ⦃bus = bus⦄ signal c.object_manager })
  handled-IsSound bus signal c (f, inr closed) =
      let same : handle ⦃bus = bus⦄ signal c.object_manager ≡ c.object_manager =
        handle-failed ⦃bus = bus⦄ signal c.object_manager closed.0 in
      (
        handle-IsFaithful ⦃bus = bus⦄ signal c.object_manager f,
        inr (subst IsClosed (sym same) closed),
      )
  handled-IsSound bus signal c (f, inl (up, alive)) = (
    handle-IsFaithful ⦃bus = bus⦄ signal c.object_manager f,
    still (handle ⦃bus = bus⦄ signal c.object_manager)
        (IsOpen-handle ⦃bus = bus⦄ signal c.object_manager up),
  )
    where
      still : (m : Manager) → IsOpen m ⊎ IsClosed m → (IsOpen m × (c.failed ≡ false)) ⊎ IsClosed m
      still m (inl o) = inl (o, alive)
      still m (inr o) = inr o

  event_loop-IsSound :
      (bus : Bus) (signal : Signal) (c : BluezObexClientContext)
      → IsSoundClient c
      → IsSoundClient (event_loop ⦃bus = bus⦄ signal c)
  unfolding event_loop
  event_loop-IsSound bus (loop_failed message) c (f, inl (up, alive)) = (
    connection_failed-IsFaithful message c.object_manager f,
    inr (connection_failed-IsClosed message c.object_manager (inl up)),
  )
  event_loop-IsSound bus (loop_failed message) c (f, inr closed) = (
    connection_failed-IsFaithful message c.object_manager f,
    inr (connection_failed-IsClosed message c.object_manager (inr closed)),
  )
  event_loop-IsSound bus (interfaces_added p i) c h = handled-IsSound bus (interfaces_added p i) c h
  event_loop-IsSound bus (interfaces_removed p i) c h =
      handled-IsSound bus (interfaces_removed p i) c h
  event_loop-IsSound bus (properties_changed p i x y) c h =
      handled-IsSound bus (properties_changed p i x y) c h
  event_loop-IsSound bus (name_owner_changed n o w) c h =
      handled-IsSound bus (name_owner_changed n o w) c h
  event_loop-IsSound bus unreadable c h = handled-IsSound bus unreadable c h

  started-IsSound :
      (bus : Bus) (r : Outcome (Unit {0}) × List Request)
      → IsFaithful (started ⦃bus = bus⦄ r).1 × IsOpen (started ⦃bus = bus⦄ r).1
  unfolding started
  started-IsSound bus (throws e, log) = (created-IsFaithful, created-IsOpen)
  started-IsSound bus (ok x, log) =
      let m : Manager = record created { requests = log } in
      (
        get_managed_objects-IsFaithful ⦃bus = bus⦄ m created-IsFaithful,
        get_managed_objects-keeps IsOpen IsOpen-IsKept ⦃bus = bus⦄ m created-IsOpen,
      )

  opened-IsSound :
      (bus : Bus) (connection : Outcome (Unit {0}))
      → IsFaithful (opened ⦃bus = bus⦄ connection).1 × IsOpen (opened ⦃bus = bus⦄ connection).1
  opened-IsSound bus (throws e) = (created-IsFaithful, created-IsOpen)
  opened-IsSound bus (ok x) = started-IsSound bus (subscribe ⦃bus = bus⦄ [])

  create_registered-IsSound :
      ⦃platform : Platform⦄ (thread : Outcome (Unit {0})) (o : Outcome (Unit {0})) (m : Manager)
      (st : NativeState)
      → IsFaithful m × IsOpen m
      → IsSound st
      → IsSound (create_registered thread (o, m) st).1
  unfolding register
  create_registered-IsSound thread (throws e) m st g h = h
  create_registered-IsSound (throws e) (ok x) m st g h = h
  create_registered-IsSound (ok y) (ok x) m st (f, up) (clients, blocks) =
      (emplace_entry-AllValues IsSoundClient _ _ _ (f, inl (up, refl)) clients, blocks)

  ⟶-IsSound : {st st' : NativeState} → st ⟶ st' → IsSound st → IsSound st'
  unfolding bluez_obex_free bluez_obex_init bluez_obex_client_create bluez_obex_client_destroy
      signalled client_destroy change_client
  ⟶-IsSound (invoked {st} bus memory i) h =
      Contract-IsSound ⦃bus = bus⦄ (operation_of i) st _
        (invoke-Contract ⦃bus = bus⦄ ⦃memory = memory⦄ i st) h
  ⟶-IsSound (freed {st} buffer) (c, b) = (c, erase_entry-AreDistinct buffer st.blocks b)
  ⟶-IsSound (initialized {st} has_data initialize) h =
      if_intro IsSound (not has_data || st.dart_api_initialized) st _ (λ _. h) (λ _. h)
  ⟶-IsSound (client_created {st} platform bus events_port connection thread) h =
      if_intro (λ (r : ℕ × NativeState). IsSound r.1) (not st.dart_api_initialized || _) _ _
        (λ _. h)
        (λ _.
          create_registered-IsSound ⦃platform = platform⦄ thread _ _ _
            (opened-IsSound bus connection) h)
  ⟶-IsSound (client_destroyed {st} client) (c, b) =
      (erase_entry-AllValues IsSoundClient client st.clients.clients c, b)
  ⟶-IsSound (client_signalled {st} bus client signal) (c, b) = (
    update_entry-AllValues IsSoundClient client _ st.clients.clients (event_loop-IsSound bus signal)
        c,
    b,
  )

  ⟶*-IsSound : {st st' : NativeState} → st ⟶* st' → IsSound st → IsSound st'
  ⟶*-IsSound here h = h
  ⟶*-IsSound (next step steps) h = ⟶*-IsSound steps (⟶-IsSound step h)

  -- In every state that can be reached, whatever the services and `malloc` answer and however the
  -- calls and the signals interleave: the messages of each registered client describe the cache of
  -- its manager, its stream has not ended, or once, and in the latter case nothing is cached; and
  -- the blocks that are handed over and not yet freed are not empty and have addresses of their
  -- own, not null.
  pub reachable-IsSound : {st : NativeState} → loaded ⟶* st → IsSound st
  reachable-IsSound steps = ⟶*-IsSound steps (tt, tt)

  -- A handle that finds a client finds one whose messages describe its cache and whose stream has
  -- not ended.
  pub client_for-IsFaithful :
      {st : NativeState} (token : ℕ) (c : BluezObexClientContext)
      → loaded ⟶* st
      → client_for token st.clients ≡ some c
      → IsFaithful c.object_manager × (ends c.object_manager.posted ≡ 0)
  unfolding client_for
  client_for-IsFaithful {st} token c steps found =
      let (at, alive) = served (entry_at token st.clients.clients) found in
      let (f, stream) =
        entry_at-AllValues IsSoundClient token st.clients.clients c (reachable-IsSound steps).0
          at in
      (f, not_ended stream alive)
    where
      served :
          (o : Option BluezObexClientContext)
          → (elim o [ none ↦ none | some x ↦ if is_lost x then none else some x ]) ≡ some c
          → (o ≡ some c) × (is_lost c ≡ false)
      served none e = absurd (cc e)
      served (some x) e = ground arith

      contra : (a b : Bool) → b ≡ true → (a || b) ≡ false → ⊥
      contra a b p q = ground arith

      not_ended :
          (IsOpen c.object_manager × (c.failed ≡ false)) ⊎ IsClosed c.object_manager
          → is_lost c ≡ false
          → ends c.object_manager.posted ≡ 0
      not_ended (inl (up, h)) alive = up.1
      not_ended (inr closed) alive = absurd (contra c.failed c.object_manager.failed closed.0 alive)
