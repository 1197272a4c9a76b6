-- ===== src/Native/Contract.antt =====
-- What a caller can rely on after each call of the C interface.
use bluez_obex_native.Common.{
  ◌⊎◌, ℕ, ◌≡◌, ◌≤◌, ◌<◌, refl, Bool, true, false, Option, none, some, List, [], ◌∷◌, length, eqb,
  ltb, Bool-cases, inl, inr, if_intro, arith,
}
use bluez_obex_native.Common.Int.{ℤ, pos}
use bluez_obex_native.Common.Strings.{Str, bytes}
use bluez_obex_native.Entries.{entry_at}
use bluez_obex_native.Wire.{Buffer}
use bluez_obex_native.Sdbus.{Sdbus, Exception, dbus_error, std_exception, Outcome, ok, throws}
use bluez_obex_native.Bus.{Bus, Request, Answer, reply, error, nothing}
use bluez_obex_native.Calls.{Task}
use bluez_obex_native.Registry.{BluezObexClientContext, client_for}
use bluez_obex_native.Native.{
  record_error, failure, Memory, int32_max, refused, allocate, copy_data, Returned, NativeState,
  Call, rejected, with_out, with_handle, given, with_found, caught, copied, deliver, settle,
  call_bytes, call_status, call_number,
}
use bluez_obex_native.Native.Invocations.{
  Invocation, handle_of, operation_of, First, IsServed, invoke,
}
use bluez_obex_native.Native.Invocations.Passes.{passes}

module _ ⦃s : Sdbus⦄ where
  -- The returned status, the address in `*out` and the requests, with a state.
  abbrev pub result : ℤ → Option ℕ → List Request → NativeState → Returned × NativeState
  result status out asked st = (record { status = status; out = out; asked = asked }, st)

  -- The state with an error that is kept.
  abbrev pub recorded : Str → Str → Str → NativeState → NativeState
  recorded operation name message st = record st {
    last_error = record { object_path = operation; name = name; message = message };
  }

  -- The first request of a call was answered.
  abbrev IsReached : ⦃bus : Bus⦄ → Type 0
  IsReached ⦃bus⦄ = (r : Request) × (bus.respond nothing [] r ≡ reply tt)

  -- One of: nothing was done, and the result is -1; the first request failed, which was the only
  -- one, the result is -3, and the error that is kept has the name of the entry point and the name
  -- and the message of that answer. Or the first request was answered, and: the result is -3, and
  -- the error that is kept has the name of the entry point; the payload was longer than an `int`
  -- can tell, and the result is -1; the result is a number, and nothing is handed over; the result
  -- is the length of a payload, which is handed over in a block that was not in use. Nothing else
  -- has changed, and the address is null in all cases but the last.
  pub data Contract ⦃bus : Bus⦄ (operation : Str) (st : NativeState) (r : Returned × NativeState)
      : Type 0 where
    refusal : r ≡ rejected st → Contract operation st r
    unreachable :
        (request : Request) (name message : Str)
        → bus.respond nothing [] request ≡ error name message
        → r ≡ result failure none (request ∷ []) (recorded operation name message st)
        → Contract operation st r
    failed :
        (asked : List Request) (name message : Str)
        → IsReached
        → r ≡ result failure none asked (recorded operation name message st)
        → Contract operation st r
    too_long :
        (payload : Buffer) (asked : List Request)
        → IsReached
        → int32_max < length payload
        → r ≡ result refused none asked st
        → Contract operation st r
    number :
        (n : ℕ) (asked : List Request)
        → IsReached
        → r ≡ result (pos n) none asked st
        → Contract operation st r
    delivered :
        (payload : Buffer) (address : ℕ) (asked : List Request)
        → IsReached
        → 1 ≤ length payload
        → length payload ≤ int32_max
        → 1 ≤ address
        → entry_at address st.blocks ≡ none
        → r
          ≡ result
              (pos (length payload))
              (some address)
              asked
              (record st { blocks = (address, payload) ∷ st.blocks })
        → Contract operation st r

  caught-Contract :
      ⦃bus : Bus⦄ (label : Str) (asked : List Request) (e : Exception) (st : NativeState)
      → IsReached
      → Contract label st (caught label asked e st)
  unfolding record_error
  caught-Contract label asked (dbus_error name message) st reached =
      failed asked name message reached refl
  caught-Contract label asked (std_exception what) st reached =
      failed asked (bytes "org.bluez.obex.Error.Failed") what reached refl

  module _ ⦃bus : Bus⦄ ⦃memory : Memory⦄ where
    copied-Contract :
        (label : Str) (asked : List Request) (payload : Buffer) (st : NativeState) (o : Option ℕ)
        → memory.malloc st.blocks (length payload) ≡ o
        → 1 ≤ length payload
        → length payload ≤ int32_max
        → IsReached
        → Contract label st (copied label asked (allocate payload st.blocks o) st)
    unfolding allocate
    copied-Contract label asked payload st none e lo hi reached =
        caught-Contract label asked _ st reached
    copied-Contract label asked payload st (some address) e lo hi reached =
        let (positive, fresh) = memory.malloc-fresh st.blocks (length payload) address e in
        delivered payload address asked reached lo hi positive fresh refl

    copy_data-Contract :
        (label : Str) (has_out : Bool) (asked : List Request) (payload : Buffer) (st : NativeState)
        → has_out ≡ true
        → IsReached
        → Contract label st (copied label asked (copy_data has_out payload st.blocks) st)
    unfolding copy_data
    copy_data-Contract label has_out asked payload st out reached =
        elim (Bool-cases (ltb int32_max (length payload))) [
          | inl long ↦ rw (out, long, copied) (too_long payload asked reached (ground arith) refl)
          | inr short ↦ elim (Bool-cases (eqb (length payload) 0)) [
            | inl empty ↦ rw (out, short, empty, copied) (number 0 asked reached refl)
            | inr filled ↦
                rw (out, short, filled)
                  (copied-Contract label asked payload st _ refl (ground arith) (ground arith)
                    reached)
          ]
        ]

    deliver-Contract :
        (label : Str) (has_out : Bool) (o : Outcome Buffer × List Request) (st : NativeState)
        → has_out ≡ true
        → IsReached
        → Contract label st (deliver label has_out o st)
    deliver-Contract label has_out (ok payload, asked) st out reached =
        copy_data-Contract label has_out asked payload st out reached
    deliver-Contract label has_out (throws e, asked) st out reached =
        caught-Contract label asked e st reached

  settle-Contract :
      ⦃bus : Bus⦄ {A : Type 0} (to_number : A → ℕ) (label : Str) (o : Outcome A × List Request)
      (st : NativeState)
      → IsReached
      → Contract label st (settle (λ x. pos (to_number x)) label o st)
  settle-Contract to_number label (ok x, asked) st reached = number (to_number x) asked reached refl
  settle-Contract to_number label (throws e, asked) st reached =
      caught-Contract label asked e st reached

  -- An answer is a reply or an error.
  answer-cases :
      {A : Type 0} (a : Answer A)
      → ((x : A) × (a ≡ reply x)) ⊎ ((name : Str) × (message : Str) × (a ≡ error name message))
  answer-cases (reply x) = inl (x, refl)
  answer-cases (error name message) = inr (name, message, refl)

  module _ (P : Returned × NativeState → Type 0) (st : NativeState) (r : P (rejected st)) where
    with_out-intro :
        (has_out : Bool) (c : Call) → (has_out ≡ true → P (c st)) → P (with_out has_out c st)
    with_out-intro true c h = h refl
    with_out-intro false c h = r

    with_handle-intro : (handle : ℕ) (c : Call) → P (c st) → P (with_handle handle c st)
    with_handle-intro handle c h = if_intro P (eqb handle 0) (rejected st) (c st) (λ _. r) (λ _. h)

    given-intro :
        (arg : Option Str) (f : Str → Call) → ((x : Str) → P (f x st)) → P (given arg f st)
    given-intro none f h = r
    given-intro (some x) f h = h x

    with_found-intro :
        (o : Option BluezObexClientContext) (c : Call)
        → ((x : BluezObexClientContext) → o ≡ some x → P (c st))
        → P (with_found o c st)
    with_found-intro none c h = r
    with_found-intro (some x) c h = h x refl

    module _ ⦃bus : Bus⦄ ⦃memory : Memory⦄ where
      -- What holds where nothing is done, and of what each call does for a client that is served,
      -- holds of every call.
      invoke-intro :
          (i : Invocation)
          → (IsServed (handle_of i) st
              → (label : Str) (fn : Task Buffer) (has_out : Bool) → label ≡ operation_of i
              → First fn
              → has_out ≡ true
              → P (call_bytes label fn has_out st))
          → (IsServed (handle_of i) st
              → (label : Str) (fn : Task (Unit {0})) → label ≡ operation_of i
              → First fn
              → P (call_status label fn st))
          → (IsServed (handle_of i) st
              → (label : Str) (fn : Task ℕ) → label ≡ operation_of i
              → First fn
              → P (call_number label fn st))
          → P (invoke i st)
      invoke-intro =
          passes (λ c. P (c st)) st with_out-intro with_handle-intro given-intro
            (λ handle c h. with_found-intro (client_for handle st.clients) c (λ x e. h (x, e)))

  module _ ⦃bus : Bus⦄ ⦃memory : Memory⦄ where
    -- A task whose first request fails has thrown that, and else it was reached.
    First-cases :
        {A : Type 0} (fn : Task A)
        → First fn
        → IsReached
          ⊎ ((request : Request) × (name : Str) × (message : Str) × (bus.respond nothing [] request
                ≡ error name message)
              × (fn [] ≡ (throws (dbus_error name message), request ∷ [])))
    First-cases fn (request, fails) = elim (answer-cases (bus.respond nothing [] request)) [
      | inl (x, e) ↦ inl (request, e)
      | inr (name, message, e) ↦ inr (request, name, message, e, fails name message e)
    ]

    call_bytes-Contract :
        (label : Str) (fn : Task Buffer) (has_out : Bool) (st : NativeState)
        → First fn
        → has_out ≡ true
        → Contract label st (call_bytes label fn has_out st)
    unfolding call_bytes record_error
    call_bytes-Contract label fn has_out st starts out = elim (First-cases fn starts) [
      | inl reached ↦ deliver-Contract label has_out (fn []) st out reached
      | inr (request, name, message, e, thrown) ↦
          unreachable request name message e (rw (thrown, deliver, caught) refl)
    ]

    call_status-Contract :
        (label : Str) (fn : Task (Unit {0})) (st : NativeState)
        → First fn
        → Contract label st (call_status label fn st)
    unfolding call_status record_error
    call_status-Contract label fn st starts = elim (First-cases fn starts) [
      | inl reached ↦ settle-Contract (λ _. 0) label (fn []) st reached
      | inr (request, name, message, e, thrown) ↦
          unreachable request name message e (rw (thrown, settle, caught) refl)
    ]

    call_number-Contract :
        (label : Str) (fn : Task ℕ) (st : NativeState)
        → First fn
        → Contract label st (call_number label fn st)
    unfolding call_number record_error
    call_number-Contract label fn st starts = elim (First-cases fn starts) [
      | inl reached ↦ settle-Contract (λ n. n) label (fn []) st reached
      | inr (request, name, message, e, thrown) ↦
          unreachable request name message e (rw (thrown, settle, caught) refl)
    ]

    -- Every call of the C interface, with any arguments and any answers, keeps the contract above.
    -- Either it does nothing and returns -1; or its first request fails, it asks nothing more,
    -- returns -3, and keeps an error with the name of the entry point and the name and message of
    -- that answer; or that request was answered, and it returns -3 and keeps an error with the name
    -- of the entry point, or returns -1 where the payload is longer than INT32_MAX, or returns a
    -- number that is not negative and either hands nothing over or a block that was not in use, of
    -- just that length. Nothing else changes.
    pub invoke-Contract :
        (i : Invocation) (st : NativeState) → Contract (operation_of i) st (invoke i st)
    invoke-Contract i st =
        invoke-intro (Contract (operation_of i) st) st (refusal refl) i
          (λ _ label fn has_out name starts e.
            rw (← name) (call_bytes-Contract label fn has_out st starts e))
          (λ _ label fn name starts. rw (← name) (call_status-Contract label fn st starts))
          (λ _ label fn name starts. rw (← name) (call_number-Contract label fn st starts))

    -- A call on a handle that finds no client does nothing, asks no service for anything, and
    -- returns -1.
    pub invoke-lost :
        (i : Invocation) (handle : ℕ) (st : NativeState)
        → handle_of i ≡ some handle
        → client_for handle st.clients ≡ none
        → invoke i st ≡ rejected st
    invoke-lost i handle st e lost =
        invoke-intro (λ r. r ≡ rejected st) st refl i
          (λ served label fn has_out name starts out. absurd (nobody (handle_of i) e served))
          (λ served label fn name starts. absurd (nobody (handle_of i) e served))
          (λ served label fn name starts. absurd (nobody (handle_of i) e served))
      where
        nobody : (o : Option ℕ) → o ≡ some handle → IsServed o st → ⊥
        nobody none p served = cc
        nobody (some h) p (c, found) = let same : h ≡ handle = cc in cc (rw same at found)
