-- ===== src/Native.antt =====
-- native/src/bluez_obex_client.cpp: the state behind the C interface, and what its entry points
-- share: the guards on their arguments, the copy of a payload, and the error that is kept.
pub mod Arguments
pub mod Filtering
pub mod Sessions
pub mod Phonebooks
pub mod Messages
pub mod Invocations
pub mod Lifecycle
pub mod Contract
pub mod Errors
pub mod Delivery
pub mod Answers
pub mod Reach
pub mod Stale
use bluez_obex_native.Common.{
  ℕ, ◌^◌, ◌-◌, Bool, true, false, ◌≡◌, ◌≤◌, not, Option, none, some, List, [], ◌∷◌, length, ltb,
  eqb, is_empty, if◌then◌else◌,
}
use bluez_obex_native.Common.Int.{ℤ, pos, negsuc}
use bluez_obex_native.Common.Strings.{Str, bytes}
use bluez_obex_native.Entries.{entry_at, erase_entry}
use bluez_obex_native.Wire.{Buffer}
use bluez_obex_native.Sdbus.{Sdbus, Exception, dbus_error, std_exception, Outcome, ok, throws}
use bluez_obex_native.Bus.{Request}
use bluez_obex_native.Calls.{Task}
use bluez_obex_native.Types.Objects.{BluezObexError}
use bluez_obex_native.Registry.{ClientRegistry, client_for, BluezObexClientContext}

-- The blocks that `malloc` has given out and that have not been freed, under their addresses.
abbrev pub Blocks : Type 0
Blocks = List (ℕ × Buffer)

-- `malloc`: an address that is not null and not that of a block, or none.
pub record Memory : Type 0 where
  pub malloc : Blocks → ℕ → Option ℕ
  pub malloc-fresh :
      (blocks : Blocks) (size address : ℕ)
      → malloc blocks size ≡ some address
      → (1 ≤ address) × (entry_at address blocks ≡ none)

abbrev pub int32_max : ℕ
int32_max = 2 ^ 31 - 1

-- The results -1 and -3.
abbrev pub refused : ℤ
refused = negsuc 0

abbrev pub failure : ℤ
failure = negsuc 2

abbrev pub no_error : BluezObexError
no_error = record { object_path = []; name = []; message = [] }

unfoldable pub record_error : Str → Exception → BluezObexError
record_error operation (dbus_error name message) = record {
  object_path = operation;
  name = name;
  message = message;
}
record_error operation (std_exception what) = record {
  object_path = operation;
  name = bytes "org.bluez.obex.Error.Failed";
  message = what;
}

-- What `copy_data` returns, what it leaves in `*out`, and the blocks after it. `has_out` tells that
-- `out` is not null.
abbrev pub Copied : Type 0
Copied = ℤ × Option ℕ × Blocks

module _ ⦃memory : Memory⦄ where
  unfoldable pub allocate : Buffer → Blocks → Option ℕ → Outcome Copied
  allocate payload blocks none = throws (std_exception (bytes "std::bad_alloc"))
  allocate payload blocks (some address) =
      ok (pos (length payload), some address, (address, payload) ∷ blocks)

  unfoldable pub copy_data : Bool → Buffer → Blocks → Outcome Copied
  unfolding allocate
  copy_data has_out payload blocks =
      if not has_out
      then ok (refused, none, blocks)
      else if ltb int32_max (length payload)
      then ok (refused, none, blocks)
      else if eqb (length payload) 0
      then ok (pos 0, none, blocks)
      else allocate payload blocks (memory.malloc blocks (length payload))

-- What a call returns: its status, the address in `*out`, and the requests that it made.
module _ ⦃s : Sdbus⦄ where
  pub record Returned : Type 0 where
    pub status : ℤ
    pub out : Option ℕ
    pub asked : List Request

  -- The globals of the file; `last_error` is that of the one thread that calls.
  pub record NativeState : Type 0 where
    pub dart_api_initialized : Bool
    pub last_error : BluezObexError
    pub clients : ClientRegistry
    pub blocks : Blocks

  abbrev pub Call : Type 0
  Call = NativeState → Returned × NativeState

  -- `return -1` before anything is done.
  abbrev pub rejected : Call
  rejected st = (record { status = refused; out = none; asked = [] }, st)

  -- `if (out == nullptr) return -1; *out = nullptr;`
  abbrev pub with_out : Bool → Call → Call
  with_out has_out call st = if has_out then call st else rejected st

  abbrev pub with_handle : ℕ → Call → Call
  with_handle handle call st = if eqb handle 0 then rejected st else call st

  -- A text argument that must not be null.
  abbrev pub given : Option Str → (Str → Call) → Call
  given none call st = rejected st
  given (some text) call st = call text st

  abbrev pub with_found : Option BluezObexClientContext → Call → Call
  with_found none call st = rejected st
  with_found (some context) call st = call st

  abbrev pub with_client : ℕ → Call → Call
  with_client handle call st = with_found (client_for handle st.clients) call st

  -- The `catch` clauses.
  abbrev pub caught : Str → List Request → Exception → Call
  caught label asked e st = (
    record { status = failure; out = none; asked = asked },
    record st { last_error = record_error label e },
  )

  abbrev pub copied : Str → List Request → Outcome Copied → Call
  copied label asked (ok (status, address, blocks)) st =
      (record { status = status; out = address; asked = asked }, record st { blocks = blocks })
  copied label asked (throws e) st = caught label asked e st

  module _ ⦃memory : Memory⦄ where
    -- `copy_payload(fn(), out)` and the `catch` clauses around it.
    abbrev pub deliver : Str → Bool → Outcome Buffer × List Request → Call
    deliver label has_out (ok payload, asked) st =
        copied label asked (copy_data has_out payload st.blocks) st
    deliver label has_out (throws e, asked) st = caught label asked e st

    unfoldable pub call_bytes : Str → Task Buffer → Bool → Call
    call_bytes label fn has_out st = deliver label has_out (fn []) st

  abbrev pub settle : {A : Type 0} → (A → ℤ) → Str → Outcome A × List Request → Call
  settle to_status label (ok x, asked) st =
      (record { status = to_status x; out = none; asked = asked }, st)
  settle to_status label (throws e, asked) st = caught label asked e st

  unfoldable pub call_status : Str → Task (Unit {0}) → Call
  call_status label fn st = settle (λ _. pos 0) label (fn []) st

  -- `return …get_size()` and the `catch` clauses around it.
  unfoldable pub call_number : Str → Task ℕ → Call
  call_number label fn st = settle pos label (fn []) st
