-- ===== src/Native/Delivery.antt =====
-- What is handed over: the blocks are given back, and hold what the services answered.
use bluez_obex_native.Common.{
  ℕ, ◌+◌, ◌≡◌, ◌≤◌, refl, true, false, none, some, List, [], ◌∷◌, ◌++◌, append-nil, length, eqb,
  ltb, get_or, arith,
}
use bluez_obex_native.Common.Int.{pos}
use bluez_obex_native.Common.Strings.{Str}
use bluez_obex_native.Entries.{entry_at, erase_entry}
use bluez_obex_native.Wire.{Buffer, Meta, encode, decode}
use bluez_obex_native.Wire.Structs.{IsComplete, FitsStruct, decode-encode}
use bluez_obex_native.Sdbus.{Sdbus, ok}
use bluez_obex_native.Bus.{Bus, Request}
use bluez_obex_native.Calls.{Task}
use bluez_obex_native.Native.{
  Memory, Blocks, int32_max, NativeState, Returned, allocate, copy_data, call_bytes,
}
use bluez_obex_native.Native.Invocations.{operation_of, Invocation, invoke}
use bluez_obex_native.Native.Contract.{
  Contract, refusal, unreachable, failed, too_long, number, delivered, invoke-Contract, result,
}
use bluez_obex_native.Native.Lifecycle.{bluez_obex_free}

erase_entry-absent :
    (key : ℕ) (blocks : Blocks) → entry_at key blocks ≡ none → erase_entry key blocks ≡ blocks
unfolding entry_at erase_entry
erase_entry-absent key [] h = refl
erase_entry-absent key ((k, x) ∷ blocks) h = ground (arith, erase_entry-absent key blocks)

erase_entry-head :
    (key : ℕ) (x : Buffer) (blocks : Blocks)
    → entry_at key blocks ≡ none
    → erase_entry key ((key, x) ∷ blocks) ≡ blocks
unfolding erase_entry
erase_entry-head key x blocks h = ground (arith, erase_entry-absent key blocks h)

module _ ⦃s : Sdbus⦄ where
  -- The address in `*out`, null for none.
  abbrev pub out_address : Returned → ℕ
  out_address r = get_or r.out 0

  freed_after :
      ⦃bus : Bus⦄ (operation : Str) (st : NativeState) (r : Returned × NativeState)
      → Contract operation st r
      → entry_at 0 st.blocks ≡ none
      → (bluez_obex_free (out_address r.0) r.1).blocks ≡ st.blocks
  unfolding bluez_obex_free
  freed_after operation st r (refusal e) h = rw e (erase_entry-absent 0 st.blocks h)
  freed_after operation st r (unreachable request name message u e) h =
      rw e (erase_entry-absent 0 st.blocks h)
  freed_after operation st r (failed asked name message reached e) h =
      rw e (erase_entry-absent 0 st.blocks h)
  freed_after operation st r (too_long payload asked reached l e) h =
      rw e (erase_entry-absent 0 st.blocks h)
  freed_after operation st r (number n asked reached e) h = rw e (erase_entry-absent 0 st.blocks h)
  freed_after operation st r (delivered payload address asked reached lo hi positive fresh e) h =
      rw e (erase_entry-head address payload st.blocks fresh)

  module _ ⦃bus : Bus⦄ ⦃memory : Memory⦄ where
    -- Where null is the address of no block, freeing what a call has left in `*out`, null included,
    -- leaves just the blocks from before the call, whichever call it was and however it ended.
    pub free-invoke :
        (i : Invocation) (st : NativeState)
        → entry_at 0 st.blocks ≡ none
        → (bluez_obex_free (out_address (invoke i st).0) (invoke i st).1).blocks ≡ st.blocks
    free-invoke i st h = freed_after (operation_of i) st (invoke i st) (invoke-Contract i st) h

  module _ ⦃memory : Memory⦄ where
    -- A task that returns a struct which fits the format, of an encoding that is not empty and not
    -- longer than INT32_MAX, and a block for it: the call returns the length, and what the block
    -- holds decodes to the struct.
    pub call_bytes-decode :
        {T : Type 0} (m : Meta T) (k : IsComplete m) (label : Str) (fn : Task Buffer) (x y : T)
        (asked : List Request) (st : NativeState) (address : ℕ)
        → FitsStruct m k x
        → fn [] ≡ (ok (encode ⦃m = m⦄ x), asked)
        → 1 ≤ length (encode ⦃m = m⦄ x)
        → length (encode ⦃m = m⦄ x) ≤ int32_max
        → memory.malloc st.blocks (length (encode ⦃m = m⦄ x)) ≡ some address
        → (block : Buffer) × (call_bytes label fn true st
            ≡ result
                (pos (length block))
                (some address)
                asked
                (record st { blocks = (address, block) ∷ st.blocks }))
          × (decode ⦃m = m⦄ block 0 y ≡ some (x, length block))
    unfolding call_bytes copy_data allocate
    call_bytes-decode m k label fn x y asked st address fits e lo hi got =
        let block : Buffer = encode ⦃m = m⦄ x in
        let short : ltb int32_max (length block) ≡ false = ground arith in
        let filled : eqb (length block) 0 ≡ false = ground arith in
        let zero : 0 + length block ≡ length block = omega arith in
        let decoded : decode ⦃m = m⦄ (block ++ []) 0 y ≡ some (x, 0 + length block) =
          (decode-encode m k [] x [] y fits).1 in
        (block, rw (e, call_bytes, short, filled, got) refl, rw (append-nil block, zero) at decoded)
