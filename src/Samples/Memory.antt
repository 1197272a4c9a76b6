-- ===== src/Samples/Memory.antt =====
-- A `malloc` that gives out an address above all that are in use.
use bluez_obex_native.Common.{ℕ, ◌+◌, ◌≡◌, ◌≤◌, refl, none, some, [], ◌∷◌, arith}
use bluez_obex_native.Entries.{entry_at}
use bluez_obex_native.Native.{Memory, Blocks}

abbrev pub above : Blocks → ℕ
above [] = 1
above ((address, payload) ∷ blocks) = 1 + address + above blocks

above-fresh :
    (address : ℕ) (blocks : Blocks) → above blocks ≤ address → entry_at address blocks ≡ none
unfolding entry_at
above-fresh address [] h = refl
above-fresh address ((taken, payload) ∷ blocks) h =
    ground (arith, above-fresh address blocks (omega arith))

above-positive : (blocks : Blocks) → 1 ≤ above blocks
above-positive [] = omega arith
above-positive ((address, payload) ∷ blocks) = omega arith

pub above-IsFree :
    (blocks : Blocks) (address : ℕ)
    → some (above blocks) ≡ some address
    → (1 ≤ address) × (entry_at address blocks ≡ none)
above-IsFree blocks address e =
    let same : above blocks ≡ address = cc in
    let positive : 1 ≤ above blocks = above-positive blocks in
    (omega arith, above-fresh address blocks (omega arith))

instance abbrev pub sample_memory : Memory
sample_memory = record {
  malloc = λ blocks size. some (above blocks);
  malloc-fresh = λ blocks size address e. above-IsFree blocks address e;
}
