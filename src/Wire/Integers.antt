-- ===== src/Wire/Integers.antt =====
-- The bytes of an unsigned integer, and reads of whole runs of bytes.
use bluez_obex_native.Common.{
  ℕ, zero, suc, ◌+◌, ◌/◌, ◌^◌, ◌≤◌, ◌<◌, ◌≡◌, refl, ap, some, List, [], ◌∷◌, ◌++◌, arith, All,
  length, length-append, drop, take-append, take-drop-append, le→leb,
}
use bluez_obex_native.Wire.{Buffer, le_bytes, from_le_bytes, read_bytes}
use bluez_obex_native.Wire.Laws.{IsByte}

pub length-le_bytes : (n v : ℕ) → length (le_bytes n v) ≡ n
unfolding le_bytes
length-le_bytes zero v = refl
length-le_bytes (suc n) v = ap suc (length-le_bytes n (v / 256))

pub le_bytes-IsByte : (n v : ℕ) → All IsByte (le_bytes n v)
unfolding le_bytes
le_bytes-IsByte zero v = tt
le_bytes-IsByte (suc n) v = (omega arith, le_bytes-IsByte n (v / 256))

-- The bytes of a number that fits read back as that number.
pub from_le_bytes-le_bytes : (n v : ℕ) → v < 256 ^ n → from_le_bytes (le_bytes n v) ≡ v
unfolding le_bytes from_le_bytes
from_le_bytes-le_bytes zero v h = omega arith
from_le_bytes-le_bytes (suc n) v h = omega (arith, from_le_bytes-le_bytes n (v / 256) (omega arith))

drop-length-append : (front xs : Buffer) → drop (length front) (front ++ xs) ≡ xs
drop-length-append [] xs = refl
drop-length-append (b ∷ front) xs = drop-length-append front xs

-- A read of the bytes that stand at the offset.
pub read_bytes-append :
    (front bs rest : Buffer) (n : ℕ)
    → n ≡ length bs
    → read_bytes (front ++ (bs ++ rest)) (length front) n ≡ some (bs, length front + n)
unfolding read_bytes
read_bytes-append front bs rest n h = rw (h, le→leb _ _ fits, drop-length-append, take-append)
  where
    fits : length front + length bs ≤ length (front ++ (bs ++ rest))
    fits = omega (arith, length-append front (bs ++ rest), length-append bs rest)

-- A read inside the buffer is the same read when bytes are added behind it.
pub read_bytes_extends :
    (buf more : Buffer) (offset n : ℕ) (bs : List ℕ) (next : ℕ)
    → read_bytes buf offset n ≡ some (bs, next)
    → read_bytes (buf ++ more) offset n ≡ some (bs, next)
unfolding read_bytes
read_bytes_extends buf more offset n bs next h =
    ground (arith, length-append buf more, take-drop-append n offset buf more)

pub read_bytes_within :
    (buf : Buffer) (offset n : ℕ) (bs : List ℕ) (next : ℕ)
    → read_bytes buf offset n ≡ some (bs, next)
    → (next ≡ offset + n) × (next ≤ length buf)
unfolding read_bytes
read_bytes_within buf offset n bs next h = ground arith
