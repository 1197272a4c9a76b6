-- ===== src/Wire.antt =====
-- native/include/glaze_meta.h: structs to bytes and back, field by field.
-- A buffer is the list of its bytes. `sizeof` data is written in the order of a little-endian
-- host. A read past the end of the buffer, undefined in C++, has the result `none`.
pub mod Integers
pub mod Laws
pub mod Fields
pub mod Vectors
pub mod Structs
pub mod Maps
use bluez_obex_native.Common.{
  ℕ, zero, suc, ◌+◌, ◌-◌, ◌*◌, ◌/◌, ◌%◌, ◌^◌, Bool, true, false, not, Option, none, some, List, [],
  ◌∷◌, ◌++◌, length, take, drop, get_elem?, leb, ltb, eqb, if◌then◌else◌,
}
use bluez_obex_native.Common.Int.{ℤ, pos, negsuc}
use bluez_obex_native.Common.Options.{◌>>=◌}
use bluez_obex_native.Common.Strings.{Str}
use bluez_obex_native.OrderedMap
use bluez_obex_native.OrderedMap.{OrderedMap}

abbrev pub Buffer : Type 0
Buffer = List ℕ

-- What a `decode_field` leaves behind: the value and the offset past it.
abbrev pub Decoded : Type 0 → Type 0
Decoded A = Option (A × ℕ)

unfoldable pub write_bytes : Buffer → List ℕ → Buffer
write_bytes buf bs = buf ++ bs

pub read_bytes : Buffer → ℕ → ℕ → Decoded (List ℕ)
read_bytes buf offset n =
    if leb (offset + n) (length buf) then some (take n (drop offset buf), offset + n) else none

-- The bytes of an unsigned integer of `n` bytes.
unfoldable pub le_bytes : ℕ → ℕ → List ℕ
le_bytes zero v = []
le_bytes (suc n) v = (v % 256) ∷ le_bytes n (v / 256)

pub from_le_bytes : List ℕ → ℕ
from_le_bytes [] = 0
from_le_bytes (b ∷ bs) = b + 256 * from_le_bytes bs

-- The two overloads that C++ picks by the type of a field.
pub record Codec (A : Type 0) : Type 0 where
  pub encode_field : Buffer → A → Buffer
  pub decode_field : Buffer → ℕ → Decoded A

unfoldable pub encode_u8 : Buffer → ℕ → Buffer
encode_u8 buf v = buf ++ v ∷ []

pub decode_u8 : Buffer → ℕ → Decoded ℕ
decode_u8 buf offset = do v ← get_elem? buf offset; some (v, offset + 1)

pub encode_bool : Buffer → Bool → Buffer
encode_bool buf v = buf ++ (if v then 1 else 0) ∷ []

pub decode_bool : Buffer → ℕ → Decoded Bool
decode_bool buf offset = do v ← get_elem? buf offset; some (not (eqb v 0), offset + 1)

-- `uint16_t`, `uint32_t` and `uint64_t`, by the number of bytes.
unfoldable pub encode_uint : ℕ → Buffer → ℕ → Buffer
unfolding write_bytes le_bytes
encode_uint n buf v = write_bytes buf (le_bytes n v)

pub decode_uint : ℕ → Buffer → ℕ → Decoded ℕ
unfolding read_bytes from_le_bytes
decode_uint n buf offset = do (bs, next) ← read_bytes buf offset n; some (from_le_bytes bs, next)

-- The two's complement pattern of an `int16_t`.
abbrev pub to_pattern16 : ℤ → ℕ
to_pattern16 (pos n) = n % 2 ^ 16
to_pattern16 (negsuc n) = 2 ^ 16 - 1 - n % 2 ^ 16

abbrev pub of_pattern16 : ℕ → ℤ
of_pattern16 w = if ltb w (2 ^ 15) then pos w else negsuc (2 ^ 16 - 1 - w)

pub encode_i16 : Buffer → ℤ → Buffer
unfolding encode_uint
encode_i16 buf v = encode_uint 2 buf (to_pattern16 v)

pub decode_i16 : Buffer → ℕ → Decoded ℤ
unfolding decode_uint
decode_i16 buf offset = do (w, next) ← decode_uint 2 buf offset; some (of_pattern16 w, next)

-- `static_cast<uint32_t>(n)`.
abbrev pub to_uint32 : ℕ → ℕ
to_uint32 n = n % 2 ^ 32

-- `std::string`, and `std::vector<uint8_t>`, which is written alike.
unfoldable pub encode_string : Buffer → Str → Buffer
unfolding encode_uint write_bytes
encode_string buf s = write_bytes (encode_uint 4 buf (to_uint32 (length s))) s

pub decode_string : Buffer → ℕ → Decoded Str
unfolding decode_uint read_bytes
decode_string buf offset = do (len, start) ← decode_uint 4 buf offset; read_bytes buf start len

-- The loops over the items of a vector.
pub encode_each : {A : Type 0} → (Buffer → A → Buffer) → Buffer → List A → Buffer
encode_each encode buf [] = buf
encode_each encode buf (x ∷ xs) = encode_each encode (encode buf x) xs

pub decode_each : {A : Type 0} → (Buffer → ℕ → Decoded A) → ℕ → Buffer → ℕ → Decoded (List A)
decode_each decode zero buf offset = some ([], offset)
decode_each decode (suc count) buf offset = do
  (x, next) ← decode buf offset
  (xs, end) ← decode_each decode count buf next
  some (x ∷ xs, end)

-- `std::vector<std::string>`, and a vector of structs.
pub encode_vector : {A : Type 0} → (Buffer → A → Buffer) → Buffer → List A → Buffer
unfolding encode_uint encode_each
encode_vector encode buf xs = encode_each encode (encode_uint 4 buf (to_uint32 (length xs))) xs

pub decode_vector : {A : Type 0} → (Buffer → ℕ → Decoded A) → Buffer → ℕ → Decoded (List A)
unfolding decode_uint decode_each
decode_vector decode buf offset = do
  (count, start) ← decode_uint 4 buf offset
  decode_each decode count buf start

-- `std::map<std::string, std::vector<uint8_t>>`.
pub encode_entry : Buffer → Str × Str → Buffer
unfolding encode_string
encode_entry buf (key, val) = encode_string (encode_string buf key) val

pub encode_map : Buffer → OrderedMap Str → Buffer
unfolding encode_vector encode_entry
encode_map buf m = encode_vector encode_entry buf m

pub decode_entries : ℕ → OrderedMap Str → Buffer → ℕ → Decoded (OrderedMap Str)
unfolding decode_string
decode_entries zero m buf offset = some (m, offset)
decode_entries (suc count) m buf offset = do
  (key, middle) ← decode_string buf offset
  (val, next) ← decode_string buf middle
  decode_entries count (OrderedMap.insert key val m) buf next

pub decode_map : Buffer → ℕ → Decoded (OrderedMap Str)
unfolding decode_uint decode_entries
decode_map buf offset = do
  (count, start) ← decode_uint 4 buf offset
  decode_entries count [] buf start

-- `glz::field(name, &T::member)`: the member pointer as the two ways to use it. The name is not
-- written to the wire. A list of these is `meta<T>::fields`.
pub data FieldDescriptors (T : Type 0) : Type 1 where
  done : FieldDescriptors T
  field : {A : Type 0} → Codec A → (T → A) → (A → T → T) → FieldDescriptors T → FieldDescriptors T

unfoldable pub encode_impl : {T : Type 0} → FieldDescriptors T → Buffer → T → Buffer
encode_impl done buf obj = buf
encode_impl (field c get set fs) buf obj = encode_impl fs (c.encode_field buf (get obj)) obj

pub decode_impl : {T : Type 0} → FieldDescriptors T → Buffer → ℕ → T → Decoded T
decode_impl done buf offset obj = some (obj, offset)
decode_impl (field c get set fs) buf offset obj = do
  (v, next) ← c.decode_field buf offset
  decode_impl fs buf next (set v obj)

-- `meta<T>`, with the value that `T{}` has.
pub record Meta (T : Type 0) : Type 1 where
  pub fields : FieldDescriptors T
  pub initial : T

module _ {T : Type 0} ⦃m : Meta T⦄ where
  unfoldable pub encode_struct : Buffer → T → Buffer
  unfolding encode_impl
  encode_struct buf obj = encode_impl m.fields buf obj

  pub decode_struct : Buffer → ℕ → T → Decoded T
  unfolding decode_impl
  decode_struct buf offset obj = decode_impl m.fields buf offset obj

  unfoldable pub encode : T → Buffer
  unfolding encode_struct
  encode obj = encode_struct [] obj

  pub decode : Buffer → ℕ → T → Decoded T
  unfolding decode_struct
  decode buf offset obj = decode_struct buf offset obj

abbrev pub u8 : Codec ℕ
u8 = record { encode_field = encode_u8; decode_field = decode_u8 }

abbrev pub boolean : Codec Bool
boolean = record { encode_field = encode_bool; decode_field = decode_bool }

abbrev pub i16 : Codec ℤ
i16 = record { encode_field = encode_i16; decode_field = decode_i16 }

abbrev pub uint : ℕ → Codec ℕ
uint n = record { encode_field = encode_uint n; decode_field = decode_uint n }

abbrev pub string : Codec Str
string = record { encode_field = encode_string; decode_field = decode_string }

abbrev pub strings : Codec (List Str)
strings = record {
  encode_field = encode_vector encode_string;
  decode_field = decode_vector decode_string;
}

abbrev pub blobs : Codec (OrderedMap Str)
blobs = record { encode_field = encode_map; decode_field = decode_map }

-- A vector of structs; each new item starts as `T{}`.
abbrev pub structs : {T : Type 0} ⦃m : Meta T⦄ → Codec (List T)
structs ⦃m⦄ = record {
  encode_field = encode_vector encode_struct;
  decode_field = decode_vector (λ buf offset. decode_struct buf offset m.initial);
}
