-- ===== src/Sdbus.antt =====
-- The parts of sdbus-c++ (native/third_party, not in the repository) that the native code calls,
-- and the exceptions that cross it.
use bluez_obex_native.Common.{ℕ, ◌≡◌, Bool, true, false, List, []}
use bluez_obex_native.Common.Int.{ℤ, pos}
use bluez_obex_native.Common.Strings.{Str}

-- `sdbus::Error` with its name and message, and any other `std::exception` with its `what()`.
pub data Exception : Type 0 where
  dbus_error : Str → Str → Exception
  std_exception : Str → Exception

-- A call that returns or throws.
pub data Outcome {ℓ} (A : Type ℓ) : Type ℓ where
  ok : A → Outcome A
  throws : Exception → Outcome A

infixl 5 ◌>>=◌
abbrev pub ◌>>=◌ {ℓ κ} : {A : Type ℓ} {B : Type κ} → Outcome A → (A → Outcome B) → Outcome B
ok a >>= f = f a
throws e >>= f = throws e

-- The types at which the code reads and makes a `sdbus::Variant`.
pub data ValueType : Type 0 where
  string object_path boolean u8 u16 u32 u64 i16 i32 i64 strings : ValueType

abbrev pub Value : ValueType → Type 0
Value string = Str
Value object_path = Str
Value boolean = Bool
Value u8 = ℕ
Value u16 = ℕ
Value u32 = ℕ
Value u64 = ℕ
Value i16 = ℤ
Value i32 = ℤ
Value i64 = ℤ
Value strings = List Str

-- `T{}`.
abbrev pub initial : (t : ValueType) → Value t
initial string = []
initial object_path = []
initial boolean = false
initial u8 = 0
initial u16 = 0
initial u32 = 0
initial u64 = 0
initial i16 = pos 0
initial i32 = pos 0
initial i64 = pos 0
initial strings = []

-- The number of a type, by which two of them are told apart.
abbrev pub tag : ValueType → ℕ
tag string = 0
tag object_path = 1
tag boolean = 2
tag u8 = 3
tag u16 = 4
tag u32 = 5
tag u64 = 6
tag i16 = 7
tag i32 = 8
tag i64 = 9
tag strings = 10

-- `sdbus::Variant`. A read at a type that the variant does not hold throws `sdbus::Error`.
pub record Sdbus : Type 1 where
  pub Variant : Type 0
  pub make : (t : ValueType) → Value t → Variant
  pub contains_value_of_type : ValueType → Variant → Bool
  pub get : (t : ValueType) → Variant → Outcome (Value t)
  pub dump_to_string : Variant → Outcome Str
  pub get-make : (t : ValueType) (x : Value t) → get t (make t x) ≡ ok x
  pub contains-make : (t : ValueType) (x : Value t) → contains_value_of_type t (make t x) ≡ true
  pub contains_unique :
      (t u : ValueType) (v : Variant)
      → contains_value_of_type t v ≡ true
      → contains_value_of_type u v ≡ true
      → tag t ≡ tag u
  pub get-contains :
      (t : ValueType) (v : Variant)
      → contains_value_of_type t v ≡ true
      → (x : Value t) × (get t v ≡ ok x)
  pub get-mismatch :
      (t : ValueType) (v : Variant)
      → contains_value_of_type t v ≡ false
      → (name : Str) × (message : Str) × (get t v ≡ throws (dbus_error name message))
