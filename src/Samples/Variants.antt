-- ===== src/Samples/Variants.antt =====
-- A small D-Bus library, to run the definitions on: a variant is a type with a value of it.
use bluez_obex_native.Common.{
  ℕ, zero, suc, subst, ◌≡◌, refl, sym, ◌∙◌, ap, Bool, true, false, List, [], ◌∷◌, eqb, arith,
}
use bluez_obex_native.Common.Strings.{Str, bytes}
use bluez_obex_native.Sdbus.{
  Sdbus, ValueType, Value, string, object_path, boolean, u8, u16, u32, u64, i16, i32, i64, strings,
  tag, Outcome, ok, throws, dbus_error,
}

pub data Sample : Type 0 where
  sample : (t : ValueType) → Value t → Sample

abbrev pub read : (t : ValueType) → Sample → Outcome (Value t)
read string (sample string x) = ok x
read object_path (sample object_path x) = ok x
read boolean (sample boolean x) = ok x
read u8 (sample u8 x) = ok x
read u16 (sample u16 x) = ok x
read u32 (sample u32 x) = ok x
read u64 (sample u64 x) = ok x
read i16 (sample i16 x) = ok x
read i32 (sample i32 x) = ok x
read i64 (sample i64 x) = ok x
read strings (sample strings x) = ok x
read t v = throws (dbus_error (bytes "org.freedesktop.DBus.Error.InvalidArgs") (bytes "mismatch"))

abbrev pub holds : ValueType → Sample → Bool
holds t (sample u x) = eqb (tag t) (tag u)

pub read_made : (t : ValueType) (x : Value t) → read t (sample t x) ≡ ok x
read_made string x = refl
read_made object_path x = refl
read_made boolean x = refl
read_made u8 x = refl
read_made u16 x = refl
read_made u32 x = refl
read_made u64 x = refl
read_made i16 x = refl
read_made i32 x = refl
read_made i64 x = refl
read_made strings x = refl

pub holds_made : (t : ValueType) (x : Value t) → holds t (sample t x) ≡ true
holds_made t x = ground arith

pub holds_once :
    (t u : ValueType) (v : Sample) → holds t v ≡ true → holds u v ≡ true → tag t ≡ tag u
holds_once t u (sample w x) h k = ground arith

abbrev nth : List ValueType → ℕ → ValueType
nth [] n = strings
nth (t ∷ ts) zero = t
nth (t ∷ ts) (suc n) = nth ts n

abbrev of_tag : ℕ → ValueType
of_tag n = nth (string ∷ object_path ∷ boolean ∷ u8 ∷ u16 ∷ u32 ∷ u64 ∷ i16 ∷ i32 ∷ i64 ∷ []) n

of_tag-tag : (t : ValueType) → of_tag (tag t) ≡ t
of_tag-tag string = refl
of_tag-tag object_path = refl
of_tag-tag boolean = refl
of_tag-tag u8 = refl
of_tag-tag u16 = refl
of_tag-tag u32 = refl
of_tag-tag u64 = refl
of_tag-tag i16 = refl
of_tag-tag i32 = refl
of_tag-tag i64 = refl
of_tag-tag strings = refl

pub read_held : (t : ValueType) (v : Sample) → holds t v ≡ true → (x : Value t) × (read t v ≡ ok x)
read_held t (sample u x) h =
    let e : tag u ≡ tag t = ground arith in
    let same : u ≡ t = sym (of_tag-tag u) ∙ ap of_tag e ∙ of_tag-tag t in read_same u x t same
  where
    read_same :
        (u : ValueType) (x : Value u) (t : ValueType)
        → u ≡ t
        → (y : Value t) × (read t (sample u x) ≡ ok y)
    read_same u x t same =
        subst (λ w. (y : Value w) × (read w (sample u x) ≡ ok y)) same (x, read_made u x)

pub read_other :
    (t : ValueType) (v : Sample)
    → holds t v ≡ false
    → (name : Str) × (message : Str) × (read t v ≡ throws (dbus_error name message))
read_other string (sample string x) h = cc
read_other string (sample object_path x) h = (_, _, refl)
read_other string (sample boolean x) h = (_, _, refl)
read_other string (sample u8 x) h = (_, _, refl)
read_other string (sample u16 x) h = (_, _, refl)
read_other string (sample u32 x) h = (_, _, refl)
read_other string (sample u64 x) h = (_, _, refl)
read_other string (sample i16 x) h = (_, _, refl)
read_other string (sample i32 x) h = (_, _, refl)
read_other string (sample i64 x) h = (_, _, refl)
read_other string (sample strings x) h = (_, _, refl)
read_other object_path (sample string x) h = (_, _, refl)
read_other object_path (sample object_path x) h = cc
read_other object_path (sample boolean x) h = (_, _, refl)
read_other object_path (sample u8 x) h = (_, _, refl)
read_other object_path (sample u16 x) h = (_, _, refl)
read_other object_path (sample u32 x) h = (_, _, refl)
read_other object_path (sample u64 x) h = (_, _, refl)
read_other object_path (sample i16 x) h = (_, _, refl)
read_other object_path (sample i32 x) h = (_, _, refl)
read_other object_path (sample i64 x) h = (_, _, refl)
read_other object_path (sample strings x) h = (_, _, refl)
read_other boolean (sample string x) h = (_, _, refl)
read_other boolean (sample object_path x) h = (_, _, refl)
read_other boolean (sample boolean x) h = cc
read_other boolean (sample u8 x) h = (_, _, refl)
read_other boolean (sample u16 x) h = (_, _, refl)
read_other boolean (sample u32 x) h = (_, _, refl)
read_other boolean (sample u64 x) h = (_, _, refl)
read_other boolean (sample i16 x) h = (_, _, refl)
read_other boolean (sample i32 x) h = (_, _, refl)
read_other boolean (sample i64 x) h = (_, _, refl)
read_other boolean (sample strings x) h = (_, _, refl)
read_other u8 (sample string x) h = (_, _, refl)
read_other u8 (sample object_path x) h = (_, _, refl)
read_other u8 (sample boolean x) h = (_, _, refl)
read_other u8 (sample u8 x) h = cc
read_other u8 (sample u16 x) h = (_, _, refl)
read_other u8 (sample u32 x) h = (_, _, refl)
read_other u8 (sample u64 x) h = (_, _, refl)
read_other u8 (sample i16 x) h = (_, _, refl)
read_other u8 (sample i32 x) h = (_, _, refl)
read_other u8 (sample i64 x) h = (_, _, refl)
read_other u8 (sample strings x) h = (_, _, refl)
read_other u16 (sample string x) h = (_, _, refl)
read_other u16 (sample object_path x) h = (_, _, refl)
read_other u16 (sample boolean x) h = (_, _, refl)
read_other u16 (sample u8 x) h = (_, _, refl)
read_other u16 (sample u16 x) h = cc
read_other u16 (sample u32 x) h = (_, _, refl)
read_other u16 (sample u64 x) h = (_, _, refl)
read_other u16 (sample i16 x) h = (_, _, refl)
read_other u16 (sample i32 x) h = (_, _, refl)
read_other u16 (sample i64 x) h = (_, _, refl)
read_other u16 (sample strings x) h = (_, _, refl)
read_other u32 (sample string x) h = (_, _, refl)
read_other u32 (sample object_path x) h = (_, _, refl)
read_other u32 (sample boolean x) h = (_, _, refl)
read_other u32 (sample u8 x) h = (_, _, refl)
read_other u32 (sample u16 x) h = (_, _, refl)
read_other u32 (sample u32 x) h = cc
read_other u32 (sample u64 x) h = (_, _, refl)
read_other u32 (sample i16 x) h = (_, _, refl)
read_other u32 (sample i32 x) h = (_, _, refl)
read_other u32 (sample i64 x) h = (_, _, refl)
read_other u32 (sample strings x) h = (_, _, refl)
read_other u64 (sample string x) h = (_, _, refl)
read_other u64 (sample object_path x) h = (_, _, refl)
read_other u64 (sample boolean x) h = (_, _, refl)
read_other u64 (sample u8 x) h = (_, _, refl)
read_other u64 (sample u16 x) h = (_, _, refl)
read_other u64 (sample u32 x) h = (_, _, refl)
read_other u64 (sample u64 x) h = cc
read_other u64 (sample i16 x) h = (_, _, refl)
read_other u64 (sample i32 x) h = (_, _, refl)
read_other u64 (sample i64 x) h = (_, _, refl)
read_other u64 (sample strings x) h = (_, _, refl)
read_other i16 (sample string x) h = (_, _, refl)
read_other i16 (sample object_path x) h = (_, _, refl)
read_other i16 (sample boolean x) h = (_, _, refl)
read_other i16 (sample u8 x) h = (_, _, refl)
read_other i16 (sample u16 x) h = (_, _, refl)
read_other i16 (sample u32 x) h = (_, _, refl)
read_other i16 (sample u64 x) h = (_, _, refl)
read_other i16 (sample i16 x) h = cc
read_other i16 (sample i32 x) h = (_, _, refl)
read_other i16 (sample i64 x) h = (_, _, refl)
read_other i16 (sample strings x) h = (_, _, refl)
read_other i32 (sample string x) h = (_, _, refl)
read_other i32 (sample object_path x) h = (_, _, refl)
read_other i32 (sample boolean x) h = (_, _, refl)
read_other i32 (sample u8 x) h = (_, _, refl)
read_other i32 (sample u16 x) h = (_, _, refl)
read_other i32 (sample u32 x) h = (_, _, refl)
read_other i32 (sample u64 x) h = (_, _, refl)
read_other i32 (sample i16 x) h = (_, _, refl)
read_other i32 (sample i32 x) h = cc
read_other i32 (sample i64 x) h = (_, _, refl)
read_other i32 (sample strings x) h = (_, _, refl)
read_other i64 (sample string x) h = (_, _, refl)
read_other i64 (sample object_path x) h = (_, _, refl)
read_other i64 (sample boolean x) h = (_, _, refl)
read_other i64 (sample u8 x) h = (_, _, refl)
read_other i64 (sample u16 x) h = (_, _, refl)
read_other i64 (sample u32 x) h = (_, _, refl)
read_other i64 (sample u64 x) h = (_, _, refl)
read_other i64 (sample i16 x) h = (_, _, refl)
read_other i64 (sample i32 x) h = (_, _, refl)
read_other i64 (sample i64 x) h = cc
read_other i64 (sample strings x) h = (_, _, refl)
read_other strings (sample string x) h = (_, _, refl)
read_other strings (sample object_path x) h = (_, _, refl)
read_other strings (sample boolean x) h = (_, _, refl)
read_other strings (sample u8 x) h = (_, _, refl)
read_other strings (sample u16 x) h = (_, _, refl)
read_other strings (sample u32 x) h = (_, _, refl)
read_other strings (sample u64 x) h = (_, _, refl)
read_other strings (sample i16 x) h = (_, _, refl)
read_other strings (sample i32 x) h = (_, _, refl)
read_other strings (sample i64 x) h = (_, _, refl)
read_other strings (sample strings x) h = cc

instance abbrev pub sample_sdbus : Sdbus
sample_sdbus = record {
  Variant = Sample;
  make = sample;
  contains_value_of_type = holds;
  get = read;
  dump_to_string = λ v. ok [];
  get-make = read_made;
  contains-make = holds_made;
  contains_unique = holds_once;
  get-contains = read_held;
  get-mismatch = read_other;
}
