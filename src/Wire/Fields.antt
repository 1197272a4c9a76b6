-- ===== src/Wire/Fields.antt =====
-- The overloads of the scalar and string fields obey the laws of the format.
use bluez_obex_native.Common.{
  ℕ, ◌+◌, ◌^◌, ◌<◌, ◌≡◌, refl, some, List, [], ◌++◌, append_assoc, arith, All, All-append, length,
  length-append, get_elem?-append, get_elem?-append_left, get_elem?-lt, get_elem?, if◌then◌else◌,
}
use bluez_obex_native.Common.Int.{ℤ, pos, negsuc}
use bluez_obex_native.Common.Options.{>>=-eq-some}
use bluez_obex_native.Common.Strings.{Str}
use bluez_obex_native.Wire.{
  Buffer, write_bytes, read_bytes, le_bytes, encode_u8, decode_u8, encode_bool, decode_bool,
  encode_uint, decode_uint, encode_i16, decode_i16, to_pattern16, of_pattern16, encode_string,
  decode_string, to_uint32, u8, boolean, i16, uint, string,
}
use bluez_obex_native.Wire.Integers.{
  length-le_bytes, le_bytes-IsByte, from_le_bytes-le_bytes, read_bytes-append, read_bytes_extends,
  read_bytes_within,
}
use bluez_obex_native.Wire.Laws.{IsLawful, IsByte}

abbrev pub FitsAlways : {A : Type 0} → A → Type 0
FitsAlways _ = Unit

abbrev pub FitsBytes : ℕ → ℕ → Type 0
FitsBytes n v = v < 256 ^ n

-- An `int16_t`.
abbrev pub FitsI16 : ℤ → Type 0
FitsI16 (pos n) = n < 2 ^ 15
FitsI16 (negsuc n) = n < 2 ^ 15

-- A string of bytes, whose length is a `uint32_t`.
abbrev pub FitsString : Str → Type 0
FitsString s = (length s < 2 ^ 32) × All IsByte s

-- The count of a vector is a `uint32_t`.
abbrev pub FitsCount : {A : Type 0} → List A → Type 0
FitsCount xs = length xs < 2 ^ 32

pub u8-IsLawful : IsLawful u8 (FitsBytes 1)
unfolding encode_u8 decode_u8
u8-IsLawful = record {
  appends = λ buf v. refl;
  encodes_bytes = λ v h. (omega arith, tt);
  round_trip = λ front v rest h. rw (get_elem?-append front v rest);
  extends = λ buf more offset v next h.
      let (x, e, k) = >>=-eq-some (get_elem? buf offset) _ h in
      rw (get_elem?-append_left buf more offset x e) k;
  within = λ buf offset v next p h.
      let (x, e, k) = >>=-eq-some (get_elem? buf offset) _ h in
      ground (arith, get_elem?-lt buf offset x e);
}

pub boolean-IsLawful : IsLawful boolean FitsAlways
unfolding encode_bool decode_bool
boolean-IsLawful = record {
  appends = λ buf v. refl;
  encodes_bytes = λ v h. (ground arith, tt);
  round_trip =
      λ front v rest h. rw (get_elem?-append front (if v then 1 else 0) rest) (ground arith);
  extends = λ buf more offset v next h.
      let (x, e, k) = >>=-eq-some (get_elem? buf offset) _ h in
      rw (get_elem?-append_left buf more offset x e) k;
  within = λ buf offset v next p h.
      let (x, e, k) = >>=-eq-some (get_elem? buf offset) _ h in
      ground (arith, get_elem?-lt buf offset x e);
}

pub uint-IsLawful : (n : ℕ) → IsLawful (uint n) (FitsBytes n)
unfolding encode_uint decode_uint write_bytes
uint-IsLawful n = record {
  appends = λ buf v. refl;
  encodes_bytes = λ v h. le_bytes-IsByte n v;
  round_trip = λ front v rest h.
      rw (read_bytes-append front (le_bytes n v) rest n (omega (arith, length-le_bytes n v)))
        (ground (arith, from_le_bytes-le_bytes n v h, length-le_bytes n v));
  extends = λ buf more offset v next h.
      let ((bs, end), e, k) = >>=-eq-some (read_bytes buf offset n) _ h in
      rw (read_bytes_extends buf more offset n bs end e) k;
  within = λ buf offset v next p h.
      let ((bs, end), e, k) = >>=-eq-some (read_bytes buf offset n) _ h in
      ground (arith, read_bytes_within buf offset n bs end e);
}

pattern16_fits : (v : ℤ) → FitsI16 v → to_pattern16 v < 256 ^ 2
pattern16_fits (pos n) h = omega arith
pattern16_fits (negsuc n) h = omega arith

of_pattern16-to_pattern16 : (v : ℤ) → FitsI16 v → of_pattern16 (to_pattern16 v) ≡ v
of_pattern16-to_pattern16 (pos n) h = ground arith
of_pattern16-to_pattern16 (negsuc n) h = ground arith

pub i16-IsLawful : IsLawful i16 FitsI16
unfolding encode_i16 decode_i16
i16-IsLawful = record {
  appends = λ buf v. unfold encode_uint write_bytes in refl;
  encodes_bytes = λ v h. (uint-IsLawful 2).encodes_bytes (to_pattern16 v) (pattern16_fits v h);
  round_trip = λ front v rest h.
      rw ((uint-IsLawful 2).round_trip front (to_pattern16 v) rest (pattern16_fits v h))
        (rw (of_pattern16-to_pattern16 v h));
  extends = λ buf more offset v next h.
      let ((w, end), e, k) = >>=-eq-some (decode_uint 2 buf offset) _ h in
      rw ((uint-IsLawful 2).extends buf more offset w end e) k;
  within = λ buf offset v next p h.
      let ((w, end), e, k) = >>=-eq-some (decode_uint 2 buf offset) _ h in
      ground (arith, (uint-IsLawful 2).within buf offset w end p e);
}

string_parts : (s : Str) → encode_string [] s ≡ encode_uint 4 [] (to_uint32 (length s)) ++ s
unfolding encode_string write_bytes
string_parts s = refl

string_round_trip :
    (front : Buffer) (s rest : Str)
    → FitsString s
    → decode_string (front ++ (encode_string [] s ++ rest)) (length front)
      ≡ some (s, length front + length (encode_string [] s))
unfolding decode_string
string_round_trip front s rest h =
    let count : Buffer = encode_uint 4 [] (to_uint32 (length s)) in
    let read : decode_uint 4 (front ++ (count ++ (s ++ rest))) (length front)
        ≡ some (to_uint32 (length s), length front + length count) =
      (uint-IsLawful 4).round_trip front (to_uint32 (length s)) (s ++ rest) (omega arith) in
    rw (string_parts s, append_assoc count s rest, read)
      (rw (← length-append front count, ← append_assoc front count (s ++ rest))
        (rw (read_bytes-append (front ++ count) s rest (to_uint32 (length s)) (omega arith))
          (ground (arith, length-append front count, length-append count s))))

pub string-IsLawful : IsLawful string FitsString
string-IsLawful = record {
  appends = λ buf s. unfold encode_string encode_uint write_bytes in append_assoc buf _ s;
  encodes_bytes = λ s h. rw (string_parts s) (
      All-append IsByte _ s ((uint-IsLawful 4).encodes_bytes (to_uint32 (length s)) (omega arith))
        h.1);
  round_trip = string_round_trip;
  extends =
      unfold decode_string in
      λ buf more offset s next h.
        let ((len, start), e, k) = >>=-eq-some (decode_uint 4 buf offset) _ h in
        rw ((uint-IsLawful 4).extends buf more offset len start e)
          (read_bytes_extends buf more start len s next k);
  within =
      unfold decode_string in
      λ buf offset s next p h.
        let ((len, start), e, k) = >>=-eq-some (decode_uint 4 buf offset) _ h in
        ground (
          arith,
          (uint-IsLawful 4).within buf offset len start p e,
          read_bytes_within buf start len s next k,
        );
}
