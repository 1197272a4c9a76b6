-- ===== src/Wire/Structs.antt =====
-- Structs whose descriptors name every member, each by overloads that obey the laws.
use bluez_obex_native.Common.{
  ℕ, ◌+◌, ◌≤◌, ◌≡◌, sym, none, some, [], ◌∷◌, ◌++◌, append_assoc, append-nil, arith, length,
  length-append, All, All-append,
}
use bluez_obex_native.Common.Options.{>>=-eq-some}
use bluez_obex_native.Wire.{
  Buffer, Codec, FieldDescriptors, done, field, encode_impl, decode_impl, Meta, encode_struct,
  decode_struct, encode, decode, structs,
}
use bluez_obex_native.Wire.Laws.{IsLawful, IsByte, IsLawful-truncated}
use bluez_obex_native.Wire.Vectors.{FitsVector, vector-IsLawful}

module _ {T : Type 0} where
  -- The laws of each field.
  abbrev pub LawfulFields : FieldDescriptors T → Type 1
  LawfulFields done = Unit
  LawfulFields (field {A = A} c get set fs) =
      ((Fits : A → Type 0) × IsLawful c Fits) × LawfulFields fs

  -- Every member fits its field.
  abbrev pub FitsFields : (fs : FieldDescriptors T) → LawfulFields fs → T → Type 0
  FitsFields done ls x = Unit
  FitsFields (field c get set fs) ls x = ls.0.0 (get x) × FitsFields fs ls.1 x

  -- `y` after each listed member of `x` has been assigned to it.
  abbrev pub assign : FieldDescriptors T → T → T → T
  assign done x y = y
  assign (field c get set fs) x y = assign fs x (set (get x) y)

  pub encode_impl-appends :
      (fs : FieldDescriptors T)
      → LawfulFields fs
      → (buf : Buffer) (x : T) → encode_impl fs buf x ≡ buf ++ encode_impl fs [] x
  unfolding encode_impl
  encode_impl-appends done ls buf x = sym (append-nil buf)
  encode_impl-appends (field c get set fs) ls buf x =
      rw
        (
          encode_impl-appends fs ls.1 (c.encode_field buf (get x)) x,
          encode_impl-appends fs ls.1 (c.encode_field [] (get x)) x,
          ls.0.1.appends buf (get x),
        )
        (append_assoc buf _ _)

  pub encode_impl-IsByte :
      (fs : FieldDescriptors T) (ls : LawfulFields fs) (x : T)
      → FitsFields fs ls x
      → All IsByte (encode_impl fs [] x)
  unfolding encode_impl
  encode_impl-IsByte done ls x h = tt
  encode_impl-IsByte (field c get set fs) ls x h =
      rw (encode_impl-appends fs ls.1 (c.encode_field [] (get x)) x) (
        All-append IsByte _ _ (ls.0.1.encodes_bytes (get x) h.0) (encode_impl-IsByte fs ls.1 x h.1))

  pub decode_impl_round_trip :
      (fs : FieldDescriptors T) (ls : LawfulFields fs) (front : Buffer) (x : T) (rest : Buffer)
      (y : T)
      → FitsFields fs ls x
      → decode_impl fs (front ++ (encode_impl fs [] x ++ rest)) (length front) y
        ≡ some (assign fs x y, length front + length (encode_impl fs [] x))
  unfolding encode_impl decode_impl
  decode_impl_round_trip done ls front x rest y h = ground arith
  decode_impl_round_trip (field c get set fs) ls front x rest y h =
      let item : Buffer = c.encode_field [] (get x) in
      let items : Buffer = encode_impl fs [] x in
      rw
        (
          encode_impl-appends fs ls.1 item x,
          append_assoc item items rest,
          ls.0.1.round_trip front (get x) (items ++ rest) h.0,
        )
        (rw
          (
            ← length-append front item,
            ← append_assoc front item (items ++ rest),
            decode_impl_round_trip fs ls.1 (front ++ item) x rest (set (get x) y) h.1,
          )
          (ground (arith, length-append front item, length-append item items)))

  pub decode_impl_extends :
      (fs : FieldDescriptors T)
      → LawfulFields fs
      → (buf more : Buffer) (offset : ℕ) (y x : T) (next : ℕ)
      → decode_impl fs buf offset y ≡ some (x, next)
      → decode_impl fs (buf ++ more) offset y ≡ some (x, next)
  unfolding decode_impl
  decode_impl_extends done ls buf more offset y x next h = h
  decode_impl_extends (field c get set fs) ls buf more offset y x next h =
      let ((v, middle), e, k) = >>=-eq-some (c.decode_field buf offset) _ h in
      rw (ls.0.1.extends buf more offset v middle e)
        (decode_impl_extends fs ls.1 buf more middle (set v y) x next k)

  pub decode_impl_within :
      (fs : FieldDescriptors T)
      → LawfulFields fs
      → (buf : Buffer) (offset : ℕ) (y x : T) (next : ℕ) → offset ≤ length buf
      → decode_impl fs buf offset y ≡ some (x, next)
      → (offset ≤ next) × (next ≤ length buf)
  unfolding decode_impl
  decode_impl_within done ls buf offset y x next p h = ground arith
  decode_impl_within (field c get set fs) ls buf offset y x next p h =
      let ((v, middle), e, k) = >>=-eq-some (c.decode_field buf offset) _ h in
      let first : (offset ≤ middle) × (middle ≤ length buf) =
        ls.0.1.within buf offset v middle p e in
      ground (arith, first, decode_impl_within fs ls.1 buf middle (set v y) x next first.1 k)

-- The descriptors of `T` obey the laws and name every member.
pub record IsComplete {T : Type 0} (m : Meta T) : Type 1 where
  pub lawful : LawfulFields m.fields
  pub total : (x y : T) → assign m.fields x y ≡ x

abbrev pub FitsStruct : {T : Type 0} (m : Meta T) → IsComplete m → T → Type 0
FitsStruct m k x = FitsFields m.fields k.lawful x

module _ {T : Type 0} (m : Meta T) (k : IsComplete m) where
  abbrev struct : Codec T
  struct = record {
    encode_field = encode_struct ⦃m = m⦄;
    decode_field = λ buf offset. decode_struct ⦃m = m⦄ buf offset m.initial;
  }

  pub struct-IsLawful : IsLawful struct (FitsStruct m k)
  unfolding encode_struct decode_struct
  struct-IsLawful = record {
    appends = encode_impl-appends m.fields k.lawful;
    encodes_bytes = encode_impl-IsByte m.fields k.lawful;
    round_trip = λ front x rest h.
        rw (decode_impl_round_trip m.fields k.lawful front x rest m.initial h, k.total x m.initial);
    extends = λ buf more offset x next h.
        decode_impl_extends m.fields k.lawful buf more offset m.initial x next h;
    within = λ buf offset x next p h.
        decode_impl_within m.fields k.lawful buf offset m.initial x next p h;
  }

  pub structs-IsLawful : IsLawful (structs ⦃m = m⦄) (FitsVector (FitsStruct m k))
  structs-IsLawful = vector-IsLawful struct (FitsStruct m k) struct-IsLawful

-- Whatever stands before and behind it, an encoded struct decodes to itself, into any object,
-- and the offset that is returned is the end of the encoding. The struct must fit the format:
-- every count in it is below 2^32, every integer within its width and every string of bytes.
-- The encoding is then of bytes.
pub decode-encode :
    {T : Type 0} (m : Meta T) (k : IsComplete m) (front : Buffer) (x : T) (rest : Buffer) (y : T)
    → FitsStruct m k x
    → All IsByte (encode ⦃m = m⦄ x)
      × (decode ⦃m = m⦄ (front ++ (encode ⦃m = m⦄ x ++ rest)) (length front) y
          ≡ some (x, length front + length (encode ⦃m = m⦄ x)))
unfolding encode decode
decode-encode m k front x rest y h = (
  encode_impl-IsByte m.fields k.lawful x h,
  rw (decode_impl_round_trip m.fields k.lawful front x rest y h, k.total x y),
)

-- No proper prefix of an encoded struct that fits the format decodes: `decode`, which tests no
-- length, reads past the end of the buffer.
pub decode_truncated :
    {T : Type 0} (m : Meta T) (k : IsComplete m) (x : T) (front back : Buffer) (b : ℕ)
    → FitsStruct m k x
    → encode ⦃m = m⦄ x ≡ front ++ b ∷ back
    → decode ⦃m = m⦄ front 0 m.initial ≡ none
unfolding encode decode
decode_truncated m k x front back b h e =
    IsLawful-truncated (struct m k) (FitsStruct m k) (struct-IsLawful m k) x front back b h e
