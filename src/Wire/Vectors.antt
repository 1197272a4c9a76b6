-- ===== src/Wire/Vectors.antt =====
-- Vectors of any item whose overloads obey the laws obey them too.
use bluez_obex_native.Common.{
  ℕ, zero, suc, ◌+◌, ◌≤◌, ◌≡◌, sym, some, List, [], ◌∷◌, ◌++◌, append_assoc, append-nil, arith,
  length, length-append, All, All-append,
}
use bluez_obex_native.Common.Options.{>>=-eq-some}
use bluez_obex_native.Wire.{
  Buffer, Codec, encode_uint, decode_uint, encode_each, decode_each, encode_vector, decode_vector,
  to_uint32, string, strings,
}
use bluez_obex_native.Wire.Laws.{IsLawful, IsByte}
use bluez_obex_native.Wire.Fields.{FitsCount, FitsString, uint-IsLawful, string-IsLawful}

-- A vector fits if its count and each of its items do.
abbrev pub FitsVector : {A : Type 0} → (A → Type 0) → List A → Type 0
FitsVector Fits xs = FitsCount xs × All Fits xs

module _ {A : Type 0} (c : Codec A) (Fits : A → Type 0) (law : IsLawful c Fits) where
  encode_each-appends :
      (buf : Buffer) (xs : List A)
      → encode_each c.encode_field buf xs ≡ buf ++ encode_each c.encode_field [] xs
  unfolding encode_each
  encode_each-appends buf [] = sym (append-nil buf)
  encode_each-appends buf (x ∷ xs) =
      rw
        (
          encode_each-appends (c.encode_field buf x) xs,
          encode_each-appends (c.encode_field [] x) xs,
          law.appends buf x,
        )
        (append_assoc buf _ _)

  encode_each-IsByte : (xs : List A) → All Fits xs → All IsByte (encode_each c.encode_field [] xs)
  unfolding encode_each
  encode_each-IsByte [] h = tt
  encode_each-IsByte (x ∷ xs) h =
      rw (encode_each-appends (c.encode_field [] x) xs)
        (All-append IsByte _ _ (law.encodes_bytes x h.0) (encode_each-IsByte xs h.1))

  decode_each_round_trip :
      (front : Buffer) (xs : List A) (rest : Buffer)
      → All Fits xs
      → decode_each c.decode_field
          (length xs)
          (front ++ (encode_each c.encode_field [] xs ++ rest))
          (length front)
        ≡ some (xs, length front + length (encode_each c.encode_field [] xs))
  unfolding decode_each encode_each
  decode_each_round_trip front [] rest h = ground arith
  decode_each_round_trip front (x ∷ xs) rest h =
      let item : Buffer = c.encode_field [] x in
      let items : Buffer = encode_each c.encode_field [] xs in
      rw
        (
          encode_each-appends item xs,
          append_assoc item items rest,
          law.round_trip front x (items ++ rest) h.0,
        )
        (rw
          (
            ← length-append front item,
            ← append_assoc front item (items ++ rest),
            decode_each_round_trip (front ++ item) xs rest h.1,
          )
          (ground (arith, length-append front item, length-append item items)))

  decode_each_extends :
      (count : ℕ) (buf more : Buffer) (offset : ℕ) (xs : List A) (next : ℕ)
      → decode_each c.decode_field count buf offset ≡ some (xs, next)
      → decode_each c.decode_field count (buf ++ more) offset ≡ some (xs, next)
  unfolding decode_each
  decode_each_extends zero buf more offset xs next h = h
  decode_each_extends (suc count) buf more offset xs next h =
      let ((x, middle), e, k) = >>=-eq-some (c.decode_field buf offset) _ h in
      let ((ys, end), f, l) = >>=-eq-some (decode_each c.decode_field count buf middle) _ k in
      rw
        (law.extends buf more offset x middle e, decode_each_extends count buf more middle ys end f)
        l

  decode_each_within :
      (count : ℕ) (buf : Buffer) (offset : ℕ) (xs : List A) (next : ℕ)
      → offset ≤ length buf
      → decode_each c.decode_field count buf offset ≡ some (xs, next)
      → (offset ≤ next) × (next ≤ length buf)
  unfolding decode_each
  decode_each_within zero buf offset xs next p h = ground arith
  decode_each_within (suc count) buf offset xs next p h =
      let ((x, middle), e, k) = >>=-eq-some (c.decode_field buf offset) _ h in
      let ((ys, end), f, l) = >>=-eq-some (decode_each c.decode_field count buf middle) _ k in
      let first : (offset ≤ middle) × (middle ≤ length buf) = law.within buf offset x middle p e in
      ground (arith, first, decode_each_within count buf middle ys end first.1 f)

  abbrev vector : Codec (List A)
  vector = record {
    encode_field = encode_vector c.encode_field;
    decode_field = decode_vector c.decode_field;
  }

  vector_parts :
      (xs : List A)
      → encode_vector c.encode_field [] xs
        ≡ encode_uint 4 [] (to_uint32 (length xs)) ++ encode_each c.encode_field [] xs
  unfolding encode_vector
  vector_parts xs = encode_each-appends _ xs

  vector-appends :
      (buf : Buffer) (xs : List A)
      → encode_vector c.encode_field buf xs ≡ buf ++ encode_vector c.encode_field [] xs
  vector-appends buf xs = rw (vector_parts xs) (
      unfold encode_vector in
      rw
        (
          encode_each-appends (encode_uint 4 buf (to_uint32 (length xs))) xs,
          (uint-IsLawful 4).appends buf (to_uint32 (length xs)),
        )
        (append_assoc buf _ _))

  vector_round_trip :
      (front : Buffer) (xs : List A) (rest : Buffer)
      → FitsVector Fits xs
      → decode_vector c.decode_field
          (front ++ (encode_vector c.encode_field [] xs ++ rest))
          (length front)
        ≡ some (xs, length front + length (encode_vector c.encode_field [] xs))
  unfolding decode_vector
  vector_round_trip front xs rest h =
      let count : Buffer = encode_uint 4 [] (length xs) in
      let items : Buffer = encode_each c.encode_field [] xs in
      let read : decode_uint 4 (front ++ (count ++ (items ++ rest))) (length front)
          ≡ some (length xs, length front + length count) =
        (uint-IsLawful 4).round_trip front (length xs) (items ++ rest) (omega arith) in
      let whole : to_uint32 (length xs) ≡ length xs = omega (arith, h.0) in
      rw (vector_parts xs, whole, append_assoc count items rest, read)
        (rw
          (
            ← length-append front count,
            ← append_assoc front count (items ++ rest),
            decode_each_round_trip (front ++ count) xs rest h.1,
          )
          (ground (arith, length-append front count, length-append count items)))

  pub vector-IsLawful : IsLawful vector (FitsVector Fits)
  vector-IsLawful = record {
    appends = vector-appends;
    encodes_bytes = λ xs h. rw (vector_parts xs) (
        All-append IsByte _ _
          ((uint-IsLawful 4).encodes_bytes (to_uint32 (length xs)) (omega arith))
          (encode_each-IsByte xs h.1));
    round_trip = vector_round_trip;
    extends =
        unfold decode_vector in
        λ buf more offset xs next h.
          let ((count, start), e, k) = >>=-eq-some (decode_uint 4 buf offset) _ h in
          rw ((uint-IsLawful 4).extends buf more offset count start e)
            (decode_each_extends count buf more start xs next k);
    within =
        unfold decode_vector in
        λ buf offset xs next p h.
          let ((count, start), e, k) = >>=-eq-some (decode_uint 4 buf offset) _ h in
          let first : (offset ≤ start) × (start ≤ length buf) =
            (uint-IsLawful 4).within buf offset count start p e in
          ground (arith, first, decode_each_within count buf start xs next first.1 k);
  }

-- Lists of strings.
pub strings-IsLawful : IsLawful strings (FitsVector FitsString)
strings-IsLawful = vector-IsLawful string FitsString string-IsLawful
