-- ===== src/Wire/Laws.antt =====
-- What the wire format asks of the two overloads of a field, and what follows for every field:
-- nothing that is cut short decodes.
use bluez_obex_native.Common.{
  ℕ, ◌+◌, ◌≤◌, ◌<◌, ◌≡◌, none, some, [], ◌∷◌, ◌++◌, append-nil, arith, inl, inr, length,
  length-append, All, Option-cases,
}
use bluez_obex_native.Wire.{Buffer, Codec}

abbrev pub IsByte : ℕ → Type 0
IsByte b = b < 256

module _ {A : Type 0} where
  -- `Fits` holds of the values whose lengths and sizes the format has room for.
  pub record IsLawful (c : Codec A) (Fits : A → Type 0) : Type 0 where
    pub appends : (buf : Buffer) (v : A) → c.encode_field buf v ≡ buf ++ c.encode_field [] v
    pub encodes_bytes : (v : A) → Fits v → All IsByte (c.encode_field [] v)
    pub round_trip :
        (front : Buffer) (v : A) (rest : Buffer)
        → Fits v
        → c.decode_field (front ++ (c.encode_field [] v ++ rest)) (length front)
          ≡ some (v, length front + length (c.encode_field [] v))
    pub extends :
        (buf more : Buffer) (offset : ℕ) (v : A) (next : ℕ)
        → c.decode_field buf offset ≡ some (v, next)
        → c.decode_field (buf ++ more) offset ≡ some (v, next)
    pub within :
        (buf : Buffer) (offset : ℕ) (v : A) (next : ℕ)
        → offset ≤ length buf
        → c.decode_field buf offset ≡ some (v, next)
        → (offset ≤ next) × (next ≤ length buf)

  -- A proper prefix of an encoding is refused: its last read leaves the buffer.
  pub IsLawful-truncated :
      (c : Codec A) (Fits : A → Type 0)
      → IsLawful c Fits
      → (v : A) (front back : Buffer) (b : ℕ) → Fits v
      → c.encode_field [] v ≡ front ++ b ∷ back
      → c.decode_field front 0 ≡ none
  IsLawful-truncated c Fits law v front back b fits e =
      elim (Option-cases (c.decode_field front 0)) [
        | inl h ↦ h
        | inr ((w, next), h) ↦
            let longer : c.decode_field (front ++ b ∷ back) 0 ≡ some (w, next) =
              law.extends front (b ∷ back) 0 w next h in
            let whole : c.decode_field (front ++ b ∷ back) 0
                ≡ some (v, 0 + length (front ++ b ∷ back)) =
              rw (append-nil, e) at (law.round_trip [] v [] fits) in
            absurd (
              omega (
                arith,
                (law.within front 0 w next (omega arith) h).1,
                length-append front (b ∷ back),
                same_end w v next (0 + length (front ++ b ∷ back)) longer whole,
              ))
      ]
    where
      same_end :
          (w u : A) (next end : ℕ)
          → c.decode_field (front ++ b ∷ back) 0 ≡ some (w, next)
          → c.decode_field (front ++ b ∷ back) 0 ≡ some (u, end)
          → next ≡ end
      same_end w u next end h k = cc
