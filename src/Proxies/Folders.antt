-- ===== src/Proxies/Folders.antt =====
-- native/src/obex_message_proxy.cpp: how `list_messages` takes a folder apart.
use bluez_obex_native.Common.{
  ℕ, suc, ◌≡◌, ◌≢◌, refl, ◌∙◌, ap, Bool, true, false, ◌&&◌, Option, none, some, [], ◌∷◌, ◌++◌,
  arith, All, is_empty, take, drop, eqb, Bool-cases, Option-cases, inl, inr, if◌then◌else◌,
}
use bluez_obex_native.Common.Strings.{Str}

abbrev pub slash : ℕ
slash = b'/'

-- `while (!normalized.empty() && normalized.front() == '/') normalized.remove_prefix(1)`.
unfoldable pub strip_front : Str → Str
strip_front [] = []
strip_front (b ∷ s) = let rest = strip_front s in if eqb b slash then rest else b ∷ s

-- `while (!normalized.empty() && normalized.back() == '/') normalized.remove_suffix(1)`: a byte
-- stays unless it is a slash and nothing behind it stays.
unfoldable pub strip_back : Str → Str
strip_back [] = []
strip_back (b ∷ s) =
    let rest = strip_back s in if is_empty rest && eqb b slash then [] else b ∷ rest

unfoldable pub normalized : Str → Str
unfolding strip_front strip_back
normalized folder = strip_back (strip_front folder)

-- `rfind`; `none` is `npos`.
unfoldable pub rfind : ℕ → Str → Option ℕ
rfind c [] = none
rfind c (b ∷ s) = elim (rfind c s) [
  | some i ↦ some (suc i)
  | none ↦ if eqb b c then some 0 else none
]

abbrev pub parent_of : Str → ℕ → Str
parent_of folder separator = take separator folder

abbrev pub child_of : Str → ℕ → Str
child_of folder separator = drop (suc separator) folder

abbrev pub HasNoSlash : Str → Type 0
HasNoSlash s = All (λ b. b ≢ slash) s

abbrev pub AllSlashes : Str → Type 0
AllSlashes s = All (λ b. b ≡ slash) s

rfind-none : (s : Str) → rfind slash s ≡ none → HasNoSlash s
unfolding rfind
rfind-none [] h = tt
rfind-none (b ∷ s) h = elim (Option-cases (rfind slash s)) [
  | inl e ↦ (ground arith, rfind-none s e)
  | inr (i, e) ↦ absurd (some_case e)
]
  where
    some_case : {i : ℕ} → rfind slash s ≡ some i → ⊥
    some_case e = ground arith

rfind-some :
    (s : Str) (i : ℕ)
    → rfind slash s ≡ some i
    → (s ≡ parent_of s i ++ slash ∷ child_of s i) × HasNoSlash (child_of s i)
unfolding rfind
rfind-some [] i h = absurd (ground arith)
rfind-some (b ∷ s) i h = elim (Option-cases (rfind slash s)) [
  | inl e ↦
      let at : (b ≡ slash) × (i ≡ 0) = (ground arith, ground arith) in
      rw (at.0, at.1) (refl, rfind-none s e)
  | inr (j, e) ↦
      let at : i ≡ suc j = ground arith in
      let (parts, child) = rfind-some s j e in rw at (ap (λ (t : Str). b ∷ t) parts, child)
]

-- The first and the last byte of a text.
abbrev pub starts_in : ℕ → Str → Bool
starts_in c [] = false
starts_in c (b ∷ s) = eqb b c

abbrev pub ends_in : ℕ → Str → Bool
ends_in c [] = false
ends_in c (b ∷ s) = if is_empty s then eqb b c else ends_in c s

strip_front_lem :
    (s : Str)
    → (front : Str) × AllSlashes front
      × (s ≡ front ++ strip_front s)
      × (starts_in slash (strip_front s) ≡ false)
unfolding strip_front
strip_front_lem [] = ([], tt, refl, refl)
strip_front_lem (b ∷ s) = elim (Bool-cases (eqb b slash)) [
  | inl e ↦
      let at : b ≡ slash = ground arith in
      let (front, slashes, parts, first) = strip_front_lem s in
      rw e (slash ∷ front, (refl, slashes), rw at (ap (λ (t : Str). slash ∷ t) parts), first)
  | inr e ↦ rw e ([], tt, refl, e)
]

strip_back_lem :
    (s : Str)
    → (back : Str) × AllSlashes back
      × (s ≡ strip_back s ++ back)
      × (ends_in slash (strip_back s) ≡ false)
      × (starts_in slash s ≡ false → starts_in slash (strip_back s) ≡ false)
unfolding strip_back
strip_back_lem [] = ([], tt, refl, refl, λ h. h)
strip_back_lem (b ∷ s) =
    let (back, slashes, parts, last, first) = strip_back_lem s in
    elim (Bool-cases (is_empty (strip_back s) && eqb b slash)) [
      | inl e ↦
          let at : b ≡ slash = ground arith in
          let gone : strip_back s ≡ [] = is_empty-nil (strip_back s) (ground arith) in
          rw e
            (b ∷ back, (at, slashes), ap (λ (t : Str). b ∷ t) (rw gone at parts), refl, λ h. refl)
      | inr e ↦ rw e (back, slashes, ap (λ (t : Str). b ∷ t) parts, ground arith, λ h. h)
    ]
  where
    is_empty-nil : (t : Str) → is_empty t ≡ true → t ≡ []
    is_empty-nil [] h = refl
    is_empty-nil (c ∷ t) h = cc

-- `s` is `folder` without the slashes before and behind it.
abbrev pub IsStripped : Str → Str → Type 0
IsStripped folder s =
    (front : Str) × (back : Str) × AllSlashes front
    × AllSlashes back
    × (folder ≡ front ++ (s ++ back))
    × (starts_in slash s ≡ false)
    × (ends_in slash s ≡ false)

-- `s` is cut at its last slash, and neither part is empty.
abbrev pub IsCut : Str → Str → Str → Type 0
IsCut s parent child =
    (s ≡ parent ++ slash ∷ child) × (parent ≢ []) × (child ≢ []) × HasNoSlash child

-- What `list_messages` makes of a folder first is the folder without all slashes before and
-- behind it.
pub normalized-IsStripped : (folder : Str) → IsStripped folder (normalized folder)
unfolding normalized
normalized-IsStripped folder =
    let (front, fs, fparts, first) = strip_front_lem folder in
    let (back, bs, bparts, last, keeps) = strip_back_lem (strip_front folder) in
    (front, back, fs, bs, fparts ∙ ap (λ (t : Str). front ++ t) bparts, keeps first, last)

-- Where the normalized folder has a slash, the parent and the child are its parts before and
-- behind the last slash, neither is empty, and the child has no slash.
pub rfind-IsCut :
    (folder : Str) (i : ℕ)
    → rfind slash (normalized folder) ≡ some i
    → IsCut (normalized folder) (parent_of (normalized folder) i) (child_of (normalized folder) i)
rfind-IsCut folder i h =
    let (front, back, fs, bs, parts, first, last) = normalized-IsStripped folder in
    let (cut, child) = rfind-some (normalized folder) i h in
    (
      cut,
      λ e. no_start (normalized folder) (child_of (normalized folder) i) first (rw e at cut),
      λ e. no_end (normalized folder) (parent_of (normalized folder) i) last (rw e at cut),
      child,
    )
  where
    no_start : (s t : Str) → starts_in slash s ≡ false → s ≡ slash ∷ t → ⊥
    no_start s t h e = let k : true ≡ false = rw e at h in cc

    ends_in-append : (t : Str) → ends_in slash (t ++ slash ∷ []) ≡ true
    ends_in-append [] = refl
    ends_in-append (b ∷ []) = refl
    ends_in-append (b ∷ c ∷ t) = ends_in-append (c ∷ t)

    no_end : (s t : Str) → ends_in slash s ≡ false → s ≡ t ++ slash ∷ [] → ⊥
    no_end s t h e =
        let k : ends_in slash (t ++ slash ∷ []) ≡ false = rw e at h in cc (ends_in-append t)
