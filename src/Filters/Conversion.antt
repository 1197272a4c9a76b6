-- ===== src/Filters/Conversion.antt =====
-- `variant_map_from_strings` against the conversion of one entry.
use bluez_obex_native.Common.{
  ◌≡◌, refl, ◌∙◌, ap, true, false, Option, none, some, List, [], ◌∷◌, ◌++◌, ◌⊎◌, arith, inl, inr,
  All, is_empty, Bool-cases, if◌then◌else◌,
}
use bluez_obex_native.Common.Strings.{Str, bytes, ◌==◌, ==_iff}
use bluez_obex_native.OrderedMap
use bluez_obex_native.OrderedMap.{OrderedMap}
use bluez_obex_native.OrderedMap.Laws.{find-insert, find-cons, find-empty}
use bluez_obex_native.OrderedMap.Sorted.{Above, IsAscending, find-Above}
use bluez_obex_native.Sdbus.{
  Sdbus, ValueType, string, boolean, u8, u16, strings, Exception, Outcome, ok, throws,
}
use bluez_obex_native.Filters.{variant_of_entry, variant_map_loop, variant_map_from_strings}

-- The keys that are not encoded as strings, with the types that doc/api.md documents.
abbrev pub documented : List (Str × ValueType)
documented =
    (bytes "MaxCount", u16)
    ∷ (bytes "Offset", u16)
    ∷ (bytes "ListStartOffset", u16)
    ∷ (bytes "StartOffset", u16)
    ∷ (bytes "SubjectLength", u8)
    ∷ (bytes "Fields", strings)
    ∷ (bytes "Filter", strings)
    ∷ (bytes "FilterAll", strings)
    ∷ (bytes "FilterAny", strings)
    ∷ (bytes "Types", strings)
    ∷ (bytes "Read", boolean)
    ∷ (bytes "Priority", boolean)
    ∷ (bytes "Transparent", boolean)
    ∷ (bytes "Retry", boolean)
    ∷ (bytes "ResetNewMissedCalls", boolean)
    ∷ []

unfoldable pub type_in : List (Str × ValueType) → Str → ValueType
type_in [] key = string
type_in ((k, t) ∷ table) key = let rest = type_in table key in if key == k then t else rest

-- The type that a filter has under its key.
abbrev pub filter_type : Str → ValueType
filter_type key = type_in documented key

module _ ⦃s : Sdbus⦄ where
  open s use {Variant, make, contains_value_of_type, contains-make}

  -- The entry has no key, which the loop passes over, or a value of the form that its key asks for.
  abbrev pub Converts : Str × Str → Type 0
  Converts e = (is_empty e.0 ≡ true) ⊎ ((v : Variant) × (variant_of_entry e.0 e.1 ≡ ok v))

  abbrev pub outcome_value : Outcome Variant → Option Variant
  outcome_value (ok v) = some v
  outcome_value (throws e) = none

  -- What is under a key after the loop: the conversion of its entry, or what was there before.
  abbrev pub overlay : Str → Option Str → Option Variant → Option Variant
  overlay k none old = old
  overlay k (some value) old = if is_empty k then old else outcome_value (variant_of_entry k value)

  -- One round of the loop.
  loop_skip :
      (key value : Str) (values : OrderedMap Str) (result : OrderedMap Variant)
      → is_empty key ≡ true
      → variant_map_loop ((key, value) ∷ values) result ≡ variant_map_loop values result
  unfolding variant_map_loop
  loop_skip key value values result h = ground arith

  loop_insert :
      (key value : Str) (values : OrderedMap Str) (result : OrderedMap Variant) (v : Variant)
      → is_empty key ≡ false
      → variant_of_entry key value ≡ ok v
      → variant_map_loop ((key, value) ∷ values) result
        ≡ variant_map_loop values (OrderedMap.insert key v result)
  unfolding variant_map_loop
  loop_insert key value values result v h k = ground arith

  loop_throw :
      (key value : Str) (values : OrderedMap Str) (result : OrderedMap Variant) (e : Exception)
      → is_empty key ≡ false
      → variant_of_entry key value ≡ throws e
      → variant_map_loop ((key, value) ∷ values) result ≡ throws e
  unfolding variant_map_loop
  loop_throw key value values result e h k = ground arith

  Outcome-cases :
      {A : Type 0} (o : Outcome A) → ((a : A) × (o ≡ ok a)) ⊎ ((e : Exception) × (o ≡ throws e))
  Outcome-cases (ok a) = inl (a, refl)
  Outcome-cases (throws e) = inr (e, refl)

  -- The entry at the head of the values, and the rest, which lies above it.
  overlay_skip :
      (k key value : Str) (values : OrderedMap Str) (old : Option Variant)
      → Above key values
      → is_empty key ≡ true
      → overlay k (OrderedMap.find k values) old
        ≡ overlay k (OrderedMap.find k ((key, value) ∷ values)) old
  overlay_skip k key value values old a e = elim (Bool-cases (key == k)) [
    | inl same ↦
        let at : key ≡ k = (==_iff key k).0 same in
        rw (find-cons, same, ← at, find-Above key values a, e)
    | inr other ↦ rw (find-cons, other)
  ]

  overlay-insert :
      (k key value : Str) (values : OrderedMap Str) (result : OrderedMap Variant) (v : Variant)
      → Above key values
      → is_empty key ≡ false
      → variant_of_entry key value ≡ ok v
      → overlay k (OrderedMap.find k values) (OrderedMap.find k (OrderedMap.insert key v result))
        ≡ overlay k (OrderedMap.find k ((key, value) ∷ values)) (OrderedMap.find k result)
  overlay-insert k key value values result v a e c = elim (Bool-cases (key == k)) [
    | inl same ↦
        let at : key ≡ k = (==_iff key k).0 same in
        rw (find-cons, find-insert, same, ← at, find-Above key values a, e, c)
    | inr other ↦ rw (find-cons, find-insert, other)
  ]

  loop-find :
      (values : OrderedMap Str) (result out : OrderedMap Variant)
      → IsAscending values
      → variant_map_loop values result ≡ ok out
      → All Converts values
        × ((k : Str)
            → OrderedMap.find k out
              ≡ overlay k (OrderedMap.find k values) (OrderedMap.find k result))
  loop-find [] result out a h =
      let e : result ≡ out = unfold variant_map_loop in cc in (tt, λ k. rw (find-empty, e))
  loop-find ((key, value) ∷ values) result out a h = elim (Bool-cases (is_empty key)) [
    | inl e ↦
        let (all, at) =
          loop-find values result out a.1 (rw (loop_skip key value values result e) at h) in
        ((inl e, all), λ k. at k ∙ overlay_skip k key value values _ a.0 e)
    | inr e ↦ elim (Outcome-cases (variant_of_entry key value)) [
      | inl (v, c) ↦
          let (all, at) =
            loop-find values (OrderedMap.insert key v result) out a.1
              (rw (loop_insert key value values result v e c) at h) in
          ((inr (v, c), all), λ k. at k ∙ overlay-insert k key value values result v a.0 e c)
      | inr (x, c) ↦ absurd (not_thrown (loop_throw key value values result x e c))
    ]
  ]
    where
      not_thrown : {x : Exception} → variant_map_loop ((key, value) ∷ values) result ≡ throws x → ⊥
      not_thrown t = cc

  -- Where `variant_map_from_strings` returns, every entry of the map that it was given has an
  -- empty key or a value of the form that its key asks for, and the result has under each key that
  -- is not empty the conversion of its entry, and nothing under any other key.
  pub find-variant_map_from_strings :
      (values : OrderedMap Str) (out : OrderedMap Variant)
      → IsAscending values
      → variant_map_from_strings values ≡ ok out
      → All Converts values
        × ((k : Str) → OrderedMap.find k out ≡ overlay k (OrderedMap.find k values) none)
  unfolding variant_map_from_strings
  find-variant_map_from_strings values out a h =
      let (all, at) = loop-find values [] out a h in
      (all, λ k. at k ∙ ap (overlay k (OrderedMap.find k values)) (find-empty k))

  -- The first entry of `values` that has a key and does not convert, with its exception.
  pub record FirstFailure (values : OrderedMap Str) (x : Exception) : Type 0 where
    pub before : OrderedMap Str
    pub key : Str
    pub value : Str
    pub after : OrderedMap Str
    pub split : values ≡ before ++ (key, value) ∷ after
    pub earlier : All Converts before
    pub has_key : is_empty key ≡ false
    pub thrown : variant_of_entry key value ≡ throws x

  FirstFailure-cons :
      (e : Str × Str) (values : OrderedMap Str) (x : Exception)
      → Converts e
      → FirstFailure values x
      → FirstFailure (e ∷ values) x
  FirstFailure-cons e values x c f = record {
    before = e ∷ f.before;
    key = f.key;
    value = f.value;
    after = f.after;
    split = ap (λ (m : OrderedMap Str). e ∷ m) f.split;
    earlier = (c, f.earlier);
    has_key = f.has_key;
    thrown = f.thrown;
  }

  loop_fails :
      (values : OrderedMap Str) (result : OrderedMap Variant) (x : Exception)
      → variant_map_loop values result ≡ throws x
      → FirstFailure values x
  loop_fails [] result x h = absurd (unfold variant_map_loop in cc)
  loop_fails ((key, value) ∷ values) result x h = elim (Bool-cases (is_empty key)) [
    | inl e ↦
        FirstFailure-cons (key, value) values x (inl e)
          (loop_fails values result x (rw (loop_skip key value values result e) at h))
    | inr e ↦ elim (Outcome-cases (variant_of_entry key value)) [
      | inl (v, c) ↦
          FirstFailure-cons (key, value) values x (inr (v, c))
            (loop_fails values (OrderedMap.insert key v result) x
              (rw (loop_insert key value values result v e c) at h))
      | inr (y, c) ↦ record {
        before = [];
        key = key;
        value = value;
        after = values;
        split = refl;
        earlier = tt;
        has_key = e;
        thrown =
            let same : y ≡ x = cc (h, loop_throw key value values result y e c) in rw same at c;
      }
    ]
  ]

  -- Where it throws, the exception is that of the first entry, in the order of the keys, that has
  -- a key and whose value does not have the form that the key asks for.
  pub variant_map_from_strings_throws :
      (values : OrderedMap Str) (x : Exception)
      → variant_map_from_strings values ≡ throws x
      → FirstFailure values x
  unfolding variant_map_from_strings
  variant_map_from_strings_throws values x h = loop_fails values [] x h
