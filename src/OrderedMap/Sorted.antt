-- ===== src/OrderedMap/Sorted.antt =====
-- The keys of an ordered map ascend, and every update keeps that.
use bluez_obex_native.Common.{
  ◌≡◌, refl, ap, true, false, [], ◌∷◌, ◌++◌, inl, inr, none, arith, Bool-cases,
}
use bluez_obex_native.Common.Strings.{
  Str, ◌==◌, ==_iff, str_lt, str_lt_trans, str_lt-total, str_lt-ne, str_lt_irrefl,
}
use bluez_obex_native.OrderedMap.{OrderedMap, find, insert, erase}

module _ {ℓ} {V : Type ℓ} where
  -- Every key is above `k`.
  abbrev pub Above : Str → OrderedMap V → Type 0
  Above k [] = Unit
  Above k ((j, v) ∷ m) = (str_lt k j ≡ true) × Above k m

  abbrev pub IsAscending : OrderedMap V → Type 0
  IsAscending [] = Unit
  IsAscending ((k, v) ∷ m) = Above k m × IsAscending m

  Above-trans : (i k : Str) (m : OrderedMap V) → str_lt i k ≡ true → Above k m → Above i m
  Above-trans i k [] h a = tt
  Above-trans i k ((j, v) ∷ m) h a = (str_lt_trans i k j h a.0, Above-trans i k m h a.1)

  insert-Above :
      (i k : Str) (v : V) (m : OrderedMap V)
      → str_lt i k ≡ true
      → Above i m
      → Above i (insert k v m)
  unfolding insert
  insert-Above i k v [] h a = (h, tt)
  insert-Above i k v ((j, w) ∷ m) h a = ground (arith, insert-Above i k v m)

  pub insert-IsAscending :
      (k : Str) (v : V) (m : OrderedMap V) → IsAscending m → IsAscending (insert k v m)
  unfolding insert
  insert-IsAscending k v [] h = (tt, tt)
  insert-IsAscending k v ((j, w) ∷ m) h = elim (Bool-cases (j == k)) [
    | inl e ↦ rw e (rw ((==_iff j k).0 e) at (h.0), h.1)
    | inr ne ↦ rw ne (elim (Bool-cases (str_lt k j)) [
      | inl lt ↦ rw lt ((lt, Above-trans k j m lt h.0), (h.0, h.1))
      | inr ge ↦ rw ge (
        insert-Above j k v m (str_lt-total k j (ground (arith, ==_iff k j, ==_iff j k)) ge) h.0,
        insert-IsAscending k v m h.1,
      )
    ])
  ]

  erase-Above : (i k : Str) (m : OrderedMap V) → Above i m → Above i (erase k m)
  unfolding erase
  erase-Above i k [] a = tt
  erase-Above i k ((j, v) ∷ m) a = ground (arith, erase-Above i k m)

  pub erase-IsAscending : (k : Str) (m : OrderedMap V) → IsAscending m → IsAscending (erase k m)
  unfolding erase
  erase-IsAscending k [] h = tt
  erase-IsAscending k ((j, v) ∷ m) h = elim (Bool-cases (j == k)) [
    | inl e ↦ rw e (erase-IsAscending k m h.1)
    | inr ne ↦ rw ne (erase-Above j k m h.0, erase-IsAscending k m h.1)
  ]

  -- A key below all others is not there.
  pub find-Above : (k : Str) (m : OrderedMap V) → Above k m → find k m ≡ none
  unfolding find
  find-Above k [] a = refl
  find-Above k ((j, v) ∷ m) a =
      let ne : (j == k) ≡ false = ground (arith, str_lt-ne k j a.0, ==_iff k j, ==_iff j k) in
      rw ne (find-Above k m a.1)

  -- Every key is below `k`.
  abbrev pub Below : OrderedMap V → Str → Type 0
  Below [] k = Unit
  Below ((j, v) ∷ m) k = (str_lt j k ≡ true) × Below m k

  -- A key above all others goes to the end.
  pub insert-append :
      (m : OrderedMap V) (k : Str) (v : V) → Below m k → insert k v m ≡ m ++ (k, v) ∷ []
  unfolding insert
  insert-append [] k v h = refl
  insert-append ((j, w) ∷ m) k v h =
      rw (str_lt-ne j k h.0, not_lt_back)
        (ap (λ (t : OrderedMap V). (j, w) ∷ t) (insert-append m k v h.1))
    where
      not_lt_back : str_lt k j ≡ false
      not_lt_back = elim (Bool-cases (str_lt k j)) [
        | inl e ↦ cc (str_lt_trans k j k e h.0, str_lt_irrefl k)
        | inr e ↦ e
      ]
