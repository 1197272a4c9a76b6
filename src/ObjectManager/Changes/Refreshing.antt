-- ===== src/ObjectManager/Changes/Refreshing.antt =====
-- The loop of the handler of PropertiesChanged that asks for the invalidated properties.
use bluez_obex_native.Common.{
  ◌≡◌, refl, subst, Bool, true, false, Option, none, some, List, [], ◌∷◌, inl, inr, Bool-cases,
  arith, match_intro,
}
use bluez_obex_native.Common.Strings.{Str, ◌==◌, ==_iff}
use bluez_obex_native.OrderedMap
use bluez_obex_native.OrderedMap.{OrderedMap}
use bluez_obex_native.Sdbus.{Sdbus}
use bluez_obex_native.Bus.{PropertiesMap, Answer, reply, error, Bus, get_property, one_variant}
use bluez_obex_native.ObjectManager.State.{Manager, post_snapshot, post_properties, ask, report}
use bluez_obex_native.ObjectManager.Changes.{
  cached_at, with_cached, store_refreshed, refreshed, refresh, ask_property,
}
use bluez_obex_native.ObjectManager.Changes.Merging.{has_key}
use bluez_obex_native.ObjectManager.Changes.Cached.{
  Holds, same_cache-Holds, post_snapshot-cache, report-cache, stored-Holds, cached-Holds,
  insert-meets, cached_at-Holds, IsServed, IsRefused, IsAnswered, through-cache, asked-IsServed,
  asked-IsRefused, IsServed, IsRefused, IsAnswered,
}

module _ ⦃s : Sdbus⦄ where
  open s use {Variant}

  module _ ⦃bus : Bus⦄ where
    abbrev HoldsOption : Str → Str → Str → (Option Variant → Type 0) → Option Manager → Type 0
    HoldsOption path iface key Q none = ⊥
    HoldsOption path iface key Q (some m) = Holds path iface key Q m

    -- A round of the loop takes what meets `P` to what meets `Q`, and does not return.
    refreshed-Holds :
        (path iface key k : Str) (P Q : Option Variant → Type 0) (a : Answer Variant) (m : Manager)
        → ((value : Variant) → a ≡ reply value → k == key ≡ true → Q (some value))
        → ((o : Option Variant)
            → ((value : Variant) → a ≡ reply value → k == key ≡ false)
            → P o
            → Q o)
        → Holds path iface key P m
        → HoldsOption path iface key Q (refreshed path iface k (a, m))
    unfolding refreshed store_refreshed post_properties
    refreshed-Holds path iface key k P Q (error name message) m new kept (props, at, p) =
        same_cache-Holds path iface key Q m (report path name message m)
          (report-cache path name message m)
          (props, at, kept (OrderedMap.find key props) (λ value e. cc) p)
    refreshed-Holds path iface key k P Q (reply value) m new kept h =
        match_intro (HoldsOption path iface key Q) (cached_at path iface m.interfaces_by_path) none
          _ (λ e. cached_at-Holds path iface key P m e h)
          (λ c e.
            let props : PropertiesMap = OrderedMap.insert k value c.1 in
            let m' : Manager = with_cached path iface c.0 props m in
            let p : P (OrderedMap.find key c.1) = cached-Holds path iface key P c.0 c.1 m e h in
            same_cache-Holds path iface key Q m' (post_snapshot path iface props m')
              (post_snapshot-cache path iface props m')
              (stored-Holds path iface key Q c.0 c.1 props m e (
                insert-meets key k value Q c.1 (new value refl)
                  (λ f. kept (OrderedMap.find key c.1) (λ v x. f) p))))

    asked-cache :
        (path iface k : Str) (m : Manager)
        → (ask_property path iface k m).1.interfaces_by_path ≡ m.interfaces_by_path
    unfolding ask
    asked-cache path iface k m = through-cache one_variant (get_property path iface k) _ _

    -- The same for the request of the round and what comes after it.
    round-Holds :
        (path iface key k : Str) (keys : List Str) (P Q R : Option Variant → Type 0) (m : Manager)
        → ((value : Variant)
            → (ask_property path iface k m).0 ≡ reply value
            → k == key ≡ true
            → Q (some value))
        → ((o : Option Variant)
            → ((value : Variant) → (ask_property path iface k m).0 ≡ reply value → k == key ≡ false)
            → P o
            → Q o)
        → ((m' : Manager)
            → Holds path iface key Q m'
            → Holds path iface key R (refresh path iface keys m'))
        → Holds path iface key P m
        → Holds path iface key R (refresh path iface (k ∷ keys) m)
    unfolding refresh
    round-Holds path iface key k keys P Q R m new kept after h =
        let asked : Answer Variant × Manager = ask_property path iface k m in
        let round : HoldsOption path iface key Q (refreshed path iface k asked) =
          refreshed-Holds path iface key k P Q asked.0 asked.1 new kept
            (same_cache-Holds path iface key P m asked.1 (asked-cache path iface k m) h) in
        match_intro (Holds path iface key R) (refreshed path iface k asked) asked.1
          (λ m'. refresh path iface keys m')
          (λ e. elim (subst (HoldsOption path iface key Q) e round) [ ])
          (λ m' e. after m' (subst (HoldsOption path iface key Q) e round))

    new_value :
        (path iface key k : Str) (m : Manager) (value : Variant)
        → (ask_property path iface k m).0 ≡ reply value
        → k == key ≡ true
        → IsAnswered path iface key (some value)
    new_value path iface key k m value e same = inl (
      value,
      refl,
      subst (λ x. IsServed path iface x value) ((==_iff k key).0 same)
          (asked-IsServed path iface k m value e),
    )

    -- Once a property was asked for it stays so.
    refresh-IsAnswered :
        (path iface key : Str) (keys : List Str) (m : Manager)
        → Holds path iface key (IsAnswered path iface key) m
        → Holds path iface key (IsAnswered path iface key) (refresh path iface keys m)
    unfolding refresh
    refresh-IsAnswered path iface key [] m h = h
    refresh-IsAnswered path iface key (k ∷ keys) m h =
        round-Holds path iface key k keys (IsAnswered path iface key) (IsAnswered path iface key)
          (IsAnswered path iface key) m (new_value path iface key k m) (λ o other q. q)
          (refresh-IsAnswered path iface key keys) h

    -- A property that is not among the keys is left alone.
    pub refresh-keeps :
        (path iface key : Str) (Q : Option Variant → Type 0) (keys : List Str) (m : Manager)
        → has_key key keys ≡ false
        → Holds path iface key Q m
        → Holds path iface key Q (refresh path iface keys m)
    unfolding refresh has_key
    refresh-keeps path iface key Q [] m f h = h
    refresh-keeps path iface key Q (k ∷ keys) m f h =
        round-Holds path iface key k keys Q Q Q m (λ value e same. cc) (λ o other q. q)
          (λ m'. refresh-keeps path iface key Q keys m' (ground arith)) h

    -- One that is among them, and is not cached, is asked for.
    pub refresh-asks :
        (path iface key : Str) (keys : List Str) (m : Manager)
        → has_key key keys ≡ true
        → Holds path iface key (λ o. o ≡ none) m
        → Holds path iface key (IsAnswered path iface key) (refresh path iface keys m)
    unfolding has_key
    refresh-asks path iface key [] m f h = cc
    refresh-asks path iface key (k ∷ keys) m f h = elim (Bool-cases (k == key)) [
      | inl same ↦
          round-Holds path iface key k keys (λ o. o ≡ none) (IsAnswered path iface key)
            (IsAnswered path iface key) m (new_value path iface key k m)
            (λ o other absent. inr (
              absent,
              subst (IsRefused path iface) ((==_iff k key).0 same)
                  (asked-IsRefused path iface k m (λ value e. differ same (other value e))),
            ))
            (refresh-IsAnswered path iface key keys) h
      | inr apart ↦
          round-Holds path iface key k keys (λ o. o ≡ none) (λ o. o ≡ none)
            (IsAnswered path iface key) m (λ value e same. cc) (λ o other q. q)
            (λ m'. refresh-asks path iface key keys m' (ground arith)) h
    ]
      where
        differ : {b : Bool} → b ≡ true → b ≡ false → ⊥
        differ t f = cc
