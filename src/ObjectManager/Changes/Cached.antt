-- ===== src/ObjectManager/Changes/Cached.antt =====
-- What is cached of one property, through a message, a request and an update of the cache.
use bluez_obex_native.Common.{
  ◌≡◌, refl, subst, true, false, Option, none, some, List, [], ◌∷◌, ◌++◌, ◌⊎◌, inl, inr, arith,
  if_intro,
}
use bluez_obex_native.Common.Strings.{Str, ◌==◌, ==_iff}
use bluez_obex_native.OrderedMap
use bluez_obex_native.OrderedMap.{OrderedMap}
use bluez_obex_native.OrderedMap.Laws.{find-insert}
use bluez_obex_native.Sdbus.{Sdbus}
use bluez_obex_native.Bus.{
  PropertiesMap, InterfacesMap, Answer, reply, error, Bus, ReplyType, Request, get_property,
  one_variant, nothing, create_proxy,
}
use bluez_obex_native.ObjectManager.State.{
  Manager, post_snapshot, through, ask, report, sent, obex_service,
}
use bluez_obex_native.ObjectManager.View.{props_at}
use bluez_obex_native.ObjectManager.Changes.{cached_at, with_cached, ask_property}
use bluez_obex_native.ObjectManager.Changes.Caching.{cached_at-props_at, with_cached-props_at}

module _ ⦃s : Sdbus⦄ where
  open s use {Variant}

  -- The interface is cached at the path, and what is under the key meets `Q`.
  abbrev pub Holds : Str → Str → Str → (Option Variant → Type 0) → Manager → Type 0
  Holds path iface key Q m =
      (props : PropertiesMap) × (props_at path iface m.interfaces_by_path ≡ some props)
      × Q (OrderedMap.find key props)

  pub same_cache-Holds :
      (path iface key : Str) (Q : Option Variant → Type 0) (m m' : Manager)
      → m'.interfaces_by_path ≡ m.interfaces_by_path
      → Holds path iface key Q m
      → Holds path iface key Q m'
  same_cache-Holds path iface key Q m m' e h = rw e h

  pub post_snapshot-cache :
      (path iface : Str) (props : PropertiesMap) (m : Manager)
      → (post_snapshot path iface props m).interfaces_by_path ≡ m.interfaces_by_path
  unfolding post_snapshot
  post_snapshot-cache path iface props m = ground arith

  pub report-cache :
      (path name message : Str) (m : Manager)
      → (report path name message m).interfaces_by_path ≡ m.interfaces_by_path
  unfolding report
  report-cache path name message m = ground arith

  same_string : (x : Str) → x == x ≡ true
  same_string x = (==_iff x x).1 refl

  pub stored-Holds :
      (path iface key : Str) (Q : Option Variant → Type 0) (known : InterfacesMap)
      (old props : PropertiesMap) (m : Manager)
      → cached_at path iface m.interfaces_by_path ≡ some (known, old)
      → Q (OrderedMap.find key props)
      → Holds path iface key Q (with_cached path iface known props m)
  stored-Holds path iface key Q known old props m e q = (
    props,
    rw
        (
          with_cached-props_at path iface known old props m e path iface,
          same_string path,
          same_string iface,
        )
        refl,
    q,
  )

  pub cached-Holds :
      (path iface key : Str) (Q : Option Variant → Type 0) (known : InterfacesMap)
      (old : PropertiesMap) (m : Manager)
      → cached_at path iface m.interfaces_by_path ≡ some (known, old)
      → Holds path iface key Q m
      → Q (OrderedMap.find key old)
  cached-Holds path iface key Q known old m e (props, at, q) =
      let same : props ≡ old = ground (arith, cached_at-props_at path iface known old m e) in
      subst (λ x. Q (OrderedMap.find key x)) same q

  -- A value under `k` is new; what is under the key meets `Q` where it is that value, and where it
  -- has stayed.
  pub insert-meets :
      (key k : Str) (value : Variant) (Q : Option Variant → Type 0) (props : PropertiesMap)
      → (k == key ≡ true → Q (some value))
      → (k == key ≡ false → Q (OrderedMap.find key props))
      → Q (OrderedMap.find key (OrderedMap.insert k value props))
  insert-meets key k value Q props new kept =
      rw (find-insert k key value props)
        (if_intro Q (k == key) (some value) (OrderedMap.find key props) new kept)

  pub cached_at-Holds :
      (path iface key : Str) (Q : Option Variant → Type 0) (m : Manager)
      → cached_at path iface m.interfaces_by_path ≡ none
      → Holds path iface key Q m
      → ⊥
  unfolding cached_at props_at
  cached_at-Holds path iface key Q m e (props, at, q) = ground arith

  module _ ⦃bus : Bus⦄ where
    -- The service of the object has answered a request for the property with the value.
    abbrev pub IsServed : Str → Str → Str → Variant → Type 0
    IsServed path iface key value =
        (log : List Request) × (bus.respond one_variant log (get_property path iface key)
          ≡ reply value)

    -- The service has refused the request, or the proxy for it could not be made.
    abbrev pub IsRefused : Str → Str → Str → Type 0
    IsRefused path iface key =
        (log : List Request) × (name : Str) × (message : Str) × ((bus.respond nothing log
              (create_proxy obex_service path)
            ≡ error name message)
          ⊎ (bus.respond one_variant log (get_property path iface key) ≡ error name message))

    -- What is cached of a property that was asked for: a value with which the service has answered,
    -- or none where it has refused.
    abbrev pub IsAnswered : Str → Str → Str → Option Variant → Type 0
    IsAnswered path iface key o =
        ((value : Variant) × (o ≡ some value) × IsServed path iface key value)
        ⊎ ((o ≡ none) × IsRefused path iface key)

    pub through-cache :
        (t : ReplyType) (r : Request) (a : Answer (Unit {0})) (m : Manager)
        → (through t r a m).1.interfaces_by_path ≡ m.interfaces_by_path
    unfolding through
    through-cache t r (error name message) m = refl
    through-cache t r (reply _) m = refl

    pub asked-IsServed :
        (path iface key : Str) (m : Manager) (value : Variant)
        → (ask_property path iface key m).0 ≡ reply value
        → IsServed path iface key value
    unfolding ask through
    asked-IsServed path iface key m value h =
        served (bus.respond nothing m.requests (create_proxy obex_service path)) h
      where
        served :
            (a : Answer (Unit {0}))
            → (through one_variant
                (get_property path iface key)
                a
                (sent (create_proxy obex_service path) m)).0
              ≡ reply value
            → IsServed path iface key value
        served (error name message) e = cc
        served (reply _) e = (m.requests ++ create_proxy obex_service path ∷ [], e)

    pub asked-IsRefused :
        (path iface key : Str) (m : Manager)
        → ((value : Variant) → (ask_property path iface key m).0 ≡ reply value → ⊥)
        → IsRefused path iface key
    unfolding ask through
    asked-IsRefused path iface key m h =
        unanswered (bus.respond nothing m.requests (create_proxy obex_service path)) refl h
      where
        refused :
            (b : Answer Variant)
            → bus.respond one_variant
                (m.requests ++ create_proxy obex_service path ∷ [])
                (get_property path iface key)
              ≡ b
            → ((value : Variant) → b ≡ reply value → ⊥)
            → IsRefused path iface key
        refused (reply value) e none_of = elim (none_of value refl) [ ]
        refused (error name message) e none_of =
            (m.requests ++ create_proxy obex_service path ∷ [], name, message, inr e)

        unanswered :
            (a : Answer (Unit {0}))
            → bus.respond nothing m.requests (create_proxy obex_service path) ≡ a
            → ((value : Variant)
                → (through one_variant
                    (get_property path iface key)
                    a
                    (sent (create_proxy obex_service path) m)).0
                  ≡ reply value
                → ⊥)
            → IsRefused path iface key
        unanswered (error name message) e none_of = (m.requests, name, message, inl e)
        unanswered (reply _) e none_of = refused _ refl none_of
