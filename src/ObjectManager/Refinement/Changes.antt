-- ===== src/ObjectManager/Refinement/Changes.antt =====
-- Changes of properties keep what a client can show equal to the cache.
use bluez_obex_native.Common.{
  ◌≡◌, refl, subst, ◌∙◌, Bool, true, false, not, ◌||◌, Option, none, some, List, [], ◌∷◌, ◌++◌,
  arith, if_intro, match_intro,
}
use bluez_obex_native.Common.Strings.{Str}
use bluez_obex_native.OrderedMap
use bluez_obex_native.OrderedMap.{OrderedMap}
use bluez_obex_native.Sdbus.{Sdbus}
use bluez_obex_native.Bus.{
  PropertiesMap, InterfacesMap, Answer, reply, error, Bus, ReplyType, Request, get_property,
  one_variant,
}
use bluez_obex_native.ObjectManager.Interfaces.{is_obex_interface}
use bluez_obex_native.ObjectManager.State.{Manager, post_snapshot, post_properties, through, ask}
use bluez_obex_native.ObjectManager.View.{IsFaithful}
use bluez_obex_native.ObjectManager.View.Lookups.{present_interface}
use bluez_obex_native.ObjectManager.Changes.{
  merge_changed, drop_invalidated, cached_at, with_cached, store_refreshed, refreshed, refresh,
  publish_changes, change_properties, on_properties_changed, ask_property,
}
use bluez_obex_native.ObjectManager.Changes.Caching.{
  cached_at-find, cached_at-props_at, with_cached-props_at,
}
use bluez_obex_native.ObjectManager.Refinement.Posting.{
  publish-IsFaithful, cached_ready, report-IsFaithful,
}

module _ ⦃s : Sdbus⦄ where
  open s use {Variant}

  -- Where the flag stays down, the loop has left the cache alone.
  merge_changed_flag :
      (iface : Str) (changed cached : PropertiesMap) (b : Bool)
      → (merge_changed iface changed (cached, b)).1 ≡ false
      → ((merge_changed iface changed (cached, b)).0 ≡ cached) × (b ≡ false)
  unfolding merge_changed
  merge_changed_flag iface [] cached b h = (refl, h)
  merge_changed_flag iface ((key, value) ∷ changed) cached b h = ground (
    arith,
    merge_changed_flag iface changed (OrderedMap.insert key value cached) true,
    merge_changed_flag iface changed cached b,
  )

  drop_invalidated_flag :
      (iface : Str) (invalidated : List Str) (cached : PropertiesMap) (relevant : List Str)
      (b : Bool)
      → (drop_invalidated iface invalidated (cached, relevant, b)).2 ≡ false
      → ((drop_invalidated iface invalidated (cached, relevant, b)).0 ≡ cached) × (b ≡ false)
  unfolding drop_invalidated
  drop_invalidated_flag iface [] cached relevant b h = (refl, h)
  drop_invalidated_flag iface (key ∷ invalidated) cached relevant b h = ground (
    arith,
    drop_invalidated_flag iface invalidated (OrderedMap.erase key cached) (relevant ++ key ∷ [])
        true,
    drop_invalidated_flag iface invalidated cached relevant b,
  )

  publish_cached-IsFaithful :
      (path iface : Str) (known : InterfacesMap) (old props : PropertiesMap) (m : Manager)
      → is_obex_interface iface ≡ true
      → IsFaithful m
      → cached_at path iface m.interfaces_by_path ≡ some (known, old)
      → IsFaithful (post_snapshot path iface props (with_cached path iface known props m))
  publish_cached-IsFaithful path iface known old props m obex h e =
      publish-IsFaithful path iface props m (with_cached path iface known props m) obex h
        (cached_ready path iface old m obex h (cached_at-props_at path iface known old m e))
        (λ p i _. refl) (with_cached-props_at path iface known old props m e)

  -- A cache that was written with what it held.
  same_cached-IsFaithful :
      (path iface : Str) (known : InterfacesMap) (props : PropertiesMap) (m : Manager)
      → IsFaithful m
      → cached_at path iface m.interfaces_by_path ≡ some (known, props)
      → IsFaithful (with_cached path iface known props m)
  same_cached-IsFaithful path iface known props m h e p i =
      let (at_path, at_iface) = cached_at-find path iface m.interfaces_by_path known props e in
      rw
        (
          with_cached-props_at path iface known props props m e p i,
          present_interface p i path iface known props m.interfaces_by_path at_path at_iface,
        )
        (h p i)

  module _ ⦃bus : Bus⦄ where
    through-IsFaithful :
        (t : ReplyType) (r : Request) (a : Answer (Unit {0})) (m : Manager)
        → IsFaithful m
        → IsFaithful (through t r a m).1
    unfolding through
    through-IsFaithful t r (error name message) m h = h
    through-IsFaithful t r (reply _) m h = h

    -- The result of a round, if it did not return.
    abbrev IsFaithfulOption : Option Manager → Type 0
    IsFaithfulOption none = Unit
    IsFaithfulOption (some m) = IsFaithful m

    refreshed-IsFaithful :
        (path iface key : Str) (a : Answer Variant) (m : Manager)
        → is_obex_interface iface ≡ true
        → IsFaithful m
        → IsFaithfulOption (refreshed path iface key (a, m))
    unfolding refreshed store_refreshed post_properties
    refreshed-IsFaithful path iface key (error name message) m obex h =
        report-IsFaithful path name message m h
    refreshed-IsFaithful path iface key (reply value) m obex h =
        match_intro IsFaithfulOption (cached_at path iface m.interfaces_by_path) none _ (λ _. tt)
          (λ c e.
            publish_cached-IsFaithful path iface c.0 c.1 (OrderedMap.insert key value c.1) m obex h
              e)

    refresh-IsFaithful :
        (path iface : Str) (keys : List Str) (m : Manager)
        → is_obex_interface iface ≡ true
        → IsFaithful m
        → IsFaithful (refresh path iface keys m)
    unfolding refresh ask
    refresh-IsFaithful path iface [] m obex h = h
    refresh-IsFaithful path iface (key ∷ keys) m obex h =
        let asked : Answer Variant × Manager = ask_property path iface key m in
        let h' : IsFaithful asked.1 =
          through-IsFaithful one_variant (get_property path iface key) _ _ h in
        match_intro IsFaithful (refreshed path iface key asked) asked.1
          (λ m'. refresh path iface keys m') (λ _. h')
          (λ m' e. refresh-IsFaithful path iface keys m' obex (
            subst IsFaithfulOption e (refreshed-IsFaithful path iface key asked.0 asked.1 obex h')))

    publish_changes-IsFaithful :
        (path iface : Str) (known : InterfacesMap) (old : PropertiesMap)
        (state : PropertiesMap × List Str × Bool) (m : Manager)
        → is_obex_interface iface ≡ true
        → IsFaithful m
        → cached_at path iface m.interfaces_by_path ≡ some (known, old)
        → (state.2 ≡ false → state.0 ≡ old)
        → IsFaithful (publish_changes path iface known state m)
    unfolding publish_changes post_properties
    publish_changes-IsFaithful path iface known old (cached, relevant, b) m obex h e same =
        if_intro IsFaithful b _ _
          (λ _.
            refresh-IsFaithful path iface relevant _ obex
              (publish_cached-IsFaithful path iface known old cached m obex h e))
          (λ f. same_cached-IsFaithful path iface known cached m h (rw (same f) e))

    change_properties-IsFaithful :
        (path iface : Str) (changed : PropertiesMap) (invalidated : List Str) (m : Manager)
        → is_obex_interface iface ≡ true
        → IsFaithful m
        → IsFaithful (change_properties path iface changed invalidated m)
    unfolding change_properties
    change_properties-IsFaithful path iface changed invalidated m obex h =
        match_intro IsFaithful (cached_at path iface m.interfaces_by_path) m _ (λ _. h)
          (λ c e.
            let merged : PropertiesMap × Bool = merge_changed iface changed (c.1, false) in
            publish_changes-IsFaithful path iface c.0 c.1
              (drop_invalidated iface invalidated (merged.0, [], merged.1)) m obex h e
              (λ f.
                let (same, down) = drop_invalidated_flag iface invalidated merged.0 [] merged.1 f in
                same ∙ (merge_changed_flag iface changed c.1 false down).0))

    pub on_properties_changed-IsFaithful :
        (path iface : Str) (changed : PropertiesMap) (invalidated : List Str) (m : Manager)
        → IsFaithful m
        → IsFaithful (on_properties_changed path iface changed invalidated m)
    unfolding on_properties_changed
    on_properties_changed-IsFaithful path iface changed invalidated m h =
        if_intro IsFaithful (m.failed || not (is_obex_interface iface)) m _ (λ _. h)
          (λ e.
            change_properties-IsFaithful path iface changed invalidated m
              (known_interface m.failed (is_obex_interface iface) e) h)
      where
        known_interface : (a b : Bool) → (a || not b) ≡ false → b ≡ true
        known_interface a b e = ground arith
