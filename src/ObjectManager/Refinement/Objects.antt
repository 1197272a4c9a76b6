-- ===== src/ObjectManager/Refinement/Objects.antt =====
-- Objects that come and go keep what a client can show equal to the cache.
use bluez_obex_native.Common.{
  ◌≡◌, refl, ◌∙◌, ap, Bool, true, false, not, ◌&&◌, Option, none, some, List, [], ◌∷◌, arith,
  Bool-cases, if_intro, match_intro, inl, inr, if◌then◌else◌, is_some,
}
use bluez_obex_native.Common.Strings.{Str, ◌==◌, ==_iff, ==_refl}
use bluez_obex_native.OrderedMap
use bluez_obex_native.OrderedMap.{OrderedMap}
use bluez_obex_native.Sdbus.{Sdbus}
use bluez_obex_native.Bus.{PropertiesMap, InterfacesMap, Bus}
use bluez_obex_native.ObjectManager.Interfaces.{is_obex_interface}
use bluez_obex_native.ObjectManager.State.{Manager, post_added, post_removed, post_properties}
use bluez_obex_native.ObjectManager.View.{view, view-append, is_ready, props_at, IsFaithful}
use bluez_obex_native.ObjectManager.View.Lookups.{
  props_at-insert, props_at-without, absent_interface, props_at-contains, props_at-contained,
}
use bluez_obex_native.ObjectManager.Objects.{
  add_interface, add_interfaces, on_interfaces_added, remove_interface, remove_interfaces,
  on_interfaces_removed, interfaces_at, without,
}
use bluez_obex_native.ObjectManager.Changes.{with_cached}
use bluez_obex_native.ObjectManager.Refinement.Posting.{publish-IsFaithful, cached_ready}

module _ ⦃s : Sdbus⦄ where
  maybe_added : Bool → Str → Str → Manager → Manager
  maybe_added b path iface m = if b then post_added path iface m else m

  maybe_added-view :
      (b : Bool) (path iface : Str) (m : Manager) (p i : Str)
      → (path == p && iface == i) ≡ false
      → view p i (maybe_added b path iface m).posted ≡ view p i m.posted
  unfolding maybe_added post_added
  maybe_added-view true path iface m p i e = rw (view-append p i m.posted, e)
  maybe_added-view false path iface m p i e = refl

  -- An interface that is announced just where it is not cached yet is known to a client then.
  maybe_added_ready :
      (path iface : Str) (m m' : Manager) (o : Option PropertiesMap)
      → is_obex_interface iface ≡ true
      → IsFaithful m
      → m'.posted ≡ m.posted
      → props_at path iface m.interfaces_by_path ≡ o
      → is_ready (view path iface (maybe_added (not (is_some o)) path iface m').posted) ≡ true
  unfolding maybe_added post_added
  maybe_added_ready path iface m m' none obex h same e =
      rw (view-append path iface m'.posted, same, h path iface, e, ==_refl path, ==_refl iface)
  maybe_added_ready path iface m m' (some props) obex h same e =
      rw same (cached_ready path iface props m obex h e)

  maybe_added-cache :
      (b : Bool) (path iface : Str) (m : Manager)
      → (maybe_added b path iface m).interfaces_by_path ≡ m.interfaces_by_path
  unfolding maybe_added post_added
  maybe_added-cache true path iface m = refl
  maybe_added-cache false path iface m = refl

  module _ ⦃bus : Bus⦄ where
    add_interface-IsFaithful :
        (path iface : Str) (props : PropertiesMap) (m : Manager)
        → is_obex_interface iface ≡ true
        → IsFaithful m
        → IsFaithful (add_interface path iface props m)
    unfolding add_interface post_properties maybe_added
    add_interface-IsFaithful path iface props m obex h =
        let b : Bool = not (OrderedMap.contains iface (interfaces_at path m)) in
        let cached : Manager = with_cached path iface (interfaces_at path m) props m in
        publish-IsFaithful path iface props m (maybe_added b path iface cached) obex h
          (rw (props_at-contains path iface m.interfaces_by_path)
            (maybe_added_ready path iface m cached _ obex h refl refl))
          (λ p i e. maybe_added-view b path iface cached p i e)
          (λ p i.
            ap (props_at p i) (maybe_added-cache b path iface cached)
            ∙ props_at-insert p i path iface props (interfaces_at path m) m.interfaces_by_path refl)

    add_interfaces-IsFaithful :
        (path : Str) (interfaces : InterfacesMap) (m : Manager)
        → IsFaithful m
        → IsFaithful (add_interfaces path interfaces m)
    unfolding add_interfaces
    add_interfaces-IsFaithful path [] m h = h
    add_interfaces-IsFaithful path ((iface, props) ∷ interfaces) m h =
        add_interfaces-IsFaithful path interfaces _ (
          if_intro IsFaithful (is_obex_interface iface) (add_interface path iface props m) m
            (λ e. add_interface-IsFaithful path iface props m e h) (λ _. h))

    pub on_interfaces_added-IsFaithful :
        (path : Str) (interfaces : InterfacesMap) (m : Manager)
        → IsFaithful m
        → IsFaithful (on_interfaces_added path interfaces m)
    unfolding on_interfaces_added
    on_interfaces_added-IsFaithful path interfaces m h =
        if_intro IsFaithful m.failed m (add_interfaces path interfaces m) (λ _. h)
          (λ _. add_interfaces-IsFaithful path interfaces m h)

    remove_known-IsFaithful :
        (path iface : Str) (known : InterfacesMap) (m : Manager)
        → is_obex_interface iface ≡ true
        → OrderedMap.find path m.interfaces_by_path ≡ some known
        → IsFaithful m
        → IsFaithful (
            if OrderedMap.contains iface known
            then post_removed path iface (without path iface known m)
            else without path iface known m)
    remove_known-IsFaithful path iface known m obex e h =
        if_intro IsFaithful (OrderedMap.contains iface known) _ _
          (λ c p i.
            unfold post_removed in
            rw
              (
                view-append p i m.posted,
                props_at-without p i path iface known m.interfaces_by_path e,
              )
              (elim (Bool-cases (path == p && iface == i)) [
                | inl both ↦
                    let at_path : path ≡ p = ground (arith, ==_iff path p) in
                    let at_iface : iface ≡ i = ground (arith, ==_iff iface i) in
                    let (props, there) =
                      props_at-contained path iface known m.interfaces_by_path e c in
                    rw (both, ← at_path, ← at_iface, cached_ready path iface props m obex h there)
                | inr other ↦ rw other (h p i)
              ]))
          (λ c p i.
            rw
              (
                props_at-without p i path iface known m.interfaces_by_path e,
                absent_interface p i path iface known m.interfaces_by_path e c,
              )
              (h p i))

    remove_interface-IsFaithful :
        (path iface : Str) (m : Manager)
        → is_obex_interface iface ≡ true
        → IsFaithful m
        → IsFaithful (remove_interface path iface m)
    unfolding remove_interface
    remove_interface-IsFaithful path iface m obex h =
        match_intro IsFaithful (OrderedMap.find path m.interfaces_by_path) m _ (λ _. h)
          (λ known e. remove_known-IsFaithful path iface known m obex e h)

    remove_interfaces-IsFaithful :
        (path : Str) (interfaces : List Str) (m : Manager)
        → IsFaithful m
        → IsFaithful (remove_interfaces path interfaces m)
    unfolding remove_interfaces
    remove_interfaces-IsFaithful path [] m h = h
    remove_interfaces-IsFaithful path (iface ∷ interfaces) m h =
        remove_interfaces-IsFaithful path interfaces _ (
          if_intro IsFaithful (is_obex_interface iface) (remove_interface path iface m) m
            (λ e. remove_interface-IsFaithful path iface m e h) (λ _. h))

    pub on_interfaces_removed-IsFaithful :
        (path : Str) (interfaces : List Str) (m : Manager)
        → IsFaithful m
        → IsFaithful (on_interfaces_removed path interfaces m)
    unfolding on_interfaces_removed
    on_interfaces_removed-IsFaithful path interfaces m h =
        if_intro IsFaithful m.failed m (remove_interfaces path interfaces m) (λ _. h)
          (λ _. remove_interfaces-IsFaithful path interfaces m h)
