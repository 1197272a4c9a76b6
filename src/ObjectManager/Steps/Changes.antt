-- ===== src/ObjectManager/Steps/Changes.antt =====
-- The handler of `PropertiesChanged` and the first query, made of such steps.
use bluez_obex_native.Common.{
  subst, refl, Bool, false, not, ◌||◌, Option, none, some, List, [], ◌∷◌, if_intro, match_intro,
}
use bluez_obex_native.Common.Strings.{Str, bytes}
use bluez_obex_native.OrderedMap.{OrderedMap}
use bluez_obex_native.Sdbus.{Sdbus}
use bluez_obex_native.Bus.{
  PropertiesMap, InterfacesMap, Request, Answer, reply, error, Bus, one_variant, get_property,
  ReplyType, all_objects, call_method,
}
use bluez_obex_native.ObjectManager.Interfaces.{is_obex_interface}
use bluez_obex_native.ObjectManager.State.{
  Manager, post_sentinel, post_properties, through, ask, answer, sent, object_manager_iface,
}
use bluez_obex_native.ObjectManager.Changes.{
  merge_changed, drop_invalidated, cached_at, store_refreshed, refreshed, ask_property, refresh,
  publish_changes, change_properties, on_properties_changed,
}
use bluez_obex_native.ObjectManager.Signals.{add_objects, managed, get_managed_objects}
use bluez_obex_native.ObjectManager.Steps.{
  IsKept, post_snapshot-keeps, report-keeps, on_interfaces_added-keeps,
}

module _ ⦃s : Sdbus⦄ (P : Manager → Type 0) (k : IsKept P) where
  open s use {Variant}

  module _ ⦃bus : Bus⦄ where
    through-keeps :
        (t : ReplyType) (r : Request) (a : Answer (Unit {0})) (m : Manager)
        → P m
        → P (through t r a m).1
    unfolding through
    through-keeps t r (error name message) m h = h
    through-keeps t r (reply _) m h = k.request r m h

    abbrev KeptOption : Option Manager → Type 0
    KeptOption none = Unit
    KeptOption (some m) = P m

    refreshed-keeps :
        (path iface key : Str) (a : Answer Variant) (m : Manager)
        → P m
        → KeptOption (refreshed path iface key (a, m))
    unfolding refreshed store_refreshed post_properties
    refreshed-keeps path iface key (error name message) m h = report-keeps P k path name message m h
    refreshed-keeps path iface key (reply value) m h =
        match_intro KeptOption (cached_at path iface m.interfaces_by_path) none _ (λ _. tt)
          (λ c _. post_snapshot-keeps P k path iface _ _ (k.cache _ m h))

    refresh-keeps :
        (path iface : Str) (keys : List Str) (m : Manager) → P m → P (refresh path iface keys m)
    unfolding refresh ask
    refresh-keeps path iface [] m h = h
    refresh-keeps path iface (key ∷ keys) m h =
        let asked : Answer Variant × Manager = ask_property path iface key m in
        let h' : P asked.1 =
          through-keeps one_variant (get_property path iface key) _ _ (k.request _ m h) in
        match_intro P (refreshed path iface key asked) asked.1 (λ m'. refresh path iface keys m')
          (λ _. h')
          (λ m' e.
            refresh-keeps path iface keys m'
              (subst KeptOption e (refreshed-keeps path iface key asked.0 asked.1 h')))

    pub on_properties_changed-keeps :
        (path iface : Str) (changed : PropertiesMap) (invalidated : List Str) (m : Manager)
        → P m
        → P (on_properties_changed path iface changed invalidated m)
    unfolding on_properties_changed change_properties publish_changes post_properties
    on_properties_changed-keeps path iface changed invalidated m h =
        if_intro P (m.failed || not (is_obex_interface iface)) m _ (λ _. h)
          (λ _.
            match_intro P (cached_at path iface m.interfaces_by_path) m _ (λ _. h)
              (λ c _.
                let merged : PropertiesMap × Bool = merge_changed iface changed (c.1, false) in
                let state : PropertiesMap × List Str × Bool =
                  drop_invalidated iface invalidated (merged.0, [], merged.1) in
                if_intro P state.2 _ _
                  (λ _.
                    refresh-keeps path iface state.1 _
                      (post_snapshot-keeps P k path iface _ _ (k.cache _ m h)))
                  (λ _. k.cache _ m h)))

    add_objects-keeps :
        (objects : OrderedMap InterfacesMap) (m : Manager) → P m → P (add_objects objects m)
    unfolding add_objects
    add_objects-keeps [] m h = h
    add_objects-keeps ((path, interfaces) ∷ objects) m h =
        add_objects-keeps objects _ (on_interfaces_added-keeps P k path interfaces m h)

    managed-keeps : (a : Answer (OrderedMap InterfacesMap)) (m : Manager) → P m → P (managed a m).1
    unfolding post_sentinel
    managed-keeps (error name message) m h = h
    managed-keeps (reply objects) m h = k.post 0x00 _ _ refl (add_objects-keeps objects m h)

    pub get_managed_objects-keeps : (m : Manager) → P m → P (get_managed_objects m).1
    unfolding get_managed_objects
    get_managed_objects-keeps m h =
        let r : Request =
          call_method (bytes "/") object_manager_iface (bytes "GetManagedObjects") [] in
        managed-keeps (answer all_objects r m) (sent r m) (k.request r m h)
