-- ===== src/ObjectManager/Steps.antt =====
-- What the handlers of native/src/obex_object_manager.cpp are made of: as long as the connection
-- does not fail, they post messages other than the end of the stream, change the cache and ask the
-- services.
pub mod Changes
use bluez_obex_native.Common.{
  ℕ, ◌≡◌, refl, Bool, true, false, not, ◌||◌, Option, none, some, List, [], ◌∷◌, ◌++◌, eqb,
  is_empty, if_intro, match_intro, if◌then◌else◌,
}
use bluez_obex_native.Common.Strings.{Str, bytes, ◌==◌}
use bluez_obex_native.OrderedMap
use bluez_obex_native.OrderedMap.{OrderedMap}
use bluez_obex_native.Sdbus.{Sdbus}
use bluez_obex_native.Bus.{
  PropertiesMap, InterfacesMap, Request, Answer, reply, error, Bus, one_variant, get_property,
  ReplyType, Reply, all_objects, call_method,
}
use bluez_obex_native.ObjectManager.Interfaces.{
  is_obex_interface, session_iface, transfer_iface, phonebook_iface, message_iface,
  message_access_iface,
}
use bluez_obex_native.ObjectManager.Messages.{Payload}
use bluez_obex_native.ObjectManager.State.{
  Manager, post_bytes, post_snapshot, post_added, post_removed, post_error, post_sentinel, report,
  is_gone, post_properties, through, ask, answer, sent, object_manager_iface,
}
use bluez_obex_native.ObjectManager.Objects.{
  interfaces_at, without, add_interface, add_interfaces, on_interfaces_added, remove_interface,
  remove_interfaces, on_interfaces_removed,
}
use bluez_obex_native.ObjectManager.Changes.{
  merge_changed, drop_invalidated, with_cached, cached_at, store_refreshed, refreshed, ask_property,
  refresh, publish_changes, change_properties, on_properties_changed,
}
use bluez_obex_native.ObjectManager.Signals.{add_objects, managed, get_managed_objects}

module _ ⦃s : Sdbus⦄ where
  open s use {Variant}

  -- A property of the manager that these three keep.
  pub record IsKept (P : Manager → Type 0) : Type 0 where
    pub post :
        (d : ℕ) (payload : Payload) (m : Manager)
        → eqb d 0xff ≡ false
        → P m
        → P (post_bytes d payload m)
    pub cache :
        (objects : OrderedMap InterfacesMap) (m : Manager)
        → P m
        → P (record m { interfaces_by_path = objects })
    pub request : (r : Request) (m : Manager) → P m → P (sent r m)

  module _ (P : Manager → Type 0) (k : IsKept P) where
    pub post_snapshot-keeps :
        (path iface : Str) (props : PropertiesMap) (m : Manager)
        → P m
        → P (post_snapshot path iface props m)
    unfolding post_snapshot
    post_snapshot-keeps path iface props m h =
        if_intro P (iface == session_iface) _ _ (λ _. k.post 0x01 _ m refl h)
          (λ _.
            if_intro P (iface == transfer_iface) _ _ (λ _. k.post 0x02 _ m refl h)
              (λ _.
                if_intro P (iface == phonebook_iface) _ _ (λ _. k.post 0x03 _ m refl h)
                  (λ _.
                    if_intro P (iface == message_iface) _ _ (λ _. k.post 0x06 _ m refl h)
                      (λ _.
                        if_intro P (iface == message_access_iface) _ _ (λ _. k.post 0x07 _ m refl h)
                          (λ _. h)))))

    pub report-keeps :
        (path name message : Str) (m : Manager) → P m → P (report path name message m)
    unfolding report post_error
    report-keeps path name message m h =
        if_intro P (is_gone name) m _ (λ _. h) (λ _. k.post 0x20 _ m refl h)

    without-keeps :
        (path iface : Str) (known : InterfacesMap) (m : Manager)
        → P m
        → P (without path iface known m)
    without-keeps path iface known m h = k.cache _ m h

    module _ ⦃bus : Bus⦄ where
      add_interface-keeps :
          (path iface : Str) (props : PropertiesMap) (m : Manager)
          → P m
          → P (add_interface path iface props m)
      unfolding add_interface post_added post_properties
      add_interface-keeps path iface props m h = post_snapshot-keeps path iface props _ (
          if_intro P (not (OrderedMap.contains iface (interfaces_at path m))) _ _
            (λ _. k.post 0x7d _ _ refl (k.cache _ m h)) (λ _. k.cache _ m h))

      add_interfaces-keeps :
          (path : Str) (interfaces : InterfacesMap) (m : Manager)
          → P m
          → P (add_interfaces path interfaces m)
      unfolding add_interfaces
      add_interfaces-keeps path [] m h = h
      add_interfaces-keeps path ((iface, props) ∷ interfaces) m h =
          add_interfaces-keeps path interfaces _ (
            if_intro P (is_obex_interface iface) _ m (λ _. add_interface-keeps path iface props m h)
              (λ _. h))

      pub on_interfaces_added-keeps :
          (path : Str) (interfaces : InterfacesMap) (m : Manager)
          → P m
          → P (on_interfaces_added path interfaces m)
      unfolding on_interfaces_added
      on_interfaces_added-keeps path interfaces m h =
          if_intro P m.failed m _ (λ _. h) (λ _. add_interfaces-keeps path interfaces m h)

      remove_interface-keeps :
          (path iface : Str) (m : Manager) → P m → P (remove_interface path iface m)
      unfolding remove_interface post_removed
      remove_interface-keeps path iface m h =
          match_intro P (OrderedMap.find path m.interfaces_by_path) m _ (λ _. h)
            (λ known _.
              if_intro P (OrderedMap.contains iface known) _ _
                (λ _. k.post 0x7e _ _ refl (without-keeps path iface known m h))
                (λ _. without-keeps path iface known m h))

      remove_interfaces-keeps :
          (path : Str) (interfaces : List Str) (m : Manager)
          → P m
          → P (remove_interfaces path interfaces m)
      unfolding remove_interfaces
      remove_interfaces-keeps path [] m h = h
      remove_interfaces-keeps path (iface ∷ interfaces) m h =
          remove_interfaces-keeps path interfaces _ (
            if_intro P (is_obex_interface iface) _ m (λ _. remove_interface-keeps path iface m h)
              (λ _. h))

      pub on_interfaces_removed-keeps :
          (path : Str) (interfaces : List Str) (m : Manager)
          → P m
          → P (on_interfaces_removed path interfaces m)
      unfolding on_interfaces_removed
      on_interfaces_removed-keeps path interfaces m h =
          if_intro P m.failed m _ (λ _. h) (λ _. remove_interfaces-keeps path interfaces m h)
