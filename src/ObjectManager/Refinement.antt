-- ===== src/ObjectManager/Refinement.antt =====
-- What a client of the port can show is at all times the snapshots of what the manager has cached.
mod Posting
mod Objects
mod Changes
use bluez_obex_native.Common.{
  ◌≡◌, refl, ◌∙◌, Bool, true, false, not, ◌&&◌, List, [], ◌∷◌, is_empty, if_intro,
}
use bluez_obex_native.Common.Strings.{Str, bytes, ◌==◌}
use bluez_obex_native.OrderedMap.{OrderedMap}
use bluez_obex_native.Sdbus.{Sdbus}
use bluez_obex_native.Bus.{InterfacesMap, Answer, reply, error, Bus, call_method, all_objects}
use bluez_obex_native.ObjectManager.State.{
  Manager, post_sentinel, answer, sent, object_manager_iface,
}
use bluez_obex_native.ObjectManager.Signals.{
  connection_failed, on_name_owner_changed, Signal, interfaces_added, interfaces_removed,
  properties_changed, name_owner_changed, unreadable, loop_failed, created, handle, run,
  add_objects, managed, get_managed_objects,
}
use bluez_obex_native.ObjectManager.View.{view-append, on_ended-shown, IsFaithful}
use bluez_obex_native.ObjectManager.View.Lookups.{view-empty, props_at-empty}
use Objects.{on_interfaces_added-IsFaithful, on_interfaces_removed-IsFaithful}
use Changes.{on_properties_changed-IsFaithful}

module _ ⦃s : Sdbus⦄ where
  pub created-IsFaithful : IsFaithful created
  created-IsFaithful p i = rw (view-empty, props_at-empty)

  pub connection_failed-IsFaithful :
      (message : Str) (m : Manager) → IsFaithful m → IsFaithful (connection_failed message m)
  unfolding connection_failed
  connection_failed-IsFaithful message m h =
      if_intro IsFaithful m.failed m _ (λ _. h)
        (λ _ p i.
          rw (props_at-empty p i, view-append p i, view-append p i m.posted, h p i)
            (on_ended-shown p i _))

  on_name_owner_changed-IsFaithful :
      (name old_owner new_owner : Str) (m : Manager)
      → IsFaithful m
      → IsFaithful (on_name_owner_changed name old_owner new_owner m)
  unfolding on_name_owner_changed
  on_name_owner_changed-IsFaithful name old_owner new_owner m h =
      let message : Str = bytes "OBEX service owner changed; create a new client" in
      if_intro IsFaithful
        (name == bytes "org.bluez.obex" && not (is_empty old_owner) && not (old_owner == new_owner))
        (connection_failed message m) m (λ _. connection_failed-IsFaithful message m h) (λ _. h)

  module _ ⦃bus : Bus⦄ where
    -- Every signal keeps the view of a client equal to the cache, whatever the services answer.
    pub handle-IsFaithful :
        (signal : Signal) (m : Manager) → IsFaithful m → IsFaithful (handle signal m)
    unfolding handle
    handle-IsFaithful (interfaces_added path interfaces) m h =
        on_interfaces_added-IsFaithful path interfaces m h
    handle-IsFaithful (interfaces_removed path interfaces) m h =
        on_interfaces_removed-IsFaithful path interfaces m h
    handle-IsFaithful (properties_changed path iface changed invalidated) m h =
        on_properties_changed-IsFaithful path iface changed invalidated m h
    handle-IsFaithful (name_owner_changed name old_owner new_owner) m h =
        on_name_owner_changed-IsFaithful name old_owner new_owner m h
    handle-IsFaithful unreadable m h = h
    handle-IsFaithful (loop_failed message) m h = connection_failed-IsFaithful message m h

    add_objects-IsFaithful :
        (objects : OrderedMap InterfacesMap) (m : Manager)
        → IsFaithful m
        → IsFaithful (add_objects objects m)
    unfolding add_objects
    add_objects-IsFaithful [] m h = h
    add_objects-IsFaithful ((path, interfaces) ∷ objects) m h =
        add_objects-IsFaithful objects _ (on_interfaces_added-IsFaithful path interfaces m h)

    managed-IsFaithful :
        (a : Answer (OrderedMap InterfacesMap)) (m : Manager)
        → IsFaithful m
        → IsFaithful (managed a m).1
    managed-IsFaithful (error name message) m h = h
    managed-IsFaithful (reply objects) m h =
        unfold post_sentinel in λ p i. view-append p i _ _ ∙ add_objects-IsFaithful objects m h p i

    pub get_managed_objects-IsFaithful :
        (m : Manager) → IsFaithful m → IsFaithful (get_managed_objects m).1
    unfolding get_managed_objects
    get_managed_objects-IsFaithful m h =
        let r = call_method (bytes "/") object_manager_iface (bytes "GetManagedObjects") [] in
        managed-IsFaithful (answer all_objects r m) (sent r m) h

    run-IsFaithful :
        (signals : List Signal) (m : Manager) → IsFaithful m → IsFaithful (run signals m)
    unfolding run
    run-IsFaithful [] m h = h
    run-IsFaithful (signal ∷ signals) m h = run-IsFaithful signals _ (handle-IsFaithful signal m h)

    -- After the first query and any signals, whatever the services answer, what a client can show
    -- from the messages of the port is for each interface of each object the snapshot of its cached
    -- properties, and nothing where none are cached.
    pub view_of_run :
        (signals : List Signal) → IsFaithful (run signals (get_managed_objects created).1)
    view_of_run signals =
        run-IsFaithful signals _ (get_managed_objects-IsFaithful created created-IsFaithful)
