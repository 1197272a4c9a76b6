-- ===== src/ObjectManager/Ending.antt =====
-- native/src/obex_object_manager.cpp: the end of the connection (`connection_failed`), after which
-- nothing more is posted.
use bluez_obex_native.Common.{
  ◌≡◌, refl, true, false, not, if◌then◌else◌, ◌&&◌, List, [], ◌∷◌, is_empty, if_intro,
}
use bluez_obex_native.Common.Strings.{Str, bytes, ◌==◌}
use bluez_obex_native.Common.{subst, sym, ℕ, ◌+◌, ◌++◌, arith, eqb, inl, inr, ◌⊎◌}
use bluez_obex_native.ObjectManager.Messages.{Posted}
use bluez_obex_native.ObjectManager.Steps.{
  IsKept, on_interfaces_added-keeps, on_interfaces_removed-keeps,
}
use bluez_obex_native.ObjectManager.Steps.Changes.{
  on_properties_changed-keeps, get_managed_objects-keeps,
}
use bluez_obex_native.ObjectManager.State.{post_bytes, post_error, post_sentinel, post_glaze}
use bluez_obex_native.ObjectManager.Signals.{created, get_managed_objects}
use bluez_obex_native.Sdbus.{Sdbus}
use bluez_obex_native.Bus.{Bus}
use bluez_obex_native.ObjectManager.State.{Manager}
use bluez_obex_native.ObjectManager.Objects.{on_interfaces_added, on_interfaces_removed}
use bluez_obex_native.ObjectManager.Changes.{on_properties_changed}
use bluez_obex_native.ObjectManager.Signals.{
  connection_failed, on_name_owner_changed, Signal, interfaces_added, interfaces_removed,
  properties_changed, name_owner_changed, unreadable, loop_failed, handle, run,
}

module _ ⦃s : Sdbus⦄ where
  connection_failed-failed :
      (message : Str) (m : Manager) → m.failed ≡ true → connection_failed message m ≡ m
  unfolding connection_failed
  connection_failed-failed message m h = rw h

  module _ ⦃bus : Bus⦄ where
    -- One signal after the failure.
    pub handle-failed : (signal : Signal) (m : Manager) → m.failed ≡ true → handle signal m ≡ m
    unfolding handle on_interfaces_added on_interfaces_removed on_properties_changed
        on_name_owner_changed
    handle-failed (interfaces_added path interfaces) m h = rw h
    handle-failed (interfaces_removed path interfaces) m h = rw h
    handle-failed (properties_changed path iface changed invalidated) m h = rw h
    handle-failed (name_owner_changed name old_owner new_owner) m h =
        if_intro (λ n. n ≡ m)
          (name == bytes "org.bluez.obex"
            && not (is_empty old_owner)
            && not (old_owner == new_owner))
          _ m (λ _. connection_failed-failed _ m h) (λ _. refl)
    handle-failed unreadable m h = refl
    handle-failed (loop_failed message) m h = connection_failed-failed message m h

    -- Once the connection has failed, no sequence of signals changes the state: nothing more is
    -- posted, cached or asked.
    pub run-failed : (signals : List Signal) (m : Manager) → m.failed ≡ true → run signals m ≡ m
    unfolding run
    run-failed [] m h = refl
    run-failed (signal ∷ signals) m h = rw (handle-failed signal m h) (run-failed signals m h)

  -- How often the end of the stream was posted.
  pub ends : List Posted → ℕ
  ends [] = 0
  ends (e ∷ es) = (if eqb e.discriminator 0xff then 1 else 0) + ends es

  ends-append : (es : List Posted) (e : Posted) → ends (es ++ e ∷ []) ≡ ends es + ends (e ∷ [])
  unfolding ends
  ends-append [] e = omega arith
  ends-append (x ∷ es) e = ground (arith, ends-append es e)

  -- The stream has not ended; or it has, once, and nothing is cached any more.
  abbrev pub IsOpen : Manager → Type 0
  IsOpen m = (m.failed ≡ false) × (ends m.posted ≡ 0)

  abbrev pub IsClosed : Manager → Type 0
  IsClosed m = (m.failed ≡ true) × (ends m.posted ≡ 1) × (m.interfaces_by_path ≡ [])

  pub IsOpen-IsKept : IsKept IsOpen
  unfolding post_bytes ends
  IsOpen-IsKept = record {
    post = λ d payload m e h. (h.0, rw (ends-append m.posted, h.1, e));
    cache = λ objects m h. h;
    request = λ r m h. h;
  }

  pub created-IsOpen : IsOpen created
  unfolding ends
  created-IsOpen = (refl, refl)

  pub connection_failed-IsClosed :
      (message : Str) (m : Manager) → IsOpen m ⊎ IsClosed m → IsClosed (connection_failed message m)
  unfolding connection_failed ends post_error post_sentinel post_glaze post_bytes
  connection_failed-IsClosed message m (inl (up, none_yet)) =
      rw up (refl, rw (ends-append (m.posted ++ _), ends-append m.posted, none_yet) refl, refl)
  connection_failed-IsClosed message m (inr (closed, once, empty)) =
      subst IsClosed (sym (connection_failed-failed message m closed)) (closed, once, empty)

  module _ ⦃bus : Bus⦄ where
    pub IsOpen-handle :
        (signal : Signal) (m : Manager)
        → IsOpen m
        → IsOpen (handle signal m) ⊎ IsClosed (handle signal m)
    unfolding handle on_name_owner_changed
    IsOpen-handle (interfaces_added path interfaces) m h =
        inl (on_interfaces_added-keeps IsOpen IsOpen-IsKept path interfaces m h)
    IsOpen-handle (interfaces_removed path interfaces) m h =
        inl (on_interfaces_removed-keeps IsOpen IsOpen-IsKept path interfaces m h)
    IsOpen-handle (properties_changed path iface changed invalidated) m h =
        inl (on_properties_changed-keeps IsOpen IsOpen-IsKept path iface changed invalidated m h)
    IsOpen-handle (name_owner_changed name old_owner new_owner) m h =
        if_intro (λ n. IsOpen n ⊎ IsClosed n)
          (name == bytes "org.bluez.obex"
            && not (is_empty old_owner)
            && not (old_owner == new_owner))
          _ m (λ _. inr (connection_failed-IsClosed _ m (inl h))) (λ _. inl h)
    IsOpen-handle unreadable m h = inl h
    IsOpen-handle (loop_failed message) m h = inr (connection_failed-IsClosed message m (inl h))

    pub handle-IsOpen :
        (signal : Signal) (m : Manager)
        → IsOpen m ⊎ IsClosed m
        → IsOpen (handle signal m) ⊎ IsClosed (handle signal m)
    handle-IsOpen signal m (inl h) = IsOpen-handle signal m h
    handle-IsOpen signal m (inr h) = rw (handle-failed signal m h.0) (inr h)

    run_settled :
        (signals : List Signal) (m : Manager)
        → IsOpen m ⊎ IsClosed m
        → IsOpen (run signals m) ⊎ IsClosed (run signals m)
    unfolding run
    run_settled [] m h = h
    run_settled (signal ∷ signals) m h = run_settled signals _ (handle-IsOpen signal m h)

    -- After the first query and any signals the end of the stream was posted exactly once where
    -- the connection has failed, with nothing cached any more, and else not at all.
    pub run-IsOpen :
        (signals : List Signal)
        → IsOpen (run signals (get_managed_objects created).1)
          ⊎ IsClosed (run signals (get_managed_objects created).1)
    run-IsOpen signals =
        run_settled signals _
          (inl (get_managed_objects-keeps IsOpen IsOpen-IsKept created created-IsOpen))

    run-append :
        (before after : List Signal) (m : Manager)
        → run (before ++ after) m ≡ run after (run before m)
    unfolding run
    run-append [] after m = refl
    run-append (signal ∷ before) after m = run-append before after (handle signal m)

    -- Once the event loop has failed, whatever came before it and comes after it, the end of the
    -- stream has been posted, once, and nothing is cached.
    pub run_loop_failed :
        (before after : List Signal) (message : Str)
        → IsClosed (run (before ++ loop_failed message ∷ after) (get_managed_objects created).1)
    unfolding run handle
    run_loop_failed before after message =
        let m : Manager = run before (get_managed_objects created).1 in
        let closed : IsClosed (connection_failed message m) =
          connection_failed-IsClosed message m (run-IsOpen before) in
        rw
          (
            run-append before (loop_failed message ∷ after),
            run-failed after (connection_failed message m) closed.0,
          )
          closed
