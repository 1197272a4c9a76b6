-- ===== src/ObjectManager/View/Lookups.antt =====
-- What is cached, and what a client holds, after each update of the cache and each message.
use bluez_obex_native.Common.{
  ℕ, ◌≡◌, refl, true, false, ◌&&◌, none, some, [], ◌∷◌, arith, eqb, Bool-cases, inl, inr,
  if◌then◌else◌, get_or, is_empty, is_some,
}
use bluez_obex_native.Common.Strings.{Str, ◌==◌, ==_iff}
use bluez_obex_native.OrderedMap
use bluez_obex_native.OrderedMap.{OrderedMap}
use bluez_obex_native.OrderedMap.Laws.{find-insert, find-erase, find-empty, contains-eq_found}
use bluez_obex_native.Sdbus.{Sdbus}
use bluez_obex_native.Bus.{PropertiesMap, InterfacesMap}
use bluez_obex_native.Properties.{
  session_props_from_map, transfer_props_from_map, phonebook_props_from_map, message_props_from_map,
  message_access_props_from_map,
}
use bluez_obex_native.ObjectManager.Interfaces.{
  session_iface, transfer_iface, phonebook_iface, message_iface, message_access_iface,
  is_obex_interface,
}
use bluez_obex_native.ObjectManager.Messages.{Payload}
use bluez_obex_native.ObjectManager.State.{Manager, post_bytes, post_snapshot}
use bluez_obex_native.ObjectManager.View.{
  shows, takes, announces, is_ready, view, view-append, snapshot, props_at, held, absent, holding,
  view_from, found-some, confused,
}

module _ ⦃s : Sdbus⦄ where
  -- An empty cache, and no message.
  pub props_at-empty : (p i : Str) → props_at p i [] ≡ none
  unfolding props_at
  props_at-empty p i = ground (arith, find-empty {V = InterfacesMap} p)

  pub view-empty : (p i : Str) → view p i [] ≡ absent
  unfolding view view_from
  view-empty p i = refl

  pub props_at-insert :
      (p i path iface : Str) (props : PropertiesMap) (known : InterfacesMap)
      (objects : OrderedMap InterfacesMap)
      → get_or (OrderedMap.find path objects) [] ≡ known
      → props_at p i (OrderedMap.insert path (OrderedMap.insert iface props known) objects)
        ≡ (if path == p && iface == i then some props else props_at p i objects)
  unfolding props_at
  props_at-insert p i path iface props known objects h = ground (
    arith,
    find-insert path p (OrderedMap.insert iface props known) objects,
    find-insert iface i props known,
    ==_iff path p,
    find-empty {V = PropertiesMap} i,
  )

  pub props_at-contains :
      (path iface : Str) (objects : OrderedMap InterfacesMap)
      → OrderedMap.contains iface (get_or (OrderedMap.find path objects) [])
        ≡ is_some (props_at path iface objects)
  unfolding props_at
  props_at-contains path iface objects = ground (
    arith,
    contains-eq_found iface (get_or (OrderedMap.find path objects) []),
    find-empty {V = PropertiesMap} iface,
  )

  pub props_at-contained :
      (path iface : Str) (known : InterfacesMap) (objects : OrderedMap InterfacesMap)
      → OrderedMap.find path objects ≡ some known
      → OrderedMap.contains iface known ≡ true
      → (props : PropertiesMap) × (props_at path iface objects ≡ some props)
  unfolding props_at
  props_at-contained path iface known objects e c =
      let (props, f) =
        found-some (OrderedMap.find iface known) (rw (contains-eq_found iface known) at c) in
      (props, rw (e, props_at) f)

  -- An interface that is not there is not taken from the view.
  pub absent_interface :
      (p i path iface : Str) (known : InterfacesMap) (objects : OrderedMap InterfacesMap)
      → OrderedMap.find path objects ≡ some known
      → OrderedMap.contains iface known ≡ false
      → (if path == p && iface == i then none else props_at p i objects) ≡ props_at p i objects
  unfolding props_at
  absent_interface p i path iface known objects e c =
      ground (arith, ==_iff path p, ==_iff iface i, contains-eq_found iface known)

  pub props_at-found :
      (path iface : Str) (known : InterfacesMap) (props : PropertiesMap)
      (objects : OrderedMap InterfacesMap)
      → OrderedMap.find path objects ≡ some known
      → OrderedMap.find iface known ≡ some props
      → props_at path iface objects ≡ some props
  unfolding props_at
  props_at-found path iface known props objects e f = rw (e, props_at) f

  -- Properties that are there already are not new.
  pub present_interface :
      (p i path iface : Str) (known : InterfacesMap) (props : PropertiesMap)
      (objects : OrderedMap InterfacesMap)
      → OrderedMap.find path objects ≡ some known
      → OrderedMap.find iface known ≡ some props
      → (if path == p && iface == i then some props else props_at p i objects)
        ≡ props_at p i objects
  unfolding props_at
  present_interface p i path iface known props objects e f =
      ground (arith, ==_iff path p, ==_iff iface i)

  is_empty-find : (i : Str) (m : InterfacesMap) → is_empty m ≡ true → OrderedMap.find i m ≡ none
  is_empty-find i [] h = find-empty i
  is_empty-find i (e ∷ m) h = cc

  pub props_at-without :
      (p i path iface : Str) (known : InterfacesMap) (objects : OrderedMap InterfacesMap)
      → OrderedMap.find path objects ≡ some known
      → props_at p i (
          if is_empty (OrderedMap.erase iface known)
          then OrderedMap.erase path objects
          else OrderedMap.insert path (OrderedMap.erase iface known) objects)
        ≡ (if path == p && iface == i then none else props_at p i objects)
  unfolding props_at
  props_at-without p i path iface known objects h = ground (
    arith,
    find-insert path p (OrderedMap.erase iface known) objects,
    find-erase path p objects,
    find-erase iface i known,
    is_empty-find i (OrderedMap.erase iface known),
    ==_iff path p,
  )

  -- A snapshot that is posted.
  view-post_bytes :
      (p i path iface : Str) (d : ℕ) (payload : Payload) (m : Manager)
      → eqb d 0xff ≡ false
      → announces p i payload ≡ false
      → takes p i payload ≡ false
      → shows p i payload ≡ (path == p && iface == i)
      → view p i (post_bytes d payload m).posted ≡ (
          if path == p && iface == i
          then (if is_ready (view p i m.posted) then holding payload else confused)
          else view p i m.posted)
  unfolding post_bytes
  view-post_bytes p i path iface d payload m h n t e = rw (view-append, h, n, t, e)

  same_test : (iface j i : Str) → (iface == j) ≡ true → (j == i) ≡ (iface == i)
  same_test iface j i h = let e : iface ≡ j = (==_iff iface j).0 h in rw e

  pub snapshot_ready :
      (path iface : Str) (props : PropertiesMap)
      → is_obex_interface iface ≡ true
      → is_ready (held (snapshot path iface props)) ≡ true
  unfolding snapshot is_obex_interface
  snapshot_ready path iface props obex = ground arith

  -- What a client holds after a snapshot of an interface that the manager knows.
  pub view-post_snapshot :
      (p i path iface : Str) (props : PropertiesMap) (m : Manager)
      → is_obex_interface iface ≡ true
      → view p i (post_snapshot path iface props m).posted ≡ (
          if path == p && iface == i
          then (if is_ready (view p i m.posted) then held (snapshot path iface props) else confused)
          else view p i m.posted)
  unfolding post_snapshot snapshot is_obex_interface session_props_from_map transfer_props_from_map
      phonebook_props_from_map message_props_from_map message_access_props_from_map
  view-post_snapshot p i path iface props m obex = elim (Bool-cases (iface == session_iface)) [
    | inl a ↦ rw (a) (
        view-post_bytes p i path iface 1 (Payload.session (session_props_from_map path props)) m
          refl refl refl (rw (same_test iface _ i a)))
    | inr a ↦ elim (Bool-cases (iface == transfer_iface)) [
      | inl b ↦
          rw (a, b)
            (view-post_bytes p i path iface 2
              (Payload.transfer (transfer_props_from_map path props)) m refl refl refl
              (rw (same_test iface _ i b)))
      | inr b ↦ elim (Bool-cases (iface == phonebook_iface)) [
        | inl c ↦
            rw (a, b, c)
              (view-post_bytes p i path iface 3
                (Payload.phonebook (phonebook_props_from_map path props)) m refl refl refl
                (rw (same_test iface _ i c)))
        | inr c ↦ elim (Bool-cases (iface == message_iface)) [
          | inl d ↦
              rw (a, b, c, d)
                (view-post_bytes p i path iface 6
                  (Payload.message (message_props_from_map path props)) m refl refl refl
                  (rw (same_test iface _ i d)))
          | inr d ↦ elim (Bool-cases (iface == message_access_iface)) [
            | inl e ↦
                rw (a, b, c, d, e)
                  (view-post_bytes p i path iface 7
                    (Payload.message_access (message_access_props_from_map path props)) m refl refl
                    refl (rw (same_test iface _ i e)))
            | inr e ↦ cc (rw (a, b, c, d, e) at obex)
          ]
        ]
      ]
    ]
  ]
