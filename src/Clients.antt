-- ===== src/Clients.antt =====
-- native/src/obex_client.cpp: the paths of the managed objects, by interface.
use bluez_obex_native.Common.{
  ◌≡◌, refl, sym, ◌∙◌, Bool, true, false, ◌||◌, Option, none, some, List, [], ◌∷◌, ◌++◌, append-nil,
  append_assoc, arith, if◌then◌else◌, Bool-cases, inl, inr,
}
use bluez_obex_native.Common.Strings.{Str, bytes, ◌==◌, ==_iff, str_lt-ne}
use bluez_obex_native.OrderedMap
use bluez_obex_native.OrderedMap.{OrderedMap}
use bluez_obex_native.OrderedMap.Laws.{find-cons, find-empty}
use bluez_obex_native.OrderedMap.Sorted.{Above, IsAscending}
use bluez_obex_native.Wire.{Buffer, encode}
use bluez_obex_native.Sdbus.{Sdbus}
use bluez_obex_native.Bus.{InterfacesMap, create_proxy, call_method, Bus, all_objects, nothing}
use bluez_obex_native.Calls.{Task, pure, call, ◌>>=◌}
use bluez_obex_native.Types.Objects.{BluezObexManagedObjects, managed_objects_meta}
use bluez_obex_native.ObjectManager.Interfaces.{
  session_iface, transfer_iface, phonebook_iface, message_iface, message_access_iface,
}
use bluez_obex_native.ObjectManager.State.{obex_service, object_manager_iface}

-- `push_back` under a test.
abbrev pub pushed : Bool → Str → List Str → List Str
pushed test path paths = if test then paths ++ path ∷ [] else paths

module _ ⦃s : Sdbus⦄ where
  unfoldable pub push_object :
      Str → InterfacesMap → BluezObexManagedObjects → BluezObexManagedObjects
  push_object path interfaces result = record {
    sessions = pushed (OrderedMap.contains session_iface interfaces) path result.sessions;
    transfers = pushed (OrderedMap.contains transfer_iface interfaces) path result.transfers;
    phonebooks = pushed (OrderedMap.contains phonebook_iface interfaces) path result.phonebooks;
    message_accesses =
        pushed (OrderedMap.contains message_access_iface interfaces) path result.message_accesses;
    messages = pushed (OrderedMap.contains message_iface interfaces) path result.messages;
  }

  unfoldable pub push_objects :
      OrderedMap InterfacesMap → BluezObexManagedObjects → BluezObexManagedObjects
  unfolding push_object
  push_objects [] result = result
  push_objects ((path, interfaces) ∷ objects) result =
      push_objects objects (push_object path interfaces result)

  module _ ⦃bus : Bus⦄ where
    unfoldable pub get_managed_objects : Task Buffer
    unfolding push_objects
    get_managed_objects = do
      created ← call nothing (create_proxy obex_service (bytes "/"))
      objects ←
          call all_objects
            (call_method (bytes "/") object_manager_iface (bytes "GetManagedObjects") [])
      pure (encode (push_objects objects managed_objects_meta.initial))

  -- The paths of the objects that have an interface, in order.
  unfoldable pub paths_with : Str → OrderedMap InterfacesMap → List Str
  paths_with iface [] = []
  paths_with iface ((path, interfaces) ∷ objects) =
      if OrderedMap.contains iface interfaces
      then path ∷ paths_with iface objects
      else paths_with iface objects

  -- What was there, then the paths by interface.
  abbrev pub with_paths :
      OrderedMap InterfacesMap → BluezObexManagedObjects → BluezObexManagedObjects
  with_paths objects result = record {
    sessions = result.sessions ++ paths_with session_iface objects;
    transfers = result.transfers ++ paths_with transfer_iface objects;
    phonebooks = result.phonebooks ++ paths_with phonebook_iface objects;
    message_accesses = result.message_accesses ++ paths_with message_access_iface objects;
    messages = result.messages ++ paths_with message_iface objects;
  }

  pushed-paths_with :
      (iface path : Str) (interfaces : InterfacesMap) (objects : OrderedMap InterfacesMap)
      (paths : List Str)
      → pushed (OrderedMap.contains iface interfaces) path paths ++ paths_with iface objects
        ≡ paths ++ paths_with iface ((path, interfaces) ∷ objects)
  unfolding paths_with
  pushed-paths_with iface path interfaces objects paths =
      pushed_by (OrderedMap.contains iface interfaces)
    where
      pushed_by :
          (test : Bool)
          → pushed test path paths ++ paths_with iface objects
            ≡ paths ++ (if test then path ∷ paths_with iface objects else paths_with iface objects)
      pushed_by true = append_assoc paths (path ∷ []) _
      pushed_by false = refl

  -- The one loop over the objects fills five lists, each with the paths of the objects that have
  -- its interface, in the order of the paths, behind what the list held before.
  pub push_objects-paths_with :
      (objects : OrderedMap InterfacesMap) (result : BluezObexManagedObjects)
      → push_objects objects result ≡ with_paths objects result
  unfolding push_objects push_object paths_with
  push_objects-paths_with [] result = λ j. record {
    sessions = sym (append-nil result.sessions) j;
    transfers = sym (append-nil result.transfers) j;
    phonebooks = sym (append-nil result.phonebooks) j;
    message_accesses = sym (append-nil result.message_accesses) j;
    messages = sym (append-nil result.messages) j;
  }
  push_objects-paths_with ((path, interfaces) ∷ objects) result =
      push_objects-paths_with objects (push_object path interfaces result) ∙ (λ j. record {
        sessions = pushed-paths_with session_iface path interfaces objects result.sessions j;
        transfers = pushed-paths_with transfer_iface path interfaces objects result.transfers j;
        phonebooks = pushed-paths_with phonebook_iface path interfaces objects result.phonebooks j;
        message_accesses =
            pushed-paths_with message_access_iface path interfaces objects result.message_accesses
              j;
        messages = pushed-paths_with message_iface path interfaces objects result.messages j;
      })

  abbrev pub listed : Str → List Str → Bool
  listed p [] = false
  listed p (path ∷ paths) = path == p || listed p paths

  -- The object at a path has the interface.
  abbrev pub has_interface : Str → Option InterfacesMap → Bool
  has_interface iface none = false
  has_interface iface (some interfaces) = OrderedMap.contains iface interfaces

  paths_with-Above :
      (iface p : Str) (objects : OrderedMap InterfacesMap)
      → Above p objects
      → listed p (paths_with iface objects) ≡ false
  unfolding paths_with
  paths_with-Above iface p [] a = refl
  paths_with-Above iface p ((path, interfaces) ∷ objects) a =
      ground
        (arith, paths_with-Above iface p objects, str_lt-ne p path, ==_iff p path, ==_iff path p)

  -- Where the paths of the objects ascend, as in a `std::map`, exactly the paths of the objects
  -- that have the interface are listed.
  pub listed-paths_with :
      (iface p : Str) (objects : OrderedMap InterfacesMap)
      → IsAscending objects
      → listed p (paths_with iface objects) ≡ has_interface iface (OrderedMap.find p objects)
  unfolding paths_with
  listed-paths_with iface p [] a = rw find-empty
  listed-paths_with iface p ((path, interfaces) ∷ objects) a = elim (Bool-cases (path == p)) [
    | inl e ↦
        let at : path ≡ p = (==_iff path p).0 e in
        let rest : listed p (paths_with iface objects) ≡ false =
          paths_with-Above iface p objects (rw at at a.0) in
        rw (find-cons, e) (at_head iface p path interfaces objects e rest)
    | inr e ↦
        rw (find-cons, e)
          (not_head iface p path interfaces objects e ∙ listed-paths_with iface p objects a.1)
  ]
    where
      at_head :
          (iface p path : Str) (interfaces : InterfacesMap) (objects : OrderedMap InterfacesMap)
          → (path == p) ≡ true
          → listed p (paths_with iface objects) ≡ false
          → listed p (paths_with iface ((path, interfaces) ∷ objects))
            ≡ OrderedMap.contains iface interfaces
      at_head iface p path interfaces objects e h = ground arith

      not_head :
          (iface p path : Str) (interfaces : InterfacesMap) (objects : OrderedMap InterfacesMap)
          → (path == p) ≡ false
          → listed p (paths_with iface ((path, interfaces) ∷ objects))
            ≡ listed p (paths_with iface objects)
      not_head iface p path interfaces objects e = ground arith
