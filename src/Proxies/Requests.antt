-- ===== src/Proxies/Requests.antt =====
-- What the proxies ask for, and what they return, whatever the services answer.
use bluez_obex_native.Common.{
  ℕ, suc, ◌≡◌, ◌≢◌, refl, sym, false, none, some, List, [], ◌∷◌, ◌++◌, arith, is_empty, append-nil,
  length, drop, take-append,
}
use bluez_obex_native.Common.Strings.{Str, bytes}
use bluez_obex_native.Calls.{Task, then_task, answered, pure}
use bluez_obex_native.Sdbus.{std_exception, Sdbus, Outcome, ok, throws, dbus_error}
use bluez_obex_native.Bus.{
  PropertiesMap, Request, create_proxy, call_method, text, dictionary, Answer, reply, error, Bus,
  nothing, one_path, some_properties, Reply,
}
use bluez_obex_native.Types.Session.{BluezObexSessionProps}
use bluez_obex_native.ObjectManager.State.{obex_service}
use bluez_obex_native.Properties.{session_props_from_map}
use bluez_obex_native.Proxies.Folders.{slash, normalized, rfind, HasNoSlash, parent_of, child_of}
use bluez_obex_native.Proxies.Access.{
  client_path, fresh_session, unless_dbus_error, create_session, get_all_properties,
  session_properties,
}
use bluez_obex_native.Proxies.Messages.{
  list_messages, list_in_folder, to_messages, enter_parent, set_folder,
}
use bluez_obex_native.Generated.Client1
use bluez_obex_native.Generated.MessageAccess1.{set_folder_request, list_messages_request}

rfind-HasNoSlash : (s : Str) → HasNoSlash s → rfind slash s ≡ none
unfolding rfind
rfind-HasNoSlash [] h = refl
rfind-HasNoSlash (b ∷ s) h = rw (rfind-HasNoSlash s h.1) (ground arith)

rfind-append :
    (front back : Str) → HasNoSlash back → rfind slash (front ++ slash ∷ back) ≡ some (length front)
unfolding rfind
rfind-append [] back h = rw (rfind-HasNoSlash back h)
rfind-append (b ∷ front) back h = rw (rfind-append front back h)

drop-append :
    (front : Str) (b : ℕ) (back : Str) → drop (suc (length front)) (front ++ b ∷ back) ≡ back
drop-append [] b back = refl
drop-append (c ∷ front) b back = drop-append front b back

module _ ⦃s : Sdbus⦄ ⦃bus : Bus⦄ where
  abbrev pub create_session_request : Str → PropertiesMap → Request
  create_session_request destination args =
      call_method client_path Client1.interface_name (bytes "CreateSession")
        (text destination ∷ dictionary args ∷ [])

  -- A value that has the property, or an error of D-Bus.
  abbrev IsSafe : {A : Type 0} → (A → Type 0) → Outcome A → Type 0
  IsSafe P (ok x) = P x
  IsSafe P (throws (dbus_error name message)) = Unit
  IsSafe P (throws (std_exception message)) = ⊥

  answered-Safe :
      {A : Type 0} (P : A → Type 0) (a : Answer A) → ((x : A) → P x) → IsSafe P (answered a)
  answered-Safe P (reply x) h = h x
  answered-Safe P (error name message) h = tt

  then-Safe :
      {A B : Type 0} (P : B → Type 0) (f : A → Task B) (m : Outcome A × List Request)
      → IsSafe (λ x. (l : List Request) → IsSafe P (f x l).0) m.0
      → IsSafe P (then_task f m).0
  then-Safe P f (ok x, l) h = h l
  then-Safe P f (throws (dbus_error name message), l) h = tt
  then-Safe P f (throws (std_exception message), l) h = h

  assigned :
      {A : Type 0} (P : A → Type 0) (old : A) (o : Outcome A)
      → P old
      → IsSafe P o
      → (x : A) × (unless_dbus_error old o ≡ ok x) × P x
  assigned P old (ok x) p h = (x, refl, h)
  assigned P old (throws (dbus_error name message)) p h = (old, refl, p)
  assigned P old (throws (std_exception message)) p h = absurd h

  abbrev HasPath : Str → BluezObexSessionProps → Type 0
  HasPath path session = session.object_path ≡ path

  session_properties-Safe :
      (path : Str) (l : List Request) → IsSafe (HasPath path) (session_properties path l).0
  unfolding session_properties get_all_properties session_props_from_map
  session_properties-Safe path l = then-Safe (HasPath path) _ _ (
      then-Safe _ _ _ (
        answered-Safe _ (bus.respond nothing l (create_proxy obex_service path))
          (λ x l'. answered-Safe _ (bus.respond some_properties _ _) (λ y l''. refl))))

  -- The session that the service has created is returned under its path, also where its
  -- properties cannot be read.
  pub create_session-created :
      (destination : Str) (args : PropertiesMap) (log : List Request) (session_path : Str)
      → bus.respond one_path log (create_session_request destination args) ≡ reply session_path
      → (session : BluezObexSessionProps) × ((create_session destination args log).0 ≡ ok session)
        × (session.object_path ≡ session_path)
  unfolding create_session session_properties get_all_properties session_props_from_map
  create_session-created destination args log session_path h = rw h (
      assigned (HasPath session_path) (fresh_session session_path destination) _ refl (
        then-Safe (HasPath session_path) _ _ (
          answered-Safe _ (bus.respond nothing _ _)
            (λ x l. session_properties-Safe session_path l))))

  -- What follows on the answer to a request to enter a folder.
  abbrev pub after_set_folder : Request → Answer (Reply nothing) → List Request
  after_set_folder r (reply _) = r ∷ []
  after_set_folder r (error name message) = []

  pure-log :
      {A B : Type 0} (f : A → B) (o : Outcome A) (log : List Request)
      → (then_task (λ x. pure (f x)) (o, log)).1 ≡ log
  pure-log f (ok x) log = refl
  pure-log f (throws e) log = refl

  listed_after :
      (object_path child : Str) (filter : PropertiesMap) (a : Answer (Reply nothing))
      (log : List Request)
      → (then_task (λ entered. list_in_folder object_path child filter) (answered a, log)).1
        ≡ log ++ after_set_folder (list_messages_request object_path child filter) a
  listed_after object_path child filter (reply x) log = pure-log to_messages _ _
  listed_after object_path child filter (error name message) log = sym (append-nil log)

  -- Of a folder below another one, `list_messages` enters the parent, under a path that starts with
  -- one slash, and then asks for the messages of the child; where the parent could not be entered
  -- it asks for nothing more.
  pub list_messages-requests :
      (object_path folder parent child : Str) (filter : PropertiesMap) (log : List Request)
      → normalized folder ≡ parent ++ slash ∷ child
      → parent ≢ []
      → HasNoSlash child
      → (list_messages object_path folder filter log).1
        ≡ (log ++ set_folder_request object_path (slash ∷ parent) ∷ [])
          ++ after_set_folder
              (list_messages_request object_path child filter)
              (bus.respond nothing log (set_folder_request object_path (slash ∷ parent)))
  unfolding list_messages enter_parent set_folder
  list_messages-requests object_path folder parent child filter log e ne h =
      let up : parent_of (normalized folder) (length parent) ≡ parent =
        rw e (take-append parent (slash ∷ child)) in
      let down : child_of (normalized folder) (length parent) ≡ child =
        rw e (drop-append parent slash child) in
      let some_parent : is_empty parent ≡ false = filled parent ne in
      rw (e, list_messages, rfind-append parent child h, up, down, some_parent, enter_parent)
        (listed_after object_path child filter
          (bus.respond nothing log (set_folder_request object_path (slash ∷ parent))) _)
    where
      filled : (t : Str) → t ≢ [] → is_empty t ≡ false
      filled [] n = absurd (n refl)
      filled (b ∷ t) n = refl
