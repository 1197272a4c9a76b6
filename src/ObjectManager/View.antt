-- ===== src/ObjectManager/View.antt =====
-- What a client of the port can show: the last snapshot of each interface of each object that was
-- posted and has not been taken away. And what the cache of the manager stands for.
pub mod Lookups
use bluez_obex_native.Common.{
  ℕ, ◌≡◌, refl, Bool, true, false, ◌&&◌, Option, none, some, List, [], ◌∷◌, ◌++◌, arith, eqb,
  Bool-cases, inl, inr, if◌then◌else◌, get_or, is_empty, is_some,
}
use bluez_obex_native.Common.Strings.{Str, ◌==◌, ==_iff}
use bluez_obex_native.OrderedMap
use bluez_obex_native.OrderedMap.{OrderedMap}
use bluez_obex_native.OrderedMap.Laws.{find-insert, find-erase, find-empty, contains-eq_found}
use bluez_obex_native.Sdbus.{Sdbus}
use bluez_obex_native.Bus.{PropertiesMap, InterfacesMap}
use bluez_obex_native.Properties.{
  session_props_from_map, transfer_props_from_map, phonebook_props_from_map, message_props_from_map,
  message_access_props_from_map,
}
use bluez_obex_native.ObjectManager.Interfaces.{
  session_iface, transfer_iface, phonebook_iface, message_iface, message_access_iface,
  is_obex_interface,
}
use bluez_obex_native.ObjectManager.Messages.{Payload, Posted}
use bluez_obex_native.ObjectManager.State.{Manager, post_bytes, post_snapshot}

-- The payload is a snapshot of the interface `i` of the object `p`.
abbrev pub shows : Str → Str → Payload → Bool
shows p i (Payload.session x) = x.object_path == p && session_iface == i
shows p i (Payload.transfer x) = x.object_path == p && transfer_iface == i
shows p i (Payload.phonebook x) = x.object_path == p && phonebook_iface == i
shows p i (Payload.message x) = x.object_path == p && message_iface == i
shows p i (Payload.message_access x) = x.object_path == p && message_access_iface == i
shows p i _ = false

-- The payload takes the interface `i` of the object `p` away.
abbrev pub takes : Str → Str → Payload → Bool
takes p i (Payload.removed x) = x.object_path == p && x.interface_name == i
takes p i _ = false

-- The payload announces the interface `i` of the object `p`.
abbrev pub announces : Str → Str → Payload → Bool
announces p i (Payload.added x) = x.object_path == p && x.interface_name == i
announces p i _ = false

-- What a client knows of one interface of one object: nothing, that it is there, or its last
-- snapshot. A message out of order (a second announcement, a removal or a snapshot of what is not
-- there) leaves it confused for good.
pub data Holding : Type 0 where
  absent announced confused : Holding
  holding : Payload → Holding

abbrev pub is_ready : Holding → Bool
is_ready announced = true
is_ready (holding x) = true
is_ready _ = false

abbrev pub on_announced : Holding → Holding
on_announced absent = announced
on_announced _ = confused

abbrev pub on_ended : Holding → Holding
on_ended confused = confused
on_ended _ = absent

-- One message more; 0xff ends the stream, and with it everything that was there.
abbrev pub view_step : Str → Str → Posted → Holding → Holding
view_step p i e old =
    if eqb e.discriminator 0xff
    then on_ended old
    else if announces p i e.payload
    then on_announced old
    else if takes p i e.payload
    then (if is_ready old then absent else confused)
    else if shows p i e.payload
    then (if is_ready old then holding e.payload else confused)
    else old

view_from : Str → Str → Holding → List Posted → Holding
view_from p i old [] = old
view_from p i old (e ∷ es) = view_from p i (view_step p i e old) es

-- What a client knows of `i` at `p` after the messages.
pub view : Str → Str → List Posted → Holding
unfolding view_from
view p i posted = view_from p i absent posted

view_from-append :
    (p i : Str) (old : Holding) (es : List Posted) (e : Posted)
    → view_from p i old (es ++ e ∷ []) ≡ view_step p i e (view_from p i old es)
unfolding view_from
view_from-append p i old [] e = refl
view_from-append p i old (x ∷ es) e = view_from-append p i (view_step p i x old) es e

pub view-append :
    (p i : Str) (es : List Posted) (e : Posted)
    → view p i (es ++ e ∷ []) ≡ view_step p i e (view p i es)
unfolding view
view-append p i es e = view_from-append p i absent es e

found-some : {A : Type 0} (o : Option A) → OrderedMap.found o ≡ true → (a : A) × (o ≡ some a)
found-some none h = cc
found-some (some a) h = (a, refl)

module _ ⦃s : Sdbus⦄ where
  -- The snapshot of cached properties.
  unfoldable pub snapshot : Str → Str → PropertiesMap → Option Payload
  snapshot p i props =
      if i == session_iface
      then some (Payload.session (session_props_from_map p props))
      else if i == transfer_iface
      then some (Payload.transfer (transfer_props_from_map p props))
      else if i == phonebook_iface
      then some (Payload.phonebook (phonebook_props_from_map p props))
      else if i == message_iface
      then some (Payload.message (message_props_from_map p props))
      else if i == message_access_iface
      then some (Payload.message_access (message_access_props_from_map p props))
      else none

  -- The cached properties of `i` at `p`.
  unfoldable pub props_at : Str → Str → OrderedMap InterfacesMap → Option PropertiesMap
  props_at p i objects = elim (OrderedMap.find p objects) [
    | none ↦ none
    | some known ↦ OrderedMap.find i known
  ]

  abbrev pub held : Option Payload → Holding
  held none = absent
  held (some x) = holding x

  abbrev pub shown : Str → Str → Option PropertiesMap → Holding
  shown p i none = absent
  shown p i (some props) = held (snapshot p i props)

  on_ended-held : (o : Option Payload) → on_ended (held o) ≡ absent
  on_ended-held none = refl
  on_ended-held (some x) = refl

  -- The end of the stream leaves nothing of what was shown.
  pub on_ended-shown : (p i : Str) (o : Option PropertiesMap) → on_ended (shown p i o) ≡ absent
  on_ended-shown p i none = refl
  on_ended-shown p i (some props) = on_ended-held (snapshot p i props)

  -- A client holds exactly the snapshots of what is cached, and has never been confused.
  abbrev pub IsFaithful : Manager → Type 0
  IsFaithful m = (p i : Str) → view p i m.posted ≡ shown p i (props_at p i m.interfaces_by_path)
