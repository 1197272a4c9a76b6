-- ===== src/Bus.antt =====
-- The D-Bus services as the native code reaches them through sdbus-c++: every proxy that is made,
-- method that is called and property that is read is a request, and the answer may depend on all
-- requests before it.
use bluez_obex_native.Common.{ℕ, Bool, List}
use bluez_obex_native.Common.Strings.{Str}
use bluez_obex_native.OrderedMap.{OrderedMap}
use bluez_obex_native.Sdbus.{Sdbus}

module _ ⦃s : Sdbus⦄ where
  open s use {Variant}

  abbrev pub PropertiesMap : Type 0
  PropertiesMap = OrderedMap Variant

  abbrev pub InterfacesMap : Type 0
  InterfacesMap = OrderedMap PropertiesMap

  -- What `withArguments` takes.
  pub data Argument : Type 0 where
    text : Str → Argument
    path : Str → Argument
    flag : Bool → Argument
    dictionary : PropertiesMap → Argument

  -- The object of `createProxy`, a call of a method with `callMethod`, a read with `getProperty`,
  -- a write with `setProperty`, and the subscriptions to a signal and to a match rule.
  pub data Request : Type 0 where
    create_proxy : (service : Str) (object_path : Str) → Request
    call_method : (object_path : Str) (interface : Str) (method : Str) → List Argument → Request
    get_property : (object_path : Str) (interface : Str) (name : Str) → Request
    set_property : (object_path : Str) (interface : Str) (name : Str) → Argument → Request
    register_signal : (object_path : Str) (interface : Str) (signal : Str) → Request
    add_match : (rule : Str) → Request

  -- The types of the variables that `storeResultsTo` fills.
  pub data ReplyType : Type 0 where
    nothing one_variant one_path some_properties all_objects one_transfer pairs names items objects
          number one_text :
        ReplyType

  abbrev pub Reply : ReplyType → Type 0
  Reply nothing = Unit
  Reply one_variant = Variant
  Reply one_path = Str
  Reply some_properties = PropertiesMap
  Reply all_objects = OrderedMap InterfacesMap
  Reply one_transfer = Str × PropertiesMap
  Reply pairs = List (Str × Str)
  Reply names = List Str
  Reply items = List PropertiesMap
  Reply objects = OrderedMap PropertiesMap
  Reply number = ℕ
  Reply one_text = Str

  -- sdbus-c++ reports a failed call as `sdbus::Error`, with its name and message.
  pub data Answer (A : Type 0) : Type 0 where
    reply : A → Answer A
    error : (name : Str) → (message : Str) → Answer A

  -- The services: the answer to a request after the requests before it.
  pub record Bus : Type 0 where
    pub respond : (t : ReplyType) → List Request → Request → Answer (Reply t)
