-- ===== src/ObjectManager/Changes.antt =====
-- native/src/obex_object_manager.cpp: the handler of `PropertiesChanged`, in
-- `subscribe_properties`.
pub mod Merging
pub mod Caching
pub mod Cached
pub mod Refreshing
pub mod Settled
use bluez_obex_native.Common.{
  Bool, true, false, not, ◌||◌, Option, none, some, List, [], ◌∷◌, ◌++◌, if◌then◌else◌,
}
use bluez_obex_native.Common.Strings.{Str}
use bluez_obex_native.OrderedMap
use bluez_obex_native.OrderedMap.{OrderedMap}
use bluez_obex_native.Sdbus.{Sdbus}
use bluez_obex_native.Bus.{
  PropertiesMap, InterfacesMap, get_property, Answer, reply, error, Bus, one_variant,
}
use bluez_obex_native.ObjectManager.Interfaces.{
  is_obex_interface, is_known_property, has_expected_type,
}
use bluez_obex_native.ObjectManager.State.{Manager, ask, report, post_properties}

module _ ⦃s : Sdbus⦄ where
  open s use {Variant}

  -- The loop over the changed properties; `changed_cache` comes back with the cache.
  unfoldable pub merge_changed : Str → PropertiesMap → PropertiesMap × Bool → PropertiesMap × Bool
  merge_changed interface_name [] state = state
  merge_changed interface_name ((key, value) ∷ changed) (cached, changed_cache) =
      merge_changed interface_name changed (
        if has_expected_type interface_name key value
        then (OrderedMap.insert key value cached, true)
        else (cached, changed_cache))

  -- The loop over the invalidated properties, with those that are relevant.
  unfoldable pub drop_invalidated :
      Str → List Str → PropertiesMap × List Str × Bool → PropertiesMap × List Str × Bool
  drop_invalidated interface_name [] state = state
  drop_invalidated interface_name (key ∷ invalidated) (cached, relevant, changed_cache) =
      drop_invalidated interface_name invalidated (
        if is_known_property interface_name key
        then (OrderedMap.erase key cached, relevant ++ key ∷ [], true)
        else (cached, relevant, changed_cache))

  -- `interfaces_by_path_.at(path).at(interface_name) = props`, both known.
  abbrev pub with_cached : Str → Str → InterfacesMap → PropertiesMap → Manager → Manager
  with_cached path interface_name known props m = record m {
    interfaces_by_path =
        OrderedMap.insert path (OrderedMap.insert interface_name props known) m.interfaces_by_path;
  }

  -- The properties under a path and an interface.
  unfoldable pub cached_at :
      Str → Str → OrderedMap InterfacesMap → Option (InterfacesMap × PropertiesMap)
  cached_at path interface_name objects = elim (OrderedMap.find path objects) [
    | none ↦ none
    | some known ↦ elim (OrderedMap.find interface_name known) [
      | none ↦ none
      | some props ↦ some (known, props)
    ]
  ]

  module _ ⦃bus : Bus⦄ where
    -- The value that came back is cached and published, unless the interface has gone meanwhile;
    -- then the handler returns.
    unfoldable pub store_refreshed : Str → Str → Str → Variant → Manager → Option Manager
    unfolding cached_at post_properties
    store_refreshed path interface_name key value m =
        elim (cached_at path interface_name m.interfaces_by_path) [
          | none ↦ none
          | some (known, props) ↦
              let snapshot = OrderedMap.insert key value props in
              some (
                post_properties path interface_name (some snapshot)
                  (with_cached path interface_name known snapshot m))
        ]

    -- One round of the loop over the relevant keys; `none` is its `return`.
    unfoldable pub refreshed : Str → Str → Str → Answer Variant × Manager → Option Manager
    unfolding store_refreshed report
    refreshed path interface_name key (reply value, m) =
        store_refreshed path interface_name key value m
    refreshed path interface_name key (error name message, m) = some (report path name message m)

    abbrev pub ask_property : Str → Str → Str → Manager → Answer Variant × Manager
    ask_property path interface_name key m =
        ask one_variant path (get_property path interface_name key) m

    -- The loop over the relevant keys.
    unfoldable pub refresh : Str → Str → List Str → Manager → Manager
    unfolding refreshed
    refresh path interface_name [] m = m
    refresh path interface_name (key ∷ keys) m =
        let asked = ask_property path interface_name key m in
        elim (refreshed path interface_name key asked) [
          | none ↦ asked.1
          | some m' ↦ refresh path interface_name keys m'
        ]

    -- After the two loops over the signal's lists.
    unfoldable pub publish_changes :
        Str → Str → InterfacesMap → PropertiesMap × List Str × Bool → Manager → Manager
    unfolding post_properties refresh
    publish_changes path interface_name known (cached, relevant, changed_cache) m =
        let m' = with_cached path interface_name known cached m in
        if changed_cache
        then refresh path interface_name relevant
            (post_properties path interface_name (some cached) m')
        else m'

    unfoldable pub change_properties : Str → Str → PropertiesMap → List Str → Manager → Manager
    unfolding cached_at merge_changed drop_invalidated publish_changes
    change_properties path interface_name changed invalidated m =
        elim (cached_at path interface_name m.interfaces_by_path) [
          | none ↦ m
          | some (known, props) ↦
              let (merged, changed_cache) = merge_changed interface_name changed (props, false) in
              publish_changes path interface_name known
                (drop_invalidated interface_name invalidated (merged, [], changed_cache)) m
        ]

    unfoldable pub on_properties_changed : Str → Str → PropertiesMap → List Str → Manager → Manager
    unfolding change_properties
    on_properties_changed path interface_name changed invalidated m =
        if m.failed || not (is_obex_interface interface_name)
        then m
        else change_properties path interface_name changed invalidated m
