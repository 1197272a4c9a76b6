-- ===== src/Runs/ObjectManager.antt =====
-- Runs of native/src/obex_object_manager.cpp.
use bluez_obex_native.Common.{◌≡◌, refl, ◌⊎◌, [], ◌∷◌, ◌++◌}
use bluez_obex_native.Common.Strings.{bytes, ◌==◌}
use bluez_obex_native.OrderedMap
use bluez_obex_native.Sdbus.{string, u64}
use bluez_obex_native.ObjectManager.Interfaces.{
  transfer_iface, has_expected_type, is_known_property, is_string_property, is_bool_property,
}
use bluez_obex_native.ObjectManager.State.{
  Manager, post_error, post_sentinel, post_glaze, post_bytes,
}
use bluez_obex_native.ObjectManager.Signals.{
  loop_failed, created, connection_failed, handle, run, get_managed_objects,
}
use bluez_obex_native.ObjectManager.View.{snapshot, IsFaithful}
use bluez_obex_native.ObjectManager.Refinement.{handle-IsFaithful, view_of_run}
use bluez_obex_native.Bus.{PropertiesMap}
use bluez_obex_native.ObjectManager.Ending.{
  run-failed, IsOpen, IsClosed, run-IsOpen, run_loop_failed,
}
use bluez_obex_native.ObjectManager.Tables.{snapshot-mistyped, snapshot-unknown}
use bluez_obex_native.Samples.Variants.{sample, sample_sdbus}
use bluez_obex_native.Samples.Services.{sample_bus, sample_signals, queued, transfer_path}

view_of_run_example : IsFaithful (run sample_signals (get_managed_objects created).1)
view_of_run_example = view_of_run sample_signals

handle-IsFaithful_example :
    IsFaithful
      (handle (loop_failed (bytes "closed")) (run sample_signals (get_managed_objects created).1))
handle-IsFaithful_example =
    handle-IsFaithful (loop_failed (bytes "closed"))
      (run sample_signals (get_managed_objects created).1) (view_of_run sample_signals)

run-failed_example :
    run sample_signals (connection_failed (bytes "closed") created)
    ≡ connection_failed (bytes "closed") created
unfolding connection_failed post_error post_sentinel post_glaze post_bytes
run-failed_example = run-failed sample_signals (connection_failed (bytes "closed") created) refl

snapshot-mistyped_example :
    snapshot transfer_path transfer_iface (OrderedMap.insert (bytes "Status") (sample u64 7) queued)
    ≡ snapshot transfer_path transfer_iface (OrderedMap.erase (bytes "Status") queued)
unfolding has_expected_type is_string_property is_bool_property ◌==◌ bytes
snapshot-mistyped_example =
    snapshot-mistyped transfer_path transfer_iface (bytes "Status") (sample u64 7) queued refl

snapshot-unknown_example :
    snapshot transfer_path transfer_iface (OrderedMap.insert (bytes "Speed") (sample u64 7) queued)
    ≡ snapshot transfer_path transfer_iface queued
unfolding is_known_property is_string_property is_bool_property ◌==◌ bytes
snapshot-unknown_example =
    snapshot-unknown transfer_path transfer_iface (bytes "Speed") (sample u64 7) queued refl

run-IsOpen_example :
    IsOpen (run sample_signals (get_managed_objects created).1)
    ⊎ IsClosed (run sample_signals (get_managed_objects created).1)
run-IsOpen_example = run-IsOpen sample_signals

run_loop_failed_example :
    IsClosed
      (run ([] ++ loop_failed (bytes "closed") ∷ sample_signals) (get_managed_objects created).1)
run_loop_failed_example = run_loop_failed [] sample_signals (bytes "closed")

abbrev activated : PropertiesMap
activated = (bytes "Status", sample string (bytes "active")) ∷ []

abbrev one_transfer : Manager
one_transfer = record created {
  interfaces_by_path = (transfer_path, (transfer_iface, queued) ∷ []) ∷ [];
}
