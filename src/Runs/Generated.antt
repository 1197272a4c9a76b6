-- ===== src/Runs/Generated.antt =====
-- Runs of the generated proxies.
use bluez_obex_native.Common.{refl, []}
use bluez_obex_native.Common.Strings.{bytes, ◌==◌}
use bluez_obex_native.OrderedMap
use bluez_obex_native.OrderedMap.Laws.{find-insert}
use bluez_obex_native.Sdbus.{u64}
use bluez_obex_native.Bus.{PropertiesMap}
use bluez_obex_native.Generated.Getters.{session_source, transfer_size}
use bluez_obex_native.Generated.Getters.Agreement.{Agrees, get-has_expected_type}
use bluez_obex_native.Samples.Variants.{sample, sample_sdbus}
use bluez_obex_native.Samples.Services.{sample_bus, session_path, transfer_path}

abbrev sized : PropertiesMap
sized = OrderedMap.insert (bytes "Size") (sample u64 512) []

get-has_expected_type_example : Agrees transfer_size transfer_path [] sized (sample u64 512)
unfolding bytes ◌==◌
get-has_expected_type_example =
    get-has_expected_type transfer_size transfer_path [] sized (sample u64 512)
      (find-insert (bytes "Size") (bytes "Size") (sample u64 512) []) refl

-- A source that is no text.
abbrev mistyped : PropertiesMap
mistyped = OrderedMap.insert (bytes "Source") (sample u64 512) []

source_refused : Agrees session_source session_path [] mistyped (sample u64 512)
unfolding bytes ◌==◌
source_refused =
    get-has_expected_type session_source session_path [] mistyped (sample u64 512)
      (find-insert (bytes "Source") (bytes "Source") (sample u64 512) []) refl
