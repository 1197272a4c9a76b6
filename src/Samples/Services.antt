-- ===== src/Samples/Services.antt =====
-- Services that answer every request, some objects of theirs, and signals about them.
use bluez_obex_native.Common.{List, [], ◌∷◌}
use bluez_obex_native.Common.Strings.{Str, bytes}
use bluez_obex_native.Sdbus.{string, u64}
use bluez_obex_native.Bus.{
  PropertiesMap, Request, Answer, reply, error, Bus, ReplyType, Reply, nothing, one_variant,
  one_path, all_objects,
}
use bluez_obex_native.ObjectManager.Interfaces.{session_iface, transfer_iface}
use bluez_obex_native.ObjectManager.Signals.{
  Signal, interfaces_added, interfaces_removed, properties_changed, name_owner_changed,
}
use bluez_obex_native.Samples.Variants.{sample, sample_sdbus}

abbrev pub session_path : Str
session_path = bytes "/org/bluez/obex/client/session0"

abbrev pub transfer_path : Str
transfer_path = bytes "/org/bluez/obex/client/session0/transfer0"

abbrev pub session_properties : PropertiesMap
session_properties = (bytes "Source", sample string (bytes "00:11:22:33:44:55")) ∷ []

abbrev pub queued : PropertiesMap
queued = (bytes "Status", sample string (bytes "queued")) ∷ []

abbrev respond : (t : ReplyType) → List Request → Request → Answer (Reply t)
respond nothing sent r = reply tt
respond one_variant sent r = reply (sample u64 512)
respond one_path sent r = reply session_path
respond all_objects sent r = reply ((session_path, (session_iface, session_properties) ∷ []) ∷ [])
respond t sent r = error (bytes "org.bluez.obex.Error.Failed") (bytes "no such call")

instance abbrev pub sample_bus : Bus
sample_bus = record { respond = respond }

-- A transfer comes, changes and goes; then the service does.
abbrev pub sample_signals : List Signal
sample_signals =
    interfaces_added transfer_path ((transfer_iface, queued) ∷ [])
    ∷ properties_changed transfer_path transfer_iface
        ((bytes "Status", sample string (bytes "active")) ∷ []) (bytes "Size" ∷ [])
    ∷ interfaces_removed transfer_path (transfer_iface ∷ [])
    ∷ name_owner_changed (bytes "org.bluez.obex") (bytes ":1.7") []
    ∷ []
