-- ===== src/Native/Errors.antt =====
-- The error that is kept of an exception, wherever in a call it was thrown.
use bluez_obex_native.Common.{◌≡◌}
use bluez_obex_native.Common.Strings.{Str, bytes}
use bluez_obex_native.Sdbus.{Sdbus, Exception, dbus_error, std_exception}

module _ ⦃s : Sdbus⦄ where
  -- The name and the message that tell of an exception: those of a D-Bus error, and for any other
  -- exception a fixed name and its text.
  abbrev pub IsDescribed : Exception → Str → Str → Type 0
  IsDescribed (dbus_error label text) name message = (name ≡ label) × (message ≡ text)
  IsDescribed (std_exception what) name message =
      (name ≡ bytes "org.bluez.obex.Error.Failed") × (message ≡ what)
