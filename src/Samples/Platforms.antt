-- ===== src/Samples/Platforms.antt =====
-- A platform of 32 bits for the runs.
use bluez_obex_native.Common.{arith}
use bluez_obex_native.Registry.{Platform}

instance abbrev pub sample_platform : Platform
sample_platform = record { pointer_bits = 32; pointer_bits-bound = omega arith }
