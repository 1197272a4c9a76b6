-- ===== src/Runs/Wire.antt =====
-- Runs of native/include/glaze_meta.h.
use bluez_obex_native.Common.{◌≡◌, refl, none, some, [], ◌∷◌, ◌++◌, ◌+◌, arith, All, length}
use bluez_obex_native.Common.Strings.{Str, str_lt}
use bluez_obex_native.OrderedMap.{OrderedMap}
use bluez_obex_native.Wire.{
  Buffer, encode, decode, encode_struct, encode_impl, encode_string, encode_uint, write_bytes,
  le_bytes, encode_map, decode_map,
}
use bluez_obex_native.Wire.Laws.{IsByte}
use bluez_obex_native.Wire.Structs.{FitsStruct, decode-encode, decode_truncated}
use bluez_obex_native.Wire.Maps.{FitsMap, decode_map-encode_map}
use bluez_obex_native.Types.Objects.{BluezObexObjectRemoved, object_removed_meta}
use bluez_obex_native.Types.Complete.{object_removed_IsComplete}

abbrev front : Buffer
front = 7 ∷ []

abbrev empty : Buffer
empty = []

abbrev gone : BluezObexObjectRemoved
gone = record { object_path = b'/' ∷ []; interface_name = b'i' ∷ b'f' ∷ [] }

gone-Fits : FitsStruct object_removed_meta object_removed_IsComplete gone
gone-Fits =
    ((omega arith, (omega arith, tt)), ((omega arith, (omega arith, (omega arith, tt))), tt))

gone_bytes : encode gone ≡ (1 ∷ 0 ∷ 0 ∷ 0 ∷ b'/' ∷ 2 ∷ 0 ∷ 0 ∷ []) ++ 0 ∷ b'i' ∷ b'f' ∷ []
unfolding encode encode_struct encode_impl encode_string encode_uint write_bytes le_bytes
gone_bytes = refl

decode-encode_example :
    All IsByte (encode gone)
    × (decode (front ++ (encode gone ++ (8 ∷ []))) (length front) object_removed_meta.initial
        ≡ some (gone, length front + length (encode gone)))
decode-encode_example =
    decode-encode object_removed_meta object_removed_IsComplete front gone (8 ∷ [])
      object_removed_meta.initial gone-Fits

decode_truncated_example :
    decode (1 ∷ 0 ∷ 0 ∷ 0 ∷ b'/' ∷ 2 ∷ 0 ∷ 0 ∷ []) 0 object_removed_meta.initial ≡ none
decode_truncated_example =
    decode_truncated object_removed_meta object_removed_IsComplete gone
      (1 ∷ 0 ∷ 0 ∷ 0 ∷ b'/' ∷ 2 ∷ 0 ∷ 0 ∷ []) (b'i' ∷ b'f' ∷ []) 0 gone-Fits gone_bytes

abbrev data_by_uuid : OrderedMap Str
data_by_uuid = (b'a' ∷ [], 1 ∷ 2 ∷ []) ∷ (b'b' ∷ [], []) ∷ []

data-Fits : FitsMap data_by_uuid
data-Fits = (
  omega arith,
  (
    ((omega arith, (omega arith, tt)), (omega arith, (omega arith, (omega arith, tt)))),
    (((omega arith, (omega arith, tt)), (omega arith, tt)), tt),
  ),
)

decode_map-encode_map_example :
    decode_map (front ++ (encode_map [] data_by_uuid ++ [])) (length front)
    ≡ some (data_by_uuid, length front + length (encode_map [] data_by_uuid))
unfolding str_lt
decode_map-encode_map_example =
    decode_map-encode_map front data_by_uuid [] data-Fits ((refl, tt), (tt, tt))
