-- ===== src/Wire/Maps.antt =====
-- The overloads of `std::map<std::string, std::vector<uint8_t>>`: a map decodes to itself.
use bluez_obex_native.Common.{
  ℕ, suc, ◌+◌, ◌≡◌, sym, some, [], ◌∷◌, ◌++◌, append_assoc, append-nil, true, arith, length,
  length-append, All,
}
use bluez_obex_native.Common.Strings.{Str, str_lt}
use bluez_obex_native.OrderedMap
use bluez_obex_native.OrderedMap.{OrderedMap}
use bluez_obex_native.OrderedMap.Sorted.{Above, Below, IsAscending, insert-append}
use bluez_obex_native.Wire.{
  Buffer, encode_uint, decode_uint, encode_string, decode_string, encode_entry, encode_each,
  encode_vector, encode_map, decode_entries, decode_map, to_uint32,
}
use bluez_obex_native.Wire.Fields.{FitsCount, FitsString, uint-IsLawful, string-IsLawful}

-- The count of the map, and those of each key and value.
abbrev pub FitsMap : OrderedMap Str → Type 0
FitsMap m = FitsCount m × All (λ (e : Str × Str). FitsString e.0 × FitsString e.1) m

encode_entry-appends :
    (buf : Buffer) (e : Str × Str) → encode_entry buf e ≡ buf ++ encode_entry [] e
unfolding encode_entry
encode_entry-appends buf (key, val) =
    rw
      (
        string-IsLawful.appends (encode_string buf key) val,
        string-IsLawful.appends (encode_string [] key) val,
        string-IsLawful.appends buf key,
      )
      (append_assoc buf _ _)

encode_entries-appends :
    (buf : Buffer) (m : OrderedMap Str)
    → encode_each encode_entry buf m ≡ buf ++ encode_each encode_entry [] m
unfolding encode_each
encode_entries-appends buf [] = sym (append-nil buf)
encode_entries-appends buf (e ∷ m) =
    rw
      (
        encode_entries-appends (encode_entry buf e) m,
        encode_entries-appends (encode_entry [] e) m,
        encode_entry-appends buf e,
      )
      (append_assoc buf _ _)

-- Every key of `old` is below every key of `m`.
abbrev AllBelow : OrderedMap Str → OrderedMap Str → Type 0
AllBelow old [] = Unit
AllBelow old ((k, v) ∷ m) = Below old k × AllBelow old m

Below-append :
    (old : OrderedMap Str) (k : Str) (v : Str) (j : Str)
    → Below old j
    → str_lt k j ≡ true
    → Below (old ++ (k, v) ∷ []) j
Below-append [] k v j h lt = (lt, tt)
Below-append (e ∷ old) k v j h lt = (h.0, Below-append old k v j h.1 lt)

AllBelow-append :
    (old : OrderedMap Str) (k v : Str) (m : OrderedMap Str)
    → AllBelow old m
    → Above k m
    → AllBelow (old ++ (k, v) ∷ []) m
AllBelow-append old k v [] h a = tt
AllBelow-append old k v ((j, w) ∷ m) h a =
    (Below-append old k v j h.0 a.0, AllBelow-append old k v m h.1 a.1)

AllBelow-empty : (m : OrderedMap Str) → AllBelow [] m
AllBelow-empty [] = tt
AllBelow-empty ((k, v) ∷ m) = (tt, AllBelow-empty m)

entry_parts :
    (key val : Str) → encode_entry [] (key, val) ≡ encode_string [] key ++ encode_string [] val
unfolding encode_entry
entry_parts key val = string-IsLawful.appends (encode_string [] key) val

decode_entry_step :
    (front : Buffer) (key val : Str) (rest : Buffer) (count : ℕ) (old : OrderedMap Str)
    → FitsString key
    → FitsString val
    → decode_entries (suc count) old (front ++ (encode_entry [] (key, val) ++ rest)) (length front)
      ≡ decode_entries count
          (OrderedMap.insert key val old)
          (front ++ (encode_entry [] (key, val) ++ rest))
          (length (front ++ encode_entry [] (key, val)))
unfolding decode_entries
decode_entry_step front key val rest count old hk hv =
    let a : Buffer = encode_string [] key in
    let b : Buffer = encode_string [] val in
    let first : decode_string (front ++ (a ++ (b ++ rest))) (length front)
        ≡ some (key, length front + length a) =
      string-IsLawful.round_trip front key (b ++ rest) hk in
    let second : decode_string (front ++ (a ++ (b ++ rest))) (length front + length a)
        ≡ some (val, length (front ++ (a ++ b))) =
      rw
        (
          ← length-append front a,
          ← append_assoc front a (b ++ rest),
          string-IsLawful.round_trip (front ++ a) val rest hv,
        )
        (ground (arith, length-append front a, length-append a b, length-append front (a ++ b))) in
    rw (entry_parts key val, append_assoc a b rest, first) (rw second)

decode_entries_round_trip :
    (front : Buffer) (m : OrderedMap Str) (rest : Buffer) (old : OrderedMap Str)
    → All (λ (e : Str × Str). FitsString e.0 × FitsString e.1) m
    → IsAscending m
    → AllBelow old m
    → decode_entries
        (length m)
        old
        (front ++ (encode_each encode_entry [] m ++ rest))
        (length front)
      ≡ some (old ++ m, length front + length (encode_each encode_entry [] m))
unfolding encode_each
decode_entries_round_trip front [] rest old h s b =
    unfold decode_entries in rw (append-nil old) (ground arith)
decode_entries_round_trip front ((k, v) ∷ m) rest old h s b =
    let entry : Buffer = encode_entry [] (k, v) in
    let entries : Buffer = encode_each encode_entry [] m in
    rw
      (
        encode_entries-appends entry m,
        append_assoc entry entries rest,
        decode_entry_step front k v (entries ++ rest) (length m) old h.0.0 h.0.1,
        insert-append old k v b.0,
      )
      (rw
        (
          ← append_assoc front entry (entries ++ rest),
          decode_entries_round_trip (front ++ entry) m rest (old ++ (k, v) ∷ []) h.1 s.1
              (AllBelow-append old k v m b.1 s.0),
          append_assoc old ((k, v) ∷ []) m,
        )
        (ground (arith, length-append front entry, length-append entry entries)))

-- A map whose keys ascend, and whose count and whose keys' and values' lengths are below 2^32, decodes to
-- itself, whatever stands before and behind its encoding.
pub decode_map-encode_map :
    (front : Buffer) (m : OrderedMap Str) (rest : Buffer)
    → FitsMap m
    → IsAscending m
    → decode_map (front ++ (encode_map [] m ++ rest)) (length front)
      ≡ some (m, length front + length (encode_map [] m))
unfolding decode_map encode_map encode_vector
decode_map-encode_map front m rest h s =
    let count : Buffer = encode_uint 4 [] (length m) in
    let entries : Buffer = encode_each encode_entry [] m in
    let whole : to_uint32 (length m) ≡ length m = omega (arith, h.0) in
    let read : decode_uint 4 (front ++ (count ++ (entries ++ rest))) (length front)
        ≡ some (length m, length front + length count) =
      (uint-IsLawful 4).round_trip front (length m) (entries ++ rest) (omega arith) in
    rw (whole, encode_entries-appends count m, append_assoc count entries rest, read)
      (rw
        (
          ← length-append front count,
          ← append_assoc front count (entries ++ rest),
          decode_entries_round_trip (front ++ count) m rest [] h.1 s (AllBelow-empty m),
        )
        (ground (arith, length-append front count, length-append count entries)))
