-- ===== src/Tests/Xpc.antt =====
-- ios/xpc at concrete objects and messages.
use go_ios.Common.{◌+◌, ◌≤◌, ◌≡◌, ◌≢◌, refl, true, some, ◌⊎◌, [], ◌∷◌, ◌++◌, arith, length}
use go_ios.Common.Bytes.{Bytes, le}
use go_ios.Common.Result.{ok, err}
use go_ios.Xpc.Value.{
  Value, bool, binary, text, array, dictionary, file_transfer, nil, cons, Entries, end, entry,
  count_items, count_entries, bytes_eq, calc_padding,
}
use go_ios.Xpc.Encode.{
  encode_dictionary_key, encode_string, encode_data, encode_bool, encode_uint64, dictionary_bytes,
  array_bytes, encode_file_transfer,
}
use go_ios.Xpc.Decode.{DecodeError, stuck, decode_object, trim_left, trim_right}
use go_ios.Xpc.Scalars.{IsTrimmed}
use go_ios.Xpc.Wire.{IsXpc, Distinct, Absent, snoc, wire}
use go_ios.Xpc.Fuel.{decode_object_total}
use go_ios.Xpc.Message.{Message, encode_message, decode_message}
use go_ios.Xpc.Message.RoundTrip.{IsMessage, IsBody, decode_message-encode}

abbrev entries : Entries
entries = entry (b'a' ∷ []) (array (cons (text (b'h' ∷ (b'i' ∷ []))) (cons (bool true) nil))) (
    entry (b'b' ∷ (b'c' ∷ [])) (binary (7 ∷ (0 ∷ [])))
      (entry (b'f' ∷ []) (file_transfer 3 4096) end))

hi-IsTrimmed : IsTrimmed (b'h' ∷ (b'i' ∷ []))
unfolding trim_left trim_right
hi-IsTrimmed = record { left_trimmed = refl; right_trimmed = refl }

entries-IsXpc : IsXpc (dictionary entries)
unfolding IsXpc Distinct Absent snoc bytes_eq count_entries count_items
entries-IsXpc = (
  omega arith,
  (
    (omega arith, tt),
    (omega arith, ((hi-IsTrimmed, omega arith), (tt, tt))),
    (
      (omega arith, (omega arith, tt)),
      (omega arith, omega arith),
      ((omega arith, tt), (omega arith, omega arith), tt),
    ),
  ),
  (tt, ((refl, tt), ((refl, (refl, tt)), tt))),
)

abbrev hello : Message
hello = record { flags = 0x101; body = some entries; id = 42 }

hello-IsMessage : IsMessage hello
unfolding IsBody wire encode_dictionary_key encode_string encode_data encode_bool array_bytes
    encode_file_transfer dictionary_bytes encode_uint64 le calc_padding
hello-IsMessage = record {
  flags_u32 = omega arith;
  id_u64 = omega arith;
  is_body = (entries-IsXpc, omega arith);
}

decode_message-encode_example :
    (b : Bytes) × (encode_message hello ≡ ok b)
    × (decode_message (b ++ (1 ∷ [])) ≡ ok (hello, 1 ∷ []))
decode_message-encode_example = decode_message-encode hello (1 ∷ []) hello-IsMessage

decode_object_total_example :
    ((v : Value) × (rest : Bytes) × (decode_object 9 (le 4 0xe000 ++ le 4 255) ≡ ok (v, rest))
      × (length rest + 4 ≤ 8))
    ⊎ ((e : DecodeError) × (decode_object 9 (le 4 0xe000 ++ le 4 255) ≡ err e) × (e ≢ stuck))
unfolding le
decode_object_total_example = decode_object_total 9 (le 4 0xe000 ++ le 4 255) (omega arith)
