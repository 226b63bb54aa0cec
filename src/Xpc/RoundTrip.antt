-- ===== src/Xpc/RoundTrip.antt =====
-- Every object that can be sent is decoded to itself.
use go_ios.Common.{
  ℕ, zero, suc, ◌+◌, ◌<◌, ◌≤◌, ◌≡◌, ap, subst, ◌∙◌, [], ◌∷◌, ◌++◌, append_assoc, append-nil, arith,
  length, length-append, if◌then◌else◌,
}
use go_ios.Common.Bytes.{Bytes, zeros, le}
use go_ios.Common.Result.{ok}
use go_ios.Xpc.Value.{
  null_type, bool_type, int64_type, uint64_type, double_type, date_type, uuid_type, Value, null,
  unsupported, bool, int64, uint64, double, date, binary, text, uuid, array, dictionary,
  file_transfer, Items, nil, cons, Entries, end, entry, count_items, count_entries,
}
use go_ios.Xpc.Encode.{
  encode_uuid, encode_string, encode_data, encode_uint64, encode_int64, encode_double, encode_date,
  encode_bool, encode_dictionary_key, dictionary_bytes, array_bytes, encode_file_transfer,
  encode_object,
}
use go_ios.Xpc.Decode.{decode_scalar, decode_object, decode_items, decode_entries}
use go_ios.Xpc.Scalars.{
  read_dictionary_key-encode, decode_word-le, decode_bool-encode, decode_uuid-encode,
}
use go_ios.Xpc.Wire.{
  snoc, Distinct, insert_entry-Absent, IsXpc, AreXpc, AreEntries, wire, wire_items, wire_entries,
  encode_object-IsXpc, length-wire, count_items-le, count_entries-le, append_entries,
  append_entries_end,
}
use go_ios.Xpc.Objects.{
  decode_object-scalar, decode_array, decode_dictionary, decode_transfer, decode_binary,
  decode_text, decode_entries-step, decode_items-step, decode_items-nil, decode_entries-end,
  decode_size,
}

mutual
  unfolding le Distinct count_items count_entries append_entries decode_scalar wire IsXpc
      encode_bool encode_int64 encode_uint64 encode_double encode_date encode_data encode_string
      encode_uuid array_bytes dictionary_bytes encode_file_transfer

  pub decode_object-wire :
      (v : Value) (f : ℕ) (rest : Bytes)
      → IsXpc v
      → length (wire v) ≤ f
      → decode_object f (wire v ++ rest) ≡ ok (v, rest)
  decode_object-wire v zero rest h g = absurd (omega (arith, length-wire v h))
  decode_object-wire null (suc f) rest h g =
      decode_object-scalar f null_type rest (omega arith) (omega arith)
  decode_object-wire unsupported f rest h g = absurd h
  decode_object-wire (bool b) (suc f) rest h g =
      decode_object-scalar f bool_type ((if b then 1 else 0) ∷ (zeros 3 ++ rest)) (omega arith)
        (omega arith)
      ∙ decode_bool-encode b rest
  decode_object-wire (int64 i) (suc f) rest h g =
      decode_object-scalar f int64_type (le 8 i ++ rest) (omega arith) (omega arith)
      ∙ decode_word-le int64 i rest h
  decode_object-wire (uint64 i) (suc f) rest h g =
      decode_object-scalar f uint64_type (le 8 i ++ rest) (omega arith) (omega arith)
      ∙ decode_word-le uint64 i rest h
  decode_object-wire (double i) (suc f) rest h g =
      decode_object-scalar f double_type (le 8 i ++ rest) (omega arith) (omega arith)
      ∙ decode_word-le double i rest h
  decode_object-wire (date i) (suc f) rest h g =
      decode_object-scalar f date_type (le 8 i ++ rest) (omega arith) (omega arith)
      ∙ decode_word-le date i rest h
  decode_object-wire (array vs) (suc f) rest h g =
      decode_array (length (wire_items vs)) f (count_items vs) (wire_items vs ++ rest) rest vs h.0
        (omega (arith, count_items-le vs h.1, length-append (wire_items vs) rest))
        (decode_items-wire vs f rest h.1 (omega arith))
  decode_object-wire (dictionary es) (suc f) rest h g =
      decode_dictionary (4 + length (wire_entries es)) f (count_entries es)
        (wire_entries es ++ rest) rest es h.0
        (omega (arith, count_entries-le es h.1, length-append (wire_entries es) rest))
        (decode_entries-wire es f end rest h.1 h.2 (omega arith)
          ∙ ap (λ d. ok (d, rest)) (append_entries_end es))
  decode_object-wire (binary b) (suc f) rest h g = decode_binary f b rest h.0 h.1
  decode_object-wire (text t) (suc f) rest h g = decode_text f t rest h.0 h.1
  decode_object-wire (uuid u) (suc f) rest h g =
      decode_object-scalar f uuid_type (u ++ rest) (omega arith) (omega arith)
      ∙ decode_uuid-encode u rest h
  decode_object-wire (file_transfer m n) (suc f) rest h g =
      decode_transfer f m n
        (dictionary_bytes 1 (encode_dictionary_key (b's' ∷ []) ++ encode_uint64 n) ++ rest) rest h.0
        (decode_size f n rest h.1 (omega arith))

  decode_items-wire :
      (vs : Items) (f : ℕ) (rest : Bytes)
      → AreXpc vs
      → length (wire_items vs) < f
      → decode_items f (count_items vs) (wire_items vs ++ rest) ≡ ok (vs, rest)
  decode_items-wire vs zero rest h g = absurd (omega arith)
  decode_items-wire nil (suc f) rest h g = decode_items-nil f rest
  decode_items-wire (cons v vs) (suc f) rest h g =
      let len = length-append (wire v) (wire_items vs) in
      rw (append_assoc (wire v) (wire_items vs) rest) (
        decode_items-step f (count_items vs) (wire v ++ (wire_items vs ++ rest))
          (decode_object-wire v f (wire_items vs ++ rest) h.0 (omega (arith, len)))
          (decode_items-wire vs f rest h.1 (omega (arith, len, length-wire v h.0))))

  decode_entries-wire :
      (es : Entries) (f : ℕ) (seen : Entries) (rest : Bytes)
      → AreEntries es
      → Distinct seen es
      → length (wire_entries es) < f
      → decode_entries f seen (count_entries es) (wire_entries es ++ rest)
        ≡ ok (append_entries seen es, rest)
  decode_entries-wire es zero seen rest h d g = absurd (omega arith)
  decode_entries-wire end (suc f) seen rest h d g = decode_entries-end (suc f) seen rest
  decode_entries-wire (entry k v es) (suc f) seen rest h d g =
      let key = length-append (encode_dictionary_key k) (wire v ++ wire_entries es) in
      let len = length-append (wire v) (wire_entries es) in
      rw
        (
          append_assoc (encode_dictionary_key k) (wire v ++ wire_entries es) rest,
          append_assoc (wire v) (wire_entries es) rest,
        )
        (decode_entries-step f (count_entries es) seen
            (encode_dictionary_key k ++ (wire v ++ (wire_entries es ++ rest)))
            (read_dictionary_key-encode k (wire v ++ (wire_entries es ++ rest)) h.0)
            (decode_object-wire v f (wire_entries es ++ rest) h.1 (omega (arith, len, key)))
          ∙ ap (λ d. decode_entries f d (count_entries es) (wire_entries es ++ rest))
              (insert_entry-Absent k v seen d.0)
          ∙ decode_entries-wire es f (snoc seen k v) rest h.2 d.1
              (omega (arith, len, key, length-wire v h.1)))

pub decode_whole :
    (v : Value) → IsXpc v → decode_object (suc (length (wire v))) (wire v) ≡ ok (v, [])
decode_whole v h =
    subst (λ s. decode_object (suc (length (wire v))) s ≡ ok (v, [])) (append-nil (wire v))
      (decode_object-wire v (suc (length (wire v))) [] h (omega arith))

-- An object that fits the wire format is encoded without an error, and the decoder reads the same
-- object back and leaves the bytes behind it, whatever they are, on fuel of the encoding's length.
pub decode_object-encode :
    (v : Value) (rest : Bytes)
    → IsXpc v
    → (b : Bytes) × (encode_object v ≡ ok b) × (decode_object (length b) (b ++ rest) ≡ ok (v, rest))
decode_object-encode v rest h =
    (wire v, encode_object-IsXpc v h, decode_object-wire v (length (wire v)) rest h (omega arith))
