-- ===== src/Opack/Read.antt =====
-- What the reader of Opack/Identifiers makes of the dictionaries that ios/opack/opack.go encodes.
use go_ios.Common.{
  ℕ, suc, ◌+◌, ◌-◌, ◌%◌, ◌<◌, ◌≤◌, ◌≡◌, refl, inl, inr, some, List, [], ◌∷◌, ◌++◌, append_assoc,
  arith, length, ◌==◌, ==_iff, le→ltb_false, lt→ltb, bit_or,
}
use go_ios.Common.Bytes.{Bytes}
use go_ios.Common.Tables.{all_below-holds}
use go_ios.Common.Result.{ok, reject, ◌>>=◌}
use go_ios.Opack.{
  Value, text, binary, unsupported, encode_string, encode_data, encode_value, encode_entries,
  encode,
}
use go_ios.Opack.Identifiers.{
  read_string, read_value, read_entries, read_dict, IsShort, AreShort, identifier,
  create_identifier, read_string-identifier, read_value-text, read_value-binary,
}

-- the bytes of an entry's value, and of entries
value_bytes : Value → Bytes
value_bytes (text b) = identifier 64 (length b) ++ b
value_bytes (binary b) = identifier 112 (length b) ++ b
value_bytes unsupported = []

entries_bytes : List (Bytes × Value) → Bytes
entries_bytes [] = []
entries_bytes ((k, v) ∷ d) = (identifier 64 (length k) ++ k) ++ (value_bytes v ++ entries_bytes d)

encode_value-IsShort : (v : Value) → IsShort v → encode_value v ≡ ok (value_bytes v)
unfolding encode_value IsShort encode_string encode_data value_bytes
encode_value-IsShort (text b) h = rw (create_identifier 64 (length b) (inl refl) h)
encode_value-IsShort (binary b) h = rw (create_identifier 112 (length b) (inr refl) h)
encode_value-IsShort unsupported h = absurd h

encode_entries-AreShort :
    (d : List (Bytes × Value)) → AreShort d → encode_entries d ≡ ok (entries_bytes d)
unfolding encode_entries AreShort entries_bytes encode_string
encode_entries-AreShort [] h = refl
encode_entries-AreShort ((k, v) ∷ d) h = rw (
  create_identifier 64 (length k) (inl refl) h.0,
  ◌>>=◌,
  encode_value-IsShort v h.1,
  encode_entries-AreShort d h.2,
)

read_value-bytes :
    (v : Value) (s : Bytes) → IsShort v → read_value (value_bytes v ++ s) ≡ some (v, s)
unfolding IsShort value_bytes
read_value-bytes (text b) s h =
    rw (append_assoc (identifier 64 (length b)) b s) (read_value-text b s)
read_value-bytes (binary b) s h =
    rw (append_assoc (identifier 112 (length b)) b s) (read_value-binary b s)
read_value-bytes unsupported s h = absurd h

read_entries-step :
    (n : ℕ) (s : Bytes) {k s1 s2 s3 : Bytes} {v : Value} {d : List (Bytes × Value)}
    → read_string s ≡ some (k, s1)
    → read_value s1 ≡ some (v, s2)
    → read_entries n s2 ≡ some (d, s3)
    → read_entries (suc n) s ≡ some ((k, v) ∷ d, s3)
unfolding read_entries
read_entries-step n s e f g = rw (read_entries, e, f, g)

read_entries-bytes :
    (d : List (Bytes × Value)) (s : Bytes)
    → AreShort d
    → read_entries (length d) (entries_bytes d ++ s) ≡ some (d, s)
unfolding AreShort entries_bytes
read_entries-bytes [] s h = unfold read_entries in refl
read_entries-bytes ((k, v) ∷ d) s h =
    let a = identifier 64 (length k) in
    let r = value_bytes v ++ (entries_bytes d ++ s) in
    rw
      (
        append_assoc (a ++ k) (value_bytes v ++ entries_bytes d) s,
        append_assoc a k ((value_bytes v ++ entries_bytes d) ++ s),
        append_assoc (value_bytes v) (entries_bytes d) s,
      )
      (read_entries-step (length d) (a ++ (k ++ r)) (read_string-identifier k r)
        (read_value-bytes v (entries_bytes d ++ s) h.1) (read_entries-bytes d s h.2))

count_byte : (n : ℕ) → n < 16 → bit_or 224 (n % 256) ≡ 224 + n
count_byte n h =
    (==_iff (bit_or 224 (n % 256)) (224 + n)).0
      (all_below-holds 16 (λ i. bit_or 224 (i % 256) == 224 + i) n refl h)

-- A dictionary of at most 15 entries, whose keys and values are strings and data of at most 255
-- bytes, is encoded without an error, and a reader that goes by the identifiers of OPACK gets the
-- same entries in the same order from the front of any bytes that begin with the encoding.
pub read_dict-encode :
    (d : List (Bytes × Value)) (rest : Bytes)
    → length d ≤ 15
    → AreShort d
    → (b : Bytes) × (encode d ≡ ok b) × (read_dict (b ++ rest) ≡ some (d, rest))
unfolding encode read_dict
read_dict-encode d rest few h = ((224 + length d) ∷ entries_bytes d, encoded, decoded)
  where
    encoded : encode d ≡ ok ((224 + length d) ∷ entries_bytes d)
    encoded = rw (
      le→ltb_false 15 (length d) few,
      reject,
      ◌>>=◌,
      encode_entries-AreShort d h,
      count_byte (length d) (omega arith),
    )

    back : 224 + length d - 224 ≡ length d
    back = omega arith

    decoded : read_dict ((224 + length d) ∷ (entries_bytes d ++ rest)) ≡ some (d, rest)
    decoded =
        rw
          (
            le→ltb_false (224 + length d) 224 (omega arith),
            lt→ltb (224 + length d) 240 (omega arith),
            back,
          )
          (read_entries-bytes d rest h)
