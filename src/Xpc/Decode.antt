-- ===== src/Xpc/Decode.antt =====
-- The decoders of ios/xpc/encoding.go, over the bytes that are left of the body.
use go_ios.Common.{
  ℕ, zero, suc, ◌+◌, ◌-◌, true, false, not, Option, none, some, [], ◌∷◌, ◌++◌, length, take, drop,
  ltb, ◌==◌, if◌then◌else◌,
}
use mathlib.Core.List.{reverse}
use go_ios.Common.Bytes.{Bytes, zeros}
use go_ios.Common.Buffer.{read_le}
use go_ios.Common.Result.{Result, ok, err, reject, need, ◌>>=◌, ◌>>◌}
use go_ios.Xpc.Value.{
  null_type, bool_type, int64_type, uint64_type, double_type, date_type, data_type, string_type,
  uuid_type, array_type, dictionary_type, file_transfer_type, Value, null, bool, int64, uint64,
  double, date, binary, text, uuid, array, dictionary, file_transfer, Items, nil, cons, Entries,
  end, calc_padding, insert_entry, lookup_entry,
}

-- `stuck` is no Go value: the decoder ran out of fuel.
pub data DecodeError : Type 0 where
  end_of_input too_long unknown_object bad_transfer stuck : DecodeError

-- `binary.Read` of an integer of `k` bytes
abbrev pub read_int : ℕ → Bytes → Result DecodeError (ℕ × Bytes)
read_int k s = need end_of_input (read_le k s)

-- `bytes.Reader.Read` into a buffer of `n` zeros: at the end of the input it fails, for `n` = 0 too;
-- where fewer bytes are left, it fills a part of the buffer and reports no error.
unfoldable pub read_some : ℕ → Bytes → Result DecodeError (Bytes × Bytes)
read_some n [] = err end_of_input
read_some n (b ∷ s) = ok (take n (b ∷ s) ++ zeros (n - length (b ∷ s)), drop n (b ∷ s))

-- `io.CopyN(io.Discard, r, n)`
unfoldable pub discard : ℕ → Bytes → Result DecodeError Bytes
discard n s = if ltb (length s) n then err end_of_input else ok (drop n s)

-- `strings.Trim(s, "\000")`
unfoldable pub trim_left : Bytes → Bytes
trim_left [] = []
trim_left (b ∷ s) = let rest = trim_left s in if b == 0 then rest else b ∷ s

unfoldable pub trim_right : Bytes → Bytes
unfolding trim_left
trim_right s = reverse (trim_left (reverse s))

unfoldable pub trim : Bytes → Bytes
trim s = trim_right (trim_left s)

unfoldable pub decode_string : Bytes → Result DecodeError (Value × Bytes)
decode_string s = do
  (l, s1) ← read_int 4 s
  reject (ltb (length s1) l) too_long
  (b, s2) ← read_some l s1
  s3 ← discard (calc_padding l) s2
  ok (text (trim b), s3)

-- An error while the padding is skipped is ignored.
unfoldable pub skip : ℕ → Bytes → Bytes
skip n s = drop n s

unfoldable pub decode_data : Bytes → Result DecodeError (Value × Bytes)
decode_data s = do
  (l, s1) ← read_int 4 s
  reject (ltb (length s1) l) too_long
  (b, s2) ← read_some l s1
  ok (binary b, skip (calc_padding l) s2)

unfoldable pub decode_uuid : Bytes → Result DecodeError (Value × Bytes)
decode_uuid s = do (b, rest) ← read_some 16 s; ok (uuid b, rest)

unfoldable pub decode_bool : Bytes → Result DecodeError (Value × Bytes)
decode_bool s = do (b, rest) ← read_int 1 s; ok (bool (not (b == 0)), skip 3 rest)

-- `decodeInt64`, `decodeUint64`, `decodeDouble` and `decodeDate`
unfoldable pub decode_word : (ℕ → Value) → Bytes → Result DecodeError (Value × Bytes)
decode_word make s = do (i, rest) ← read_int 8 s; ok (make i, rest)

-- the cases of `decodeObject` for objects that hold no other
unfoldable pub decode_scalar : ℕ → Bytes → Result DecodeError (Value × Bytes)
decode_scalar t s =
    if t == null_type
    then ok (null, s)
    else if t == bool_type
    then decode_bool s
    else if t == int64_type
    then decode_word int64 s
    else if t == uint64_type
    then decode_word uint64 s
    else if t == double_type
    then decode_word double s
    else if t == date_type
    then decode_word date s
    else if t == data_type
    then decode_data s
    else if t == string_type
    then decode_string s
    else if t == uuid_type
    then decode_uuid s
    else err unknown_object

-- The bytes up to the next 0, and what is behind it.
unfoldable pub until_zero : Bytes → Option (Bytes × Bytes)
until_zero [] = none
until_zero (b ∷ s) =
    let rest = until_zero s in
    if b == 0 then some ([], s) else elim rest [ none ↦ none | some (k, s') ↦ some (b ∷ k, s') ]

unfoldable pub read_dictionary_key : Bytes → Result DecodeError (Bytes × Bytes)
read_dictionary_key s = do
  (k, s1) ← need end_of_input (until_zero s)
  s2 ← discard (calc_padding (length k + 1)) s1
  ok (k, s2)

-- the payload length, which nothing uses, and the number of entries
unfoldable pub read_count : Bytes → Result DecodeError (ℕ × Bytes)
read_count s = do
  (l, s1) ← read_int 4 s
  (n, s2) ← read_int 4 s1
  reject (ltb (length s2) n) too_long
  ok (n, s2)

unfoldable pub transfer_size : Option Value → Result DecodeError ℕ
transfer_size (some (uint64 n)) = ok n
transfer_size _ = err bad_transfer

unfoldable pub transfer_of : ℕ → Value → Result DecodeError Value
transfer_of m (dictionary es) = do
  n ← transfer_size (lookup_entry (b's' ∷ []) es)
  ok (file_transfer m n)
transfer_of m _ = err bad_transfer

-- Each call on less fuel follows a read of four bytes at least.
unfoldable mutual
  pub decode_object : ℕ → Bytes → Result DecodeError (Value × Bytes)
  decode_object zero s = err stuck
  decode_object (suc fuel) s = do
    (t, s1) ← read_int 4 s
    elim (t == array_type) [
      | true ↦ (do (n, s2) ← read_count s1; (vs, s3) ← decode_items fuel n s2; ok (array vs, s3))
      | false ↦ elim (t == dictionary_type) [
        | true ↦ (do
          (n, s2) ← read_count s1
          (es, s3) ← decode_entries fuel end n s2
          ok (dictionary es, s3))
        | false ↦ elim (t == file_transfer_type) [
          | true ↦ (do
            (m, s2) ← read_int 8 s1
            (d, s3) ← decode_object fuel s2
            v ← transfer_of m d
            ok (v, s3))
          | false ↦ decode_scalar t s1
        ]
      ]
    ]

  pub decode_items : ℕ → ℕ → Bytes → Result DecodeError (Items × Bytes)
  decode_items zero n s = if n == 0 then ok (nil, s) else err stuck
  decode_items (suc fuel) n s = elim n [
    | zero ↦ ok (nil, s)
    | suc m ↦ (do
      (v, s1) ← decode_object fuel s
      (vs, s2) ← decode_items fuel m s1
      ok (cons v vs, s2))
  ]

  -- `dict` holds the entries that were read before.
  pub decode_entries : ℕ → Entries → ℕ → Bytes → Result DecodeError (Entries × Bytes)
  decode_entries zero dict n s = if n == 0 then ok (dict, s) else err stuck
  decode_entries (suc fuel) dict n s = elim n [
    | zero ↦ ok (dict, s)
    | suc m ↦ (do
      (k, s1) ← read_dictionary_key s
      (v, s2) ← decode_object fuel s1
      decode_entries fuel (insert_entry k v dict) m s2)
  ]
