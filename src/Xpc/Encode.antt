-- ===== src/Xpc/Encode.antt =====
-- The encoders of ios/xpc/encoding.go. Writing to a `bytes.Buffer` does not fail, so the only error
-- is a value of a type that has no encoding.
use go_ios.Common.{ℕ, ◌+◌, ◌%◌, ◌^◌, Bool, [], ◌∷◌, ◌++◌, length, if◌then◌else◌}
use go_ios.Common.Bytes.{Bytes, zeros, le}
use go_ios.Common.Result.{Result, ok, err, ◌>>=◌}
use go_ios.Xpc.Value.{
  null_type, bool_type, int64_type, uint64_type, double_type, date_type, data_type, string_type,
  uuid_type, array_type, dictionary_type, file_transfer_type, Value, null, unsupported, bool, int64,
  uint64, double, date, binary, text, uuid, array, dictionary, file_transfer, Items, nil, cons,
  Entries, end, entry, count_items, count_entries, calc_padding,
}

pub data EncodeError : Type 0 where
  can_not_encode_type : EncodeError

unfoldable pub encode_uuid : Bytes → Bytes
encode_uuid u = le 4 uuid_type ++ u

-- The padding follows the length that the header holds.
unfoldable pub encode_string : Bytes → Bytes
encode_string s =
    le 4 string_type
    ++ (le 4 (length s + 1) ++ (s ++ zeros (calc_padding ((length s + 1) % 2 ^ 32) + 1)))

unfoldable pub encode_data : Bytes → Bytes
encode_data b =
    le 4 data_type ++ (le 4 (length b) ++ (b ++ zeros (calc_padding (length b % 2 ^ 32))))

unfoldable pub encode_uint64 : ℕ → Bytes
encode_uint64 i = le 4 uint64_type ++ le 8 i

unfoldable pub encode_int64 : ℕ → Bytes
encode_int64 i = le 4 int64_type ++ le 8 i

unfoldable pub encode_double : ℕ → Bytes
encode_double d = le 4 double_type ++ le 8 d

unfoldable pub encode_date : ℕ → Bytes
encode_date t = le 4 date_type ++ le 8 t

unfoldable pub encode_bool : Bool → Bytes
encode_bool b = le 4 bool_type ++ ((if b then 1 else 0) ∷ zeros 3)

unfoldable pub encode_dictionary_key : Bytes → Bytes
encode_dictionary_key k = k ++ zeros (calc_padding (length k + 1) + 1)

-- `encodeDictionary` around its entries
unfoldable pub dictionary_bytes : ℕ → Bytes → Bytes
dictionary_bytes n entries =
    le 4 dictionary_type ++ (le 4 (4 + length entries) ++ (le 4 n ++ entries))

-- `encodeArray` around its entries
unfoldable pub array_bytes : ℕ → Bytes → Bytes
array_bytes n entries = le 4 array_type ++ (le 4 (length entries) ++ (le 4 n ++ entries))

-- the key `s` with the transfer size
unfoldable pub encode_file_transfer : ℕ → ℕ → Bytes
encode_file_transfer msg_id size =
    le 4 file_transfer_type
    ++ (le 8 msg_id ++ dictionary_bytes 1 (encode_dictionary_key (b's' ∷ []) ++ encode_uint64 size))

unfoldable mutual
  pub encode_object : Value → Result EncodeError Bytes
  encode_object null = ok (le 4 null_type)
  encode_object unsupported = err can_not_encode_type
  encode_object (bool b) = ok (encode_bool b)
  encode_object (int64 i) = ok (encode_int64 i)
  encode_object (uint64 i) = ok (encode_uint64 i)
  encode_object (double d) = ok (encode_double d)
  encode_object (date t) = ok (encode_date t)
  encode_object (binary b) = ok (encode_data b)
  encode_object (text s) = ok (encode_string s)
  encode_object (uuid u) = ok (encode_uuid u)
  encode_object (array vs) = do b ← encode_items vs; ok (array_bytes (count_items vs) b)
  encode_object (dictionary es) = do
    b ← encode_entries es
    ok (dictionary_bytes (count_entries es) b)
  encode_object (file_transfer m n) = ok (encode_file_transfer m n)

  pub encode_items : Items → Result EncodeError Bytes
  encode_items nil = ok []
  encode_items (cons v vs) = do b ← encode_object v; bs ← encode_items vs; ok (b ++ bs)

  pub encode_entries : Entries → Result EncodeError Bytes
  encode_entries end = ok []
  encode_entries (entry k v es) = do
    b ← encode_object v
    bs ← encode_entries es
    ok (encode_dictionary_key k ++ (b ++ bs))
