-- ===== src/Xpc/Message.antt =====
-- The messages of ios/xpc/encoding.go: `EncodeMessage`, `DecodeMessage` and `Message.IsFileOpen`.
pub mod RoundTrip
use go_ios.Common.{
  ℕ, zero, suc, ◌+◌, ◌-◌, ◌/◌, ◌%◌, ◌^◌, ◌<◌, Bool, true, false, not, Option, none, some, ◌++◌,
  length, ltb, ◌==◌,
}
use go_ios.Common.Bytes.{Bytes, le}
use go_ios.Common.Buffer.{split?, read_le}
use go_ios.Common.Result.{Result, ok, err, reject, need, wrap, ◌>>=◌, ◌>>◌}
use go_ios.Xpc.Value.{Value, dictionary, Entries}
use go_ios.Xpc.Encode.{EncodeError, encode_object}
use go_ios.Xpc.Decode.{DecodeError, decode_object}

abbrev pub body_version : ℕ
body_version = 5

abbrev pub wrapper_magic : ℕ
wrapper_magic = 0x29b00b92

abbrev pub object_magic : ℕ
object_magic = 0x42133742

-- The body is none where the Go map is nil.
pub record Message : Type 0 where
  pub flags : ℕ
  pub body : Option Entries
  pub id : ℕ

-- The bit 0x00100000 of the flags.
unfoldable pub is_file_open : Message → Bool
is_file_open m = m.flags / 2 ^ 20 % 2 == 1

abbrev pub wrapper_bytes : ℕ → ℕ → ℕ → Bytes
wrapper_bytes f len id = le 4 wrapper_magic ++ (le 4 f ++ (le 8 len ++ le 8 id))

-- `encodeDictionary` is `encodeObject` of a map.
unfoldable pub encode_message : Message → Result EncodeError Bytes
encode_message m = elim m.body [
  | none ↦ ok (wrapper_bytes m.flags 0 m.id)
  | some es ↦ (do
    b ← encode_object (dictionary es)
    ok (
        wrapper_bytes m.flags (length b + 8) m.id
        ++ (le 4 object_magic ++ (le 4 body_version ++ b))))
]

pub data MessageError : Type 0 where
  short_message wrong_magic invalid_object_magic wrong_version body_too_small short_body
        not_a_dictionary :
      MessageError
  bad_body : DecodeError → MessageError

abbrev pub read_field : ℕ → Bytes → Result MessageError (ℕ × Bytes)
read_field k s = need short_message (read_le k s)

unfoldable pub dictionary_of : Value → Result MessageError Entries
dictionary_of (dictionary es) = ok es
dictionary_of _ = err not_a_dictionary

-- The body is decoded on one more unit of fuel than it has bytes. What it holds behind its object
-- is dropped.
unfoldable pub decode_body : ℕ → Bytes → Result MessageError (Entries × Bytes)
decode_body body_len s = do
  (magic, s1) ← read_field 4 s
  (version, s2) ← read_field 4 s1
  reject (not (magic == object_magic)) invalid_object_magic
  reject (not (version == body_version)) wrong_version
  reject (ltb body_len 8) body_too_small
  (b, rest) ← need short_body (split? (body_len - 8) s2)
  (v, _) ← wrap bad_body (decode_object (suc (length b)) b)
  es ← dictionary_of v
  ok (es, rest)

unfoldable pub decode_wrapper : Bytes → Result MessageError (Message × Bytes)
decode_wrapper s = do
  (f, s1) ← read_field 4 s
  (len, s2) ← read_field 8 s1
  (id, s3) ← read_field 8 s2
  elim (len == 0) [
    | true ↦ ok (record { flags = f; body = none; id = id }, s3)
    | false ↦ (do
      (es, rest) ← decode_body len s3
      ok (record { flags = f; body = some es; id = id }, rest))
  ]

-- The message and the bytes behind it.
unfoldable pub decode_message : Bytes → Result MessageError (Message × Bytes)
decode_message s = do
  (magic, s1) ← read_field 4 s
  reject (not (magic == wrapper_magic)) wrong_magic
  decode_wrapper s1
