-- ===== src/Opack.antt =====
-- ios/opack/opack.go: a dictionary of strings and data. A Go map is the list of its entries in the
-- order of an iteration.
pub mod Identifiers
pub mod Read
use go_ios.Common.{
  ℕ, ◌+◌, ◌%◌, ◌^◌, Bool, List, [], ◌∷◌, ◌++◌, length, ltb, leb, if◌then◌else◌, bit_or, bit_and,
}
use go_ios.Common.Bytes.{Bytes}
use go_ios.Common.Result.{Result, ok, err, reject, ◌>>=◌, ◌>>◌}

-- `unsupported` is a value of any other Go type.
pub data Value : Type 0 where
  text binary : Bytes → Value
  unsupported : Value

pub data OpackError : Type 0 where
  too_many_entries too_long can_not_encode : OpackError

unfoldable pub create_identifier_with_length : ℕ → ℕ → Result OpackError Bytes
create_identifier_with_length t l =
    if leb l 0xF
    then ok (bit_or t l ∷ [])
    else if ltb l 0x20
    then ok (bit_or ((t + 16) % 256) (bit_and l 0xF) ∷ [])
    else if leb l 0xFF
    then ok (bit_or ((t + 32) % 256) 1 ∷ (l ∷ []))
    else err too_long

unfoldable pub encode_string : Bytes → Result OpackError Bytes
encode_string s = do id ← create_identifier_with_length 0x40 (length s); ok (id ++ s)

unfoldable pub encode_data : Bytes → Result OpackError Bytes
encode_data b = do id ← create_identifier_with_length 0x70 (length b); ok (id ++ b)

unfoldable pub encode_value : Value → Result OpackError Bytes
encode_value (text s) = encode_string s
encode_value (binary b) = encode_data b
encode_value unsupported = err can_not_encode

unfoldable pub encode_entries : List (Bytes × Value) → Result OpackError Bytes
encode_entries [] = ok []
encode_entries ((k, v) ∷ d) = do
  a ← encode_string k
  b ← encode_value v
  rest ← encode_entries d
  ok (a ++ (b ++ rest))

-- `Encode` is `encodeDict` into an empty buffer.
unfoldable pub encode : List (Bytes × Value) → Result OpackError Bytes
encode d = do
  reject (ltb 0xF (length d)) too_many_entries
  b ← encode_entries d
  ok (bit_or 0xE0 (length d % 256) ∷ b)
