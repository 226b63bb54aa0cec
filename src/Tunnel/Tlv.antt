-- ===== src/Tunnel/Tlv.antt =====
-- ios/tunnel/tlv.go: the type-length-value records of the pairing.
pub mod RoundTrip
use go_ios.Common.{ℕ, zero, suc, List, [], ◌∷◌, ◌++◌, length, take, drop, ltb, ◌==◌, if◌then◌else◌}
use go_ios.Common.Bytes.{Bytes}
use go_ios.Common.Result.{Result, ok, err, reject, ◌>>=◌, ◌>>◌}

abbrev pub max_uint8 : ℕ
max_uint8 = 255

abbrev pub chunk : ℕ → Bytes → Bytes
chunk t value = t ∷ (length value ∷ value)

-- Each call on less fuel has 255 bytes less.
unfoldable pub write_chunks : ℕ → ℕ → Bytes → Bytes
write_chunks zero t value = chunk t value
write_chunks (suc fuel) t value =
    let rest = write_chunks fuel t (drop max_uint8 value) in
    if ltb max_uint8 (length value) then chunk t (take max_uint8 value) ++ rest else chunk t value

-- What `writeData` adds to the buffer; the length of the data is enough fuel.
unfoldable pub write_data : ℕ → Bytes → Bytes
write_data t value = write_chunks (length value) t value

unfoldable pub write_byte : ℕ → ℕ → Bytes
write_byte t v = write_data t (v ∷ [])

pub data TlvError : Type 0 where
  short_value stuck : TlvError

-- `io.CopyN` and the record's value, which is kept where the type is the one that is looked for
unfoldable pub take_value : ℕ → ℕ → ℕ → Bytes → Result TlvError (Bytes × Bytes)
take_value t chunk_type l s = do
  reject (ltb (length s) l) short_value
  ok (if chunk_type == t then take l s else [], drop l s)

-- The error of the second `ReadByte` is ignored: the length is 0.
unfoldable pub read_chunks : ℕ → ℕ → Bytes → Result TlvError Bytes
read_chunks fuel t [] = ok []
read_chunks zero t (c ∷ s) = err stuck
read_chunks (suc fuel) t (c ∷ []) = do
  (v, s) ← take_value t c 0 []
  rest ← read_chunks fuel t s
  ok (v ++ rest)
read_chunks (suc fuel) t (c ∷ (l ∷ s)) = do
  (v, s') ← take_value t c l s
  rest ← read_chunks fuel t s'
  ok (v ++ rest)

unfoldable pub read_coalesced : Bytes → ℕ → Result TlvError Bytes
read_coalesced r t = read_chunks (length r) t r
