-- ===== src/Dtx/Auxiliary.antt =====
-- ios/dtx_codec/dtxprimitivedictionary.go: the arguments of a method call, as typed entries.
pub mod RoundTrip
pub mod Total
use go_ios.Common.{
  ℕ, zero, suc, ◌+◌, ◌^◌, ◌%◌, Bool, not, ◌||◌, List, [], ◌∷◌, ◌++◌, map, Option, none, some,
  length, take, drop, ltb, ◌==◌, if◌then◌else◌,
}
use go_ios.Common.Bytes.{Bytes, le, un_le}
use go_ios.Common.Buffer.{slice, slice_from}
use go_ios.Common.Result.{Result, ok, err, reject, need, ◌>>=◌, ◌>>◌}

abbrev pub t_null : ℕ
t_null = 0x0A

abbrev pub t_string : ℕ
t_string = 1

abbrev pub t_bytearray : ℕ
t_bytearray = 2

abbrev pub t_uint32 : ℕ
t_uint32 = 3

abbrev pub t_int64 : ℕ
t_int64 = 6

-- the dynamic types that an entry's `interface{}` takes; the `int64` entry is read as a `uint64`
pub data Value : Type 0 where
  null : Value
  word32 : ℕ → Value
  word64 : ℕ → Value
  bytes : Bytes → Value
  text : Bytes → Value

pub record PrimitiveKeyValuePair : Type 0 where
  pub key_type : ℕ
  pub key : Value
  pub value_type : ℕ
  pub value : Value

pub record PrimitiveDictionary : Type 0 where
  pub key_value_pairs : List PrimitiveKeyValuePair
  pub values : List Value
  pub value_types : List ℕ

abbrev pub new_primitive_dictionary : PrimitiveDictionary
new_primitive_dictionary = record { key_value_pairs = []; values = []; value_types = [] }

abbrev pub int32_pair : ℕ → PrimitiveKeyValuePair
int32_pair v = record { key_type = t_null; key = null; value_type = t_uint32; value = word32 v }

abbrev pub bytes_pair : Bytes → PrimitiveKeyValuePair
bytes_pair b = record { key_type = t_null; key = null; value_type = t_bytearray; value = bytes b }

abbrev push_back : PrimitiveDictionary → PrimitiveKeyValuePair → PrimitiveDictionary
push_back d p = record d { key_value_pairs = d.key_value_pairs ++ (p ∷ []) }

unfoldable pub add_int32 : PrimitiveDictionary → ℕ → PrimitiveDictionary
add_int32 d value = push_back d (int32_pair (value % 2 ^ 32))

unfoldable pub add_bytes : PrimitiveDictionary → Bytes → PrimitiveDictionary
add_bytes d value = push_back d (bytes_pair value)

-- None is the panic on an archiver's error.
unfoldable pub add_ns_keyed_archived_object :
    {O : Type 0} → (O → Option Bytes) → PrimitiveDictionary → O → Option PrimitiveDictionary
unfolding add_bytes
add_ns_keyed_archived_object archive_bin d o = elim (archive_bin o) [
  | none ↦ none
  | some b ↦ some (add_bytes d b)
]

pub data WriteError : Type 0 where
  unsupported_key_type unknown_value_type : ℕ → WriteError
  write_panicked : WriteError

-- `binary.Write` of an entry's value: it panics on nil, and the error on a string is ignored.
unfoldable pub write_value : Value → Option Bytes
write_value null = none
write_value (word32 v) = some (le 4 v)
write_value (word64 v) = some (le 8 v)
write_value (bytes b) = some b
write_value (text b) = some []

-- `value.([]byte)`
unfoldable pub as_bytes : Value → Option Bytes
as_bytes (bytes b) = some b
as_bytes _ = none

unfoldable pub write_entry : ℕ → Value → Result WriteError Bytes
unfolding write_value as_bytes
write_entry valuetype value =
    if valuetype == t_null
    then ok (le 4 t_null)
    else if valuetype == t_uint32
    then (do b ← need write_panicked (write_value value); ok (le 4 t_uint32 ++ b))
    else if valuetype == t_bytearray
    then (do
      b ← need write_panicked (as_bytes value)
      ok (le 4 t_bytearray ++ (le 4 (length b) ++ b)))
    else err (unknown_value_type valuetype)

unfoldable pub write_pairs : List PrimitiveKeyValuePair → Result WriteError Bytes
write_pairs [] = ok []
write_pairs (p ∷ ps) = do
  reject (not (p.key_type == t_null)) (unsupported_key_type p.key_type)
  e ← write_entry p.value_type p.value
  rest ← write_pairs ps
  ok (le 4 t_null ++ (e ++ rest))

unfoldable pub to_bytes : PrimitiveDictionary → Result WriteError Bytes
to_bytes d = write_pairs d.key_value_pairs

pub data ReadError : Type 0 where
  insufficient_bytes : ℕ → ReadError
  unknown_type : ℕ → ReadError
  read_panicked : ReadError

unfoldable pub has_length : ℕ → Bool
has_length t = t == t_bytearray || t == t_string

-- An entry with a length: `8+length` is a `uint32` sum in the slice expressions.
unfoldable pub read_sized : ℕ → Bytes → Result ReadError (ℕ × Value × Bytes)
read_sized t s = do
  reject (ltb (length s) 8) (insufficient_bytes 8)
  let n = un_le (take 4 (drop 4 s))
  reject (ltb (length s) (8 + n)) (insufficient_bytes (8 + n))
  d ← need read_panicked (slice s 8 ((8 + n) % 2 ^ 32))
  rest ← need read_panicked (slice_from s ((8 + n) % 2 ^ 32))
  ok (t, (if t == t_string then text d else bytes d), rest)

-- The entry of type `t`, which the first four bytes of `s` hold.
unfoldable pub read_typed : ℕ → Bytes → Result ReadError (ℕ × Value × Bytes)
unfolding read_sized has_length
read_typed t s =
    if t == t_null
    then ok (t_null, null, drop 4 s)
    else if t == t_uint32
    then (if ltb (length s) 8
        then err (insufficient_bytes 8)
        else ok (t_uint32, word32 (un_le (take 4 (drop 4 s))), drop 8 s))
    else if t == t_int64
    then (if ltb (length s) 12
        then err (insufficient_bytes 12)
        else ok (t_int64, word64 (un_le (take 8 (drop 4 s))), drop 12 s))
    else if has_length t
    then read_sized t s
    else err (unknown_type t)

unfoldable pub read_entry : Bytes → Result ReadError (ℕ × Value × Bytes)
unfolding read_typed
read_entry s = do reject (ltb (length s) 4) (insufficient_bytes 4); read_typed (un_le (take 4 s)) s

-- One round of the loop of `DecodeAuxiliary`: a key and a value. None leaves the loop.
unfoldable pub read_pair : Bytes → Result ReadError (PrimitiveKeyValuePair × Bytes)
read_pair s = do
  (key_type, key, s1) ← read_entry s
  reject (ltb (length s1) 4) (insufficient_bytes 4)
  (value_type, value, s2) ← read_entry s1
  ok (record { key_type = key_type; key = key; value_type = value_type; value = value }, s2)

-- `stuck` is no Go value: the loop ran out of fuel.
pub data Fault : Type 0 where
  panicked stuck : Fault

-- An error ends the loop with the pairs read so far; a panic does not.
unfoldable pub after_error : ReadError → Result Fault (List PrimitiveKeyValuePair)
after_error (insufficient_bytes n) = ok []
after_error (unknown_type t) = ok []
after_error read_panicked = err panicked

unfoldable pub read_pairs : ℕ → Bytes → Result Fault (List PrimitiveKeyValuePair)
unfolding after_error
read_pairs zero s = if ltb (length s) 4 then ok [] else err stuck
read_pairs (suc fuel) s = if ltb (length s) 4 then ok [] else elim (read_pair s) [
  | err e ↦ after_error e
  | ok (p, rest) ↦ (do ps ← read_pairs fuel rest; ok (p ∷ ps))
]

abbrev pub of_pairs : List PrimitiveKeyValuePair → PrimitiveDictionary
of_pairs ps = record {
  key_value_pairs = ps;
  values = map (λ p. p.value) ps;
  value_types = map (λ p. p.value_type) ps;
}

-- Each round takes 8 bytes at least, so `length s` rounds are enough.
unfoldable pub decode_auxiliary : Bytes → Result Fault PrimitiveDictionary
decode_auxiliary s = do ps ← read_pairs (length s) s; ok (of_pairs ps)
