-- ===== src/Dtx/Auxiliary/RoundTrip.antt =====
-- What `ToBytes` writes, `DecodeAuxiliary` reads back.
use go_ios.Common.{
  ℕ, zero, suc, ◌+◌, ◌^◌, ◌%◌, ◌<◌, ◌≤◌, ◌≡◌, refl, sym, ap, List, [], ◌∷◌, ◌++◌, append-nil,
  append_assoc, arith, length, length-append, lt→ltb, le→ltb_false, All, All-append,
}
use go_ios.Common.Bytes.{Bytes, IsU32, le, un_le, un_le-le}
use go_ios.Common.Buffer.{slice-append, slice_from-append}
use go_ios.Common.Result.{ok}
use go_ios.Dtx.Auxiliary.{
  t_null, t_uint32, t_bytearray, PrimitiveKeyValuePair, PrimitiveDictionary, int32_pair, bytes_pair,
  null, word32, bytes, of_pairs, new_primitive_dictionary, add_int32, add_bytes, write_entry,
  write_pairs, to_bytes, read_entry, read_pair, read_pairs, decode_auxiliary,
}

-- The pairs that `AddInt32` and `AddBytes` make.
pub data IsArgument : PrimitiveKeyValuePair → Type 0 where
  int32_argument : (v : ℕ) → IsU32 v → IsArgument (int32_pair v)
  bytes_argument : (b : Bytes) → 8 + length b < 2 ^ 32 → IsArgument (bytes_pair b)

-- the bytes of a pair without its key
abbrev pub entry_bytes : PrimitiveKeyValuePair → Bytes
entry_bytes p = elim p.value [
  | word32 v ↦ le 4 t_uint32 ++ le 4 v
  | bytes b ↦ le 4 t_bytearray ++ (le 4 (length b) ++ b)
  | _ ↦ []
]

write_entry-IsArgument :
    {p : PrimitiveKeyValuePair}
    → IsArgument p
    → write_entry p.value_type p.value ≡ ok (entry_bytes p)
unfolding write_entry
write_entry-IsArgument (int32_argument v h) = refl
write_entry-IsArgument (bytes_argument b h) = refl

read_entry-null : (s : Bytes) → read_entry (le 4 t_null ++ s) ≡ ok (t_null, null, s)
unfolding read_entry le un_le
read_entry-null s = rw (le→ltb_false (length (le 4 t_null ++ s)) 4 (omega arith))

read_entry-uint32 :
    (v : ℕ) (s : Bytes)
    → IsU32 v
    → read_entry ((le 4 t_uint32 ++ le 4 v) ++ s) ≡ ok (t_uint32, word32 v, s)
unfolding read_entry le un_le
read_entry-uint32 v s h =
    rw
      (
        le→ltb_false (length ((le 4 t_uint32 ++ le 4 v) ++ s)) 4 (omega arith),
        le→ltb_false (length ((le 4 t_uint32 ++ le 4 v) ++ s)) 8 (omega arith),
      )
      (ap (λ x. ok (t_uint32, word32 x, s)) (un_le-le 4 v h))

read_entry-bytes :
    (b s : Bytes)
    → 8 + length b < 2 ^ 32
    → read_entry ((le 4 t_bytearray ++ (le 4 (length b) ++ b)) ++ s) ≡ ok (t_bytearray, bytes b, s)
unfolding read_entry le un_le
read_entry-bytes b s h =
    let front = le 4 t_bytearray ++ le 4 (length b) in
    rw
      (
        le→ltb_false (length (front ++ (b ++ s))) 4 (omega arith),
        le→ltb_false (length (front ++ (b ++ s))) 8 (omega arith),
        un_le-le 4 (length b) (omega arith),
        le→ltb_false (length (front ++ (b ++ s))) (8 + length b) (omega (arith, length-append b s)),
        slice-append front b s {hi = (8 + length b) % 2 ^ 32} refl (omega arith),
        slice_from-append (front ++ b) s {lo = (8 + length b) % 2 ^ 32} (omega arith),
      )
      refl

read_entry-IsArgument :
    {p : PrimitiveKeyValuePair} (s : Bytes)
    → IsArgument p
    → read_entry (entry_bytes p ++ s) ≡ ok (p.value_type, p.value, s)
read_entry-IsArgument s (int32_argument v h) = read_entry-uint32 v s h
read_entry-IsArgument s (bytes_argument b h) = read_entry-bytes b s h

abbrev pub pair_bytes : PrimitiveKeyValuePair → Bytes
pair_bytes p = le 4 t_null ++ entry_bytes p

-- What the pairs look like on the wire.
abbrev pub wire : List PrimitiveKeyValuePair → Bytes
wire [] = []
wire (p ∷ ps) = pair_bytes p ++ wire ps

length-entry_bytes : {p : PrimitiveKeyValuePair} → IsArgument p → 8 ≤ length (entry_bytes p)
unfolding le
length-entry_bytes (int32_argument v h) = omega arith
length-entry_bytes (bytes_argument b h) = omega arith

read_pair_step :
    {p : PrimitiveKeyValuePair} (s : Bytes)
    → IsArgument p
    → read_pair (le 4 t_null ++ (entry_bytes p ++ s))
      ≡ ok (record { key_type = t_null; key = null; value_type = p.value_type; value = p.value }, s)
unfolding read_pair
read_pair_step {p} s a = rw (
  read_entry-null (entry_bytes p ++ s),
  le→ltb_false (length (entry_bytes p ++ s)) 4
      (omega (arith, length-append (entry_bytes p) s, length-entry_bytes a)),
  read_entry-IsArgument s a,
)

read_pair-IsArgument :
    {p : PrimitiveKeyValuePair} (s : Bytes)
    → IsArgument p
    → read_pair (pair_bytes p ++ s) ≡ ok (p, s)
unfolding le
read_pair-IsArgument s (int32_argument v h) = read_pair_step s (int32_argument v h)
read_pair-IsArgument s (bytes_argument b h) = read_pair_step s (bytes_argument b h)

key_type-IsArgument : {p : PrimitiveKeyValuePair} → IsArgument p → p.key_type ≡ t_null
key_type-IsArgument (int32_argument v h) = refl
key_type-IsArgument (bytes_argument b h) = refl

-- `ToBytes` succeeds on arguments, with these bytes.
pub write_pairs-IsArgument :
    (ps : List PrimitiveKeyValuePair) → All IsArgument ps → write_pairs ps ≡ ok (wire ps)
unfolding write_pairs
write_pairs-IsArgument [] h = refl
write_pairs-IsArgument (p ∷ ps) (a, h) =
    rw (key_type-IsArgument a, write_entry-IsArgument a, write_pairs-IsArgument ps h)
      (ap ok (sym (append_assoc (le 4 t_null) (entry_bytes p) (wire ps))))

length-pair_bytes : {p : PrimitiveKeyValuePair} → IsArgument p → 12 ≤ length (pair_bytes p)
unfolding le
length-pair_bytes a = omega (arith, length-entry_bytes a)

-- Behind the arguments, fewer than four bytes are left alone.
pub read_pairs-wire :
    (fuel : ℕ) (ps : List PrimitiveKeyValuePair) (junk : Bytes)
    → All IsArgument ps
    → length junk < 4
    → length (wire ps) ≤ fuel
    → read_pairs fuel (wire ps ++ junk) ≡ ok ps
unfolding read_pairs
read_pairs-wire zero [] junk h j f = rw (lt→ltb (length junk) 4 j)
read_pairs-wire (suc fuel) [] junk h j f = rw (lt→ltb (length junk) 4 j)
read_pairs-wire zero (p ∷ ps) junk (a, h) j f =
    absurd (omega (arith, length-append (pair_bytes p) (wire ps), length-pair_bytes a))
read_pairs-wire (suc fuel) (p ∷ ps) junk (a, h) j f =
    let l = length-append (pair_bytes p) (wire ps) in
    rw (
      le→ltb_false (length ((pair_bytes p ++ wire ps) ++ junk)) 4
          (omega (arith, l, length-append (pair_bytes p ++ wire ps) junk, length-pair_bytes a)),
      append_assoc (pair_bytes p) (wire ps) junk,
      read_pair-IsArgument (wire ps ++ junk) a,
      read_pairs-wire fuel ps junk h j (omega (arith, l, length-pair_bytes a)),
    )

abbrev pub IsWritable : PrimitiveDictionary → Type 0
IsWritable d = All IsArgument d.key_value_pairs

pub wire-IsWritable :
    (d : PrimitiveDictionary)
    → IsWritable d
    → (to_bytes d ≡ ok (wire d.key_value_pairs))
      × (decode_auxiliary (wire d.key_value_pairs) ≡ ok (of_pairs d.key_value_pairs))
unfolding to_bytes decode_auxiliary
wire-IsWritable d h =
    let ps = d.key_value_pairs in
    let read = read_pairs-wire (length (wire ps)) ps [] h (omega arith) (omega arith) in
    (write_pairs-IsArgument ps h, rw (rw (append-nil (wire ps)) at read))

-- A dictionary of arguments is written without an error, and `DecodeAuxiliary` of what was written
-- gives a dictionary with its pairs, their values and their types.
pub decode_auxiliary-to_bytes :
    (d : PrimitiveDictionary)
    → IsWritable d
    → (bs : Bytes) × (to_bytes d ≡ ok bs) × (decode_auxiliary bs ≡ ok (of_pairs d.key_value_pairs))
decode_auxiliary-to_bytes d h =
    let (written, read) = wire-IsWritable d h in (wire d.key_value_pairs, written, read)

-- The dictionaries that a caller can build from the empty one by `AddInt32` and `AddBytes` of fewer
-- than 2^32 - 8 bytes are dictionaries of arguments.
pub adders-IsWritable :
    IsWritable new_primitive_dictionary
    × ((d : PrimitiveDictionary) (v : ℕ) → IsWritable d → IsWritable (add_int32 d v))
    × ((d : PrimitiveDictionary) (b : Bytes)
        → 8 + length b < 2 ^ 32
        → IsWritable d
        → IsWritable (add_bytes d b))
unfolding add_int32 add_bytes
adders-IsWritable = (
  tt,
  λ d v h.
      All-append IsArgument d.key_value_pairs _ h (int32_argument (v % 2 ^ 32) (omega arith), tt),
  λ d b n h. All-append IsArgument d.key_value_pairs _ h (bytes_argument b n, tt),
)
