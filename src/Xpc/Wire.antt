-- ===== src/Xpc/Wire.antt =====
-- The objects of ios/xpc/encoding.go that can be sent, and the bytes that `encodeObject` gives them.
use go_ios.Common.{◌+◌, ◌<◌, ◌≤◌, ◌≡◌, refl, ap, ◌∙◌, false, [], ◌++◌, arith, length, length-append}
use go_ios.Common.Bytes.{Bytes, IsU32, IsU64, le}
use go_ios.Common.Result.{ok}
use go_ios.Xpc.Value.{
  null_type, Value, null, unsupported, bool, int64, uint64, double, date, binary, text, uuid, array,
  dictionary, file_transfer, Items, nil, cons, Entries, end, entry, count_items, count_entries,
  bytes_eq, insert_entry,
}
use go_ios.Xpc.Encode.{
  encode_uuid, encode_string, encode_data, encode_uint64, encode_int64, encode_double, encode_date,
  encode_bool, encode_dictionary_key, dictionary_bytes, array_bytes, encode_file_transfer,
  encode_object, encode_items, encode_entries,
}
use go_ios.Xpc.Scalars.{IsKey, IsTrimmed}

-- The key is not among the entries.
unfoldable pub Absent : Bytes → Entries → Type 0
Absent k end = Unit
Absent k (entry j w es) = (bytes_eq j k ≡ false) × Absent k es

unfoldable pub snoc : Entries → Bytes → Value → Entries
snoc end k v = entry k v end
snoc (entry j w es) k v = entry j w (snoc es k v)

-- The keys of the second list differ from each other and from those of the first.
unfoldable pub Distinct : Entries → Entries → Type 0
Distinct seen end = Unit
Distinct seen (entry k v es) = Absent k seen × Distinct (snoc seen k v) es

pub insert_entry-Absent :
    (k : Bytes) (v : Value) (es : Entries) → Absent k es → insert_entry k v es ≡ snoc es k v
unfolding Absent snoc insert_entry
insert_entry-Absent k v end h = refl
insert_entry-Absent k v (entry j w es) (ne, h) = rw (ne, insert_entry-Absent k v es h)

-- What an encoder can be given and a decoder gives back: numbers that fit 64 bits, strings without
-- a byte 0 at either end, keys without a byte 0 that differ, data of one byte at least, and counts
-- and lengths that fit 32 bits.
unfoldable mutual
  pub IsXpc : Value → Type 0
  IsXpc null = Unit
  IsXpc unsupported = ⊥
  IsXpc (bool b) = Unit
  IsXpc (int64 i) = IsU64 i
  IsXpc (uint64 i) = IsU64 i
  IsXpc (double d) = IsU64 d
  IsXpc (date t) = IsU64 t
  IsXpc (binary b) = (0 < length b) × IsU32 (length b)
  IsXpc (text s) = IsTrimmed s × IsU32 (length s + 1)
  IsXpc (uuid u) = length u ≡ 16
  IsXpc (array vs) = IsU32 (count_items vs) × AreXpc vs
  IsXpc (dictionary es) = IsU32 (count_entries es) × AreEntries es × Distinct end es
  IsXpc (file_transfer m n) = IsU64 m × IsU64 n

  pub AreXpc : Items → Type 0
  AreXpc nil = Unit
  AreXpc (cons v vs) = IsXpc v × AreXpc vs

  pub AreEntries : Entries → Type 0
  AreEntries end = Unit
  AreEntries (entry k v es) = IsKey k × IsXpc v × AreEntries es

unfoldable mutual
  pub wire : Value → Bytes
  wire null = le 4 null_type
  wire unsupported = []
  wire (bool b) = encode_bool b
  wire (int64 i) = encode_int64 i
  wire (uint64 i) = encode_uint64 i
  wire (double d) = encode_double d
  wire (date t) = encode_date t
  wire (binary b) = encode_data b
  wire (text s) = encode_string s
  wire (uuid u) = encode_uuid u
  wire (array vs) = array_bytes (count_items vs) (wire_items vs)
  wire (dictionary es) = dictionary_bytes (count_entries es) (wire_entries es)
  wire (file_transfer m n) = encode_file_transfer m n

  pub wire_items : Items → Bytes
  wire_items nil = []
  wire_items (cons v vs) = wire v ++ wire_items vs

  pub wire_entries : Entries → Bytes
  wire_entries end = []
  wire_entries (entry k v es) = encode_dictionary_key k ++ (wire v ++ wire_entries es)

mutual
  unfolding encode_object wire IsXpc

  pub encode_object-IsXpc : (v : Value) → IsXpc v → encode_object v ≡ ok (wire v)
  encode_object-IsXpc null h = refl
  encode_object-IsXpc unsupported h = absurd h
  encode_object-IsXpc (bool b) h = refl
  encode_object-IsXpc (int64 i) h = refl
  encode_object-IsXpc (uint64 i) h = refl
  encode_object-IsXpc (double d) h = refl
  encode_object-IsXpc (date t) h = refl
  encode_object-IsXpc (binary b) h = refl
  encode_object-IsXpc (text s) h = refl
  encode_object-IsXpc (uuid u) h = refl
  encode_object-IsXpc (array vs) h = rw (encode_items-AreXpc vs h.1)
  encode_object-IsXpc (dictionary es) h = rw (encode_entries-AreEntries es h.1)
  encode_object-IsXpc (file_transfer m n) h = refl

  encode_items-AreXpc : (vs : Items) → AreXpc vs → encode_items vs ≡ ok (wire_items vs)
  encode_items-AreXpc nil h = refl
  encode_items-AreXpc (cons v vs) h = rw (encode_object-IsXpc v h.0, encode_items-AreXpc vs h.1)

  encode_entries-AreEntries :
      (es : Entries) → AreEntries es → encode_entries es ≡ ok (wire_entries es)
  encode_entries-AreEntries end h = refl
  encode_entries-AreEntries (entry k v es) h =
      rw (encode_object-IsXpc v h.1, encode_entries-AreEntries es h.2)

-- Every object takes its type's four bytes at least.
pub length-wire : (v : Value) → IsXpc v → 4 ≤ length (wire v)
unfolding wire IsXpc le encode_bool encode_int64 encode_uint64 encode_double encode_date encode_data
    encode_string encode_uuid array_bytes dictionary_bytes encode_file_transfer
length-wire null h = omega arith
length-wire unsupported h = absurd h
length-wire _ h = omega arith

pub count_items-le : (vs : Items) → AreXpc vs → count_items vs ≤ length (wire_items vs)
unfolding count_items wire IsXpc
count_items-le nil h = omega arith
count_items-le (cons v vs) h =
    omega (arith, count_items-le vs h.1, length-wire v h.0, length-append (wire v) (wire_items vs))

unfoldable pub append_entries : Entries → Entries → Entries
append_entries seen end = seen
append_entries seen (entry k v es) = append_entries (snoc seen k v) es

append_entries_lem :
    (k : Bytes) (v : Value) (seen es : Entries)
    → append_entries (entry k v seen) es ≡ entry k v (append_entries seen es)
unfolding append_entries snoc
append_entries_lem k v seen end = refl
append_entries_lem k v seen (entry j w es) = append_entries_lem k v (snoc seen j w) es

pub append_entries_end : (es : Entries) → append_entries end es ≡ es
unfolding append_entries snoc
append_entries_end end = refl
append_entries_end (entry k v es) =
    append_entries_lem k v end es ∙ ap (entry k v) (append_entries_end es)

pub count_entries-le : (es : Entries) → AreEntries es → count_entries es ≤ length (wire_entries es)
unfolding count_entries wire IsXpc
count_entries-le end h = omega arith
count_entries-le (entry k v es) h = omega (
  arith,
  count_entries-le es h.2,
  length-wire v h.1,
  length-append (encode_dictionary_key k) (wire v ++ wire_entries es),
  length-append (wire v) (wire_entries es),
)
