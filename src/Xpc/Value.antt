-- ===== src/Xpc/Value.antt =====
-- The objects that ios/xpc/encoding.go encodes and decodes, and the numbers of their types.
-- An `int64`, a `float64` and a date in nanoseconds are their 64-bit patterns. A Go map is the list
-- of its entries in the order in which an iteration meets them.
use go_ios.Common.{
  ℕ, suc, ◌+◌, ◌-◌, ◌*◌, ◌/◌, Bool, true, false, ◌&&◌, Option, none, some, [], ◌∷◌, ◌==◌,
  if◌then◌else◌,
}
use go_ios.Common.Bytes.{Bytes}

abbrev pub null_type : ℕ
null_type = 0x1000

abbrev pub bool_type : ℕ
bool_type = 0x2000

abbrev pub int64_type : ℕ
int64_type = 0x3000

abbrev pub uint64_type : ℕ
uint64_type = 0x4000

abbrev pub double_type : ℕ
double_type = 0x5000

abbrev pub date_type : ℕ
date_type = 0x7000

abbrev pub data_type : ℕ
data_type = 0x8000

abbrev pub string_type : ℕ
string_type = 0x9000

abbrev pub uuid_type : ℕ
uuid_type = 0xa000

abbrev pub array_type : ℕ
array_type = 0xe000

abbrev pub dictionary_type : ℕ
dictionary_type = 0xf000

abbrev pub file_transfer_type : ℕ
file_transfer_type = 0x1a000

-- `unsupported` is a value of any other Go type.
mutual
  pub data Value : Type 0 where
    null unsupported : Value
    bool : Bool → Value
    int64 uint64 double date : ℕ → Value
    binary text uuid : Bytes → Value
    array : Items → Value
    dictionary : Entries → Value
    file_transfer : ℕ → ℕ → Value

  pub data Items : Type 0 where
    nil : Items
    cons : Value → Items → Items

  pub data Entries : Type 0 where
    end : Entries
    entry : Bytes → Value → Entries → Entries

unfoldable pub count_items : Items → ℕ
count_items nil = 0
count_items (cons v vs) = suc (count_items vs)

unfoldable pub count_entries : Entries → ℕ
count_entries end = 0
count_entries (entry k v es) = suc (count_entries es)

-- The bytes from `l` up to the next multiple of 4; exact in a `float64` for every length.
unfoldable pub calc_padding : ℕ → ℕ
calc_padding l = (l + 3) / 4 * 4 - l

unfoldable pub bytes_eq : Bytes → Bytes → Bool
bytes_eq [] [] = true
bytes_eq (x ∷ xs) (y ∷ ys) = x == y && bytes_eq xs ys
bytes_eq _ _ = false

-- `dict[k] = v`
unfoldable pub insert_entry : Bytes → Value → Entries → Entries
insert_entry k v end = entry k v end
insert_entry k v (entry j w es) =
    if bytes_eq j k then entry j v es else entry j w (insert_entry k v es)

-- `dict[k]`
unfoldable pub lookup_entry : Bytes → Entries → Option Value
lookup_entry k end = none
lookup_entry k (entry j w es) = if bytes_eq j k then some w else lookup_entry k es
