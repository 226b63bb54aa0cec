-- ===== src/Afc.antt =====
-- ios/afc/client.go, with the constants of afc.go and the names that fsync.go refuses: the packets of
-- the file service, and the operations of a client. The client has the bytes that it wrote and those
-- that the device will still deliver; `accepts n` tells whether the connection takes the write number
-- n. An operation gives the client as it leaves it, and its result.
pub mod Packets
pub mod Names
pub mod Replies
pub mod Listing
use go_ios.Common.{
  ℕ, zero, suc, ◌+◌, ◌-◌, ◌%◌, ◌^◌, Bool, true, false, not, ◌&&◌, ◌||◌, Option, none, some, List,
  [], ◌∷◌, ◌++◌, length, take, drop, ltb, leb, ◌==◌, if◌then◌else◌,
}
use go_ios.Common.Bytes.{Bytes, le, un_le}
use go_ios.Common.Text.{codes}
use go_ios.Common.Maps.{bytes_same}
use go_ios.Common.Result.{Result, ok, err}

abbrev pub magic : ℕ
magic = 0x4141504c36414643

abbrev pub header_size : ℕ
header_size = 40

-- the operations
abbrev pub status : ℕ
status = 0x01

abbrev pub read_dir : ℕ
read_dir = 0x03

abbrev pub remove_path : ℕ
remove_path = 0x08

abbrev pub make_dir : ℕ
make_dir = 0x09

abbrev pub file_open : ℕ
file_open = 0x0D

abbrev pub file_read : ℕ
file_read = 0x0F

abbrev pub file_write : ℕ
file_write = 0x10

abbrev pub file_close : ℕ
file_close = 0x14

abbrev pub remove_path_and_contents : ℕ
remove_path_and_contents = 0x22

abbrev pub err_success : ℕ
err_success = 0

pub record Header : Type 0 where
  pub packet_magic : ℕ
  pub entire_len : ℕ
  pub this_len : ℕ
  pub packet_num : ℕ
  pub operation : ℕ

pub record Packet : Type 0 where
  pub header : Header
  pub header_payload : Bytes
  pub payload : Bytes

pub record Client : Type 0 where
  pub number : ℕ
  pub writes : ℕ
  pub written : Bytes
  pub incoming : Bytes

-- `device_code` is an `afcError`; `panicked` is a panic.
pub data AfcError : Type 0 where
  write_failed short_read this_len_too_small entire_len_too_small status_too_short : AfcError
  end_of_file panicked : AfcError
  device_code : ℕ → AfcError

abbrev pub Operation : Type 0 → Type 0
Operation A = Client → Client × Result AfcError A

abbrev pub return : {A : Type 0} → A → Operation A
return a c = (c, ok a)

abbrev pub fail : {A : Type 0} → AfcError → Operation A
fail e c = (c, err e)

abbrev pub then_with :
    {A B : Type 0} → Client × Result AfcError A → (A → Operation B) → Client × Result AfcError B
then_with (c, ok a) f = f a c
then_with (c, err e) f = (c, err e)

infixl 5 ◌>>=◌ ◌>>◌
abbrev pub ◌>>=◌ : {A B : Type 0} → Operation A → (A → Operation B) → Operation B
◌>>=◌ m f c = then_with (m c) f

abbrev pub ◌>>◌ : {B : Type 0} → Operation (Unit {0}) → Operation B → Operation B
m >> k = m >>= λ _. k

-- `if bad { return err }`
abbrev pub refuse : Bool → AfcError → Operation (Unit {0})
refuse true e = fail e
refuse false e = return tt

unfoldable pub header_bytes : Header → Bytes
header_bytes h =
    le 8 h.packet_magic
    ++ (le 8 h.entire_len ++ (le 8 h.this_len ++ (le 8 h.packet_num ++ le 8 h.operation)))

unfoldable pub parse_header : Bytes → Header
parse_header s = record {
  packet_magic = un_le (take 8 s);
  entire_len = un_le (take 8 (drop 8 s));
  this_len = un_le (take 8 (drop 16 s));
  packet_num = un_le (take 8 (drop 24 s));
  operation = un_le (take 8 (drop 32 s));
}

-- `io.ReadFull` into `n` bytes, which takes all there is where it comes short
unfoldable pub read_full : ℕ → Operation Bytes
read_full n c =
    if ltb (length c.incoming) n
    then (record c { incoming = [] }, err short_read)
    else (record c { incoming = drop n c.incoming }, ok (take n c.incoming))

-- `make([]byte, n)`, which panics where `n` is no `int`
abbrev pub make : ℕ → Operation (Unit {0})
make n = refuse (leb (2 ^ 63) n) panicked

-- the reply's error, if it is a status
unfoldable pub check_status : Packet → Operation Packet
check_status p =
    if not (p.header.operation == status)
    then return p
    else if ltb (length p.header_payload) 8
    then fail status_too_short
    else if un_le (take 8 p.header_payload) == err_success
    then return p
    else fail (device_code (un_le (take 8 p.header_payload)))

unfoldable pub read_packet : Operation Packet
read_packet = do
  s ← read_full header_size
  let h = parse_header s
  refuse (ltb h.this_len header_size) this_len_too_small
  refuse (ltb h.entire_len h.this_len) entire_len_too_small
  make (h.this_len - header_size)
  make (h.entire_len - h.this_len)
  header_payload ← read_full (h.this_len - header_size)
  payload ← read_full (h.entire_len - h.this_len)
  check_status (record { header = h; header_payload = header_payload; payload = payload })

-- a byte of the part that the rest begins with
abbrev pub push : ℕ → List Bytes → List Bytes
push c [] = (c ∷ []) ∷ []
push c (p ∷ ps) = (c ∷ p) ∷ ps

-- the parts of a text between its separators
unfoldable pub parts : ℕ → Bytes → List Bytes
parts sep [] = [] ∷ []
parts sep (c ∷ s) = let rest = parts sep s in if c == sep then [] ∷ rest else push c rest

abbrev pub is_empty : Bytes → Bool
is_empty [] = true
is_empty (_ ∷ _) = false

-- `strings.FieldsFunc` at the slashes
unfoldable pub fields : List Bytes → List Bytes
fields [] = []
fields (p ∷ ps) = let rest = fields ps in if is_empty p then rest else p ∷ rest

abbrev pub any_same : Bytes → List Bytes → Bool
any_same s [] = false
any_same s (x ∷ xs) = bytes_same x s || any_same s xs

unfoldable pub is_abs : Bytes → Bool
is_abs [] = false
is_abs (c ∷ s) = c == b'/'

unfoldable pub dot_dot : Bytes
dot_dot = codes ".."

-- a name that must not be joined to a path of the host
unfoldable pub unsafe_entry_name : Bytes → Bool
unsafe_entry_name [] = true
unsafe_entry_name (c ∷ s) = is_abs (c ∷ s) || any_same dot_dot (fields (parts b'/' (c ∷ s)))

-- What `ReadString` gives until it fails: the parts that a zero byte ends.
unfoldable pub but_last : List Bytes → List Bytes
but_last [] = []
but_last (p ∷ []) = []
but_last (p ∷ (q ∷ ps)) = p ∷ but_last (q ∷ ps)

unfoldable pub is_listed : Bytes → Bool
is_listed entry = not (
    is_empty entry
    || bytes_same entry (codes ".")
    || bytes_same entry dot_dot
    || unsafe_entry_name entry)

unfoldable pub keep_listed : List Bytes → List Bytes
keep_listed [] = []
keep_listed (e ∷ es) = let rest = keep_listed es in if is_listed e then e ∷ rest else rest

-- the names in the payload of a reply
unfoldable pub entries : Bytes → List Bytes
unfolding parts but_last
entries payload = keep_listed (but_last (parts 0 payload))

module _ (accepts : ℕ → Bool) where
  unfoldable pub write : Bytes → Operation (Unit {0})
  write bytes c =
      let next = record c { writes = c.writes + 1 } in
      if accepts c.writes
      then (record next { written = c.written ++ bytes }, ok tt)
      else (next, err write_failed)

  -- A slice is written where it has bytes.
  unfoldable pub write_slice : Bytes → Operation (Unit {0})
  write_slice [] c = (c, ok tt)
  write_slice (b ∷ bs) c = write (b ∷ bs) c

  unfoldable pub next_number : Operation ℕ
  next_number c = (record c { number = c.number + 1 }, ok (c.number + 1))

  unfoldable pub send_packet : ℕ → Bytes → Bytes → Operation (Unit {0})
  send_packet operation header_payload payload = do
    n ← next_number
    let this_len = header_size + length header_payload
    write (
        header_bytes (record {
          packet_magic = magic;
          entire_len = this_len + length payload;
          this_len = this_len;
          packet_num = n;
          operation = operation;
        }))
    write_slice header_payload
    write_slice payload

  -- a request, and the reply to it
  unfoldable pub request : ℕ → Bytes → Bytes → Operation Packet
  request operation header_payload payload = do
    send_packet operation header_payload payload
    read_packet

  unfoldable pub list : Bytes → Operation (List Bytes)
  list p = do pack ← request read_dir p []; return (entries pack.payload)

  -- The handle is read from eight bytes, and a shorter reply is a panic.
  unfoldable pub open_file : Bytes → ℕ → Operation ℕ
  open_file p mode = do
    resp ← request file_open (le 8 mode ++ (p ++ (0 ∷ []))) []
    refuse (ltb (length resp.header_payload) 8) panicked
    return (un_le (take 8 resp.header_payload))

  unfoldable pub mk_dir : Bytes → Operation (Unit {0})
  mk_dir p = do pack ← request make_dir (p ++ (0 ∷ [])) []; return tt

  unfoldable pub remove : Bytes → Bool → Operation (Unit {0})
  remove p recursive = do
    pack ← request (if recursive then remove_path_and_contents else remove_path) p []
    return tt

  -- `File.Read` into a buffer of `n` bytes: the bytes that it copies there
  unfoldable pub read_file : ℕ → ℕ → Operation Bytes
  read_file handle zero = return []
  read_file handle (suc n) = do
    resp ← request file_read (le 8 handle ++ le 8 (suc n)) []
    refuse (is_empty resp.payload) end_of_file
    return (take (suc n) resp.payload)

  unfoldable pub write_file : ℕ → Bytes → Operation ℕ
  write_file handle p = do pack ← request file_write (le 8 handle) p; return (length p)

  unfoldable pub close_file : ℕ → Operation (Unit {0})
  close_file handle = do pack ← request file_close (le 8 handle) []; return tt
