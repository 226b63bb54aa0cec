-- ===== src/Ncm.antt =====
-- ncm/ncm.go: Ethernet frames in the transfer blocks of the network control model. A read takes its
-- bytes from the front of what the device will still deliver. `ethernet_panics` tells for which frames
-- the Ethernet library panics when it is asked for the addresses and the type. The loop over the pointers has fuel.
pub mod Frames
pub mod Ends
use go_ios.Common.{
  ℕ, zero, suc, ◌+◌, ◌-◌, ◌%◌, ◌^◌, Bool, true, false, not, ◌||◌, Option, none, some, List, [], ◌∷◌,
  ◌++◌, length, take, drop, ltb, ◌==◌, if◌then◌else◌,
}
use go_ios.Common.Bytes.{Bytes, le, un_le, zeros}
use go_ios.Common.Buffer.{split?, slice, slice_from}
use go_ios.Common.Result.{Result, ok, err, need, reject, ◌>>=◌, ◌>>◌}

pub record NtbHeader : Type 0 where
  pub signature : ℕ
  pub header_len : ℕ
  pub sequence_num : ℕ
  pub block_len : ℕ
  pub ndp_index : ℕ

pub record DatagramPointerHeader : Type 0 where
  pub signature : ℕ
  pub pointers_len : ℕ
  pub next_ndp_index : ℕ

-- `panicked` is a panic, and `out_of_fuel` is none of the code's.
pub data NcmError : Type 0 where
  short_header wrong_signature short_block short_pointer_header wrong_pointer_signature : NcmError
  panicked out_of_fuel : NcmError

abbrev pub header_signature : ℕ
header_signature = 0x484D434E

abbrev pub datagram_pointer_header_signature : ℕ
datagram_pointer_header_signature = 0x304D434E

abbrev pub ether_header_length : ℕ
ether_header_length = 14

-- 16-bit arithmetic
abbrev pub u16 : ℕ → ℕ
u16 n = n % 2 ^ 16

unfoldable pub parse_ntb_header : Bytes → NtbHeader
parse_ntb_header s = record {
  signature = un_le (take 4 s);
  header_len = un_le (take 2 (drop 4 s));
  sequence_num = un_le (take 2 (drop 6 s));
  block_len = un_le (take 2 (drop 8 s));
  ndp_index = un_le (take 2 (drop 10 s));
}

unfoldable pub parse_pointer_header : Bytes → DatagramPointerHeader
parse_pointer_header s = record {
  signature = un_le (take 4 s);
  pointers_len = un_le (take 2 (drop 4 s));
  next_ndp_index = un_le (take 2 (drop 6 s));
}

-- `binary.LittleEndian.Uint16(s[at:])`
unfoldable pub uint16_at : Bytes → ℕ → Result NcmError ℕ
uint16_at s place = do
  rest ← need panicked (slice_from s place)
  two ← need panicked (split? 2 rest)
  ok (un_le two.0)

module _ (ethernet_panics : Bytes → Bool) where
  -- What the two parsers read of a frame for the log, whatever is logged: the slices go up to 40 bytes
  -- behind the Ethernet header, and may lie behind the frame but not behind the block; the seventh byte
  -- must be the frame's own; and the Ethernet library reads the frame.
  unfoldable pub parse_for_log : ℕ → ℕ → Bytes → Result NcmError (Unit {0})
  parse_for_log block_len index datagram =
      reject
        (ltb (length datagram) ether_header_length
          || ltb block_len (index + ether_header_length + 40)
          || ltb (length datagram) (ether_header_length + 7)
          || ethernet_panics datagram)
        panicked

  module _ (block : Bytes) (pointers_len : ℕ) (pointers : Bytes) where
    unfoldable pub read_pointers : ℕ → ℕ → Result NcmError (List Bytes)
    read_pointers zero pointer = err out_of_fuel
    read_pointers (suc fuel) pointer =
        let rest = read_pointers fuel (pointer + 4) in
        do
          index ← uint16_at pointers pointer
          len ← uint16_at pointers (pointer + 2)
          if len == 0 then ok [] else do
            datagram ← need panicked (slice block index (u16 (index + len)))
            parse_for_log (length block) index datagram
            more ← if ltb (u16 (pointers_len + 2 ^ 16 - 8)) (pointer + 4) then ok [] else rest
            ok (datagram ∷ more)

  -- the frames of a block
  unfoldable pub read_block : Bytes → ℕ → Result NcmError (List Bytes)
  read_block block offset = do
    behind ← need panicked (slice_from block offset)
    header ← need short_pointer_header (split? 8 behind)
    let dh = parse_pointer_header header.0
    reject (not (dh.signature == datagram_pointer_header_signature)) wrong_pointer_signature
    reject (not (dh.next_ndp_index == 0)) panicked
    pointers ← need panicked (slice_from block (u16 (offset + 8)))
    read_pointers block dh.pointers_len pointers (length pointers + 1) 0

  unfoldable pub read_datagrams : Bytes → Result NcmError (List Bytes × Bytes)
  read_datagrams s = do
    header ← need short_header (split? 12 s)
    let h = parse_ntb_header header.0
    reject (not (h.signature == header_signature)) wrong_signature
    reject (ltb h.block_len h.header_len) panicked
    body ← need short_block (split? (h.block_len - h.header_len) header.1)
    frames ← read_block (zeros h.header_len ++ body.0) h.ndp_index
    ok (frames, body.1)

pub record NcmWrapper : Type 0 where
  pub sequence_num : ℕ

unfoldable pub pointer_block : Bytes → Bytes
pointer_block p =
    (le 4 datagram_pointer_header_signature ++ (le 2 16 ++ le 2 0))
    ++ ((le 2 30 ++ le 2 (u16 (length p))) ++ ((le 2 0 ++ le 2 0) ++ ((0 ∷ (0 ∷ [])) ++ p)))

unfoldable pub ntb_header : ℕ → ℕ → Bytes
ntb_header sequence_num block_len =
    le 4 header_signature ++ (le 2 12 ++ (le 2 sequence_num ++ (le 2 (u16 block_len) ++ le 2 12)))

-- the block that is written for a frame
unfoldable pub write : Bytes → NcmWrapper → NcmWrapper × Bytes
write p r = (
  record { sequence_num = u16 (r.sequence_num + 1) },
  ntb_header r.sequence_num (length p + 12 + 8 + 8 + 2) ++ pointer_block p,
)
