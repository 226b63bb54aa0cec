-- ===== src/Ncm/Frames.antt =====
-- A frame that is written is read, if it is long enough for an IPv6 packet.
use go_ios.Common.{
  ℕ, suc, ◌+◌, ◌-◌, ◌^◌, ◌≤◌, ◌<◌, ◌≡◌, refl, ap, Bool, ltb→lt, ltb_false→le, Bool-cases, inl, inr,
  false, some, [], ◌∷◌, ◌++◌, append-nil, append_assoc, length, ltb, ◌==◌, le→ltb_false, lt→ltb,
  if◌then◌else◌, arith,
}
use go_ios.Common.Bytes.{Bytes, le, un_le, zeros, length-le, un_le-le}
use go_ios.Common.Buffer.{split?-append, slice, slice-append, slice_from, slice_from-append}
use go_ios.Common.Result.{Result, ok, err}
use go_ios.Ncm.{
  NcmError, panicked, header_signature, u16, parse_ntb_header, uint16_at, parse_for_log,
  parse_pointer_header, read_pointers, read_block, read_datagrams, NcmWrapper, pointer_block,
  ntb_header, write, datagram_pointer_header_signature,
}

uint16_at-append :
    (a b rest : Bytes) (n v : ℕ)
    → length a ≡ n
    → v < 2 ^ 16
    → b ≡ le 2 v
    → uint16_at (a ++ (b ++ rest)) n ≡ ok v
unfolding uint16_at
uint16_at-append a b rest n v e f g =
    rw
      (
        uint16_at,
        slice_from-append a (b ++ rest) e,
        g,
        split?-append (le 2 v) rest 2 (length-le 2 v),
        un_le-le 2 v f,
      )
      refl

length-ntb_header : (n b : ℕ) → length (ntb_header n b) ≡ 12
unfolding ntb_header le
length-ntb_header n b = refl

parse-ntb_header :
    (n b : ℕ)
    → parse_ntb_header (ntb_header n b) ≡ record {
      signature = header_signature;
      header_len = 12;
      sequence_num = u16 n;
      block_len = u16 b;
      ndp_index = 12;
    }
unfolding parse_ntb_header ntb_header le un_le
parse-ntb_header n b = ground arith

-- the parts of what is written
abbrev dpth : Bytes
dpth = le 4 datagram_pointer_header_signature ++ (le 2 16 ++ le 2 0)

abbrev first_pointer : ℕ → Bytes
first_pointer len = le 2 30 ++ le 2 (u16 len)

abbrev last_pointer : Bytes
last_pointer = le 2 0 ++ le 2 0

abbrev padding : Bytes
padding = 0 ∷ (0 ∷ [])

abbrev block_of : Bytes → Bytes
block_of p = zeros 12 ++ pointer_block p

abbrev pointers_of : Bytes → Bytes
pointers_of p = first_pointer (length p) ++ (last_pointer ++ (padding ++ p))

from_pointers : (p : Bytes) → slice_from (block_of p) 20 ≡ some (pointers_of p)
unfolding pointer_block le
from_pointers p = slice_from-append (zeros 12 ++ dpth) (pointers_of p) {lo = 20} refl

from_frame : (p : Bytes) → slice (block_of p) 30 (30 + length p) ≡ some p
unfolding pointer_block le
from_frame p = rw append-nil at (
    slice-append (zeros 12 ++ (dpth ++ (first_pointer (length p) ++ (last_pointer ++ padding)))) p
      [] {lo = 30} {hi = 30 + length p} refl refl)

module _ (ethernet_panics : Bytes → Bool) (p : Bytes) where
  parse_for_log_long :
      54 ≤ length p
      → ethernet_panics p ≡ false
      → parse_for_log ethernet_panics (length p + 30) 30 p ≡ ok tt
  unfolding parse_for_log
  parse_for_log_long h e =
      rw
        (
          le→ltb_false (length p) 14 (omega arith),
          le→ltb_false (length p + 30) 84 (omega arith),
          le→ltb_false (length p) 21 (omega arith),
          e,
        )
        refl

  parse_for_log_short :
      length p < 54 → parse_for_log ethernet_panics (length p + 30) 30 p ≡ err panicked
  unfolding parse_for_log
  parse_for_log_short h =
      let far = lt→ltb (length p + 30) 84 (omega arith) in
      elim (Bool-cases (ltb (length p) 14)) [ inl e ↦ rw (e) refl | inr e ↦ rw (e, far) refl ]

parsed_dpth : parse_pointer_header dpth ≡ record {
  signature = datagram_pointer_header_signature;
  pointers_len = 16;
  next_ndp_index = 0;
}
unfolding parse_pointer_header le un_le
parsed_dpth = refl

-- An Ethernet header of fourteen bytes and two tags has 22 bytes, and a frame that has them is read.
abbrev pub ReadsHeaders : (Bytes → Bool) → Type 0
ReadsHeaders ethernet_panics = (d : Bytes) → 22 ≤ length d → ethernet_panics d ≡ false

module _ (ethernet_panics : Bytes → Bool) (reads : ReadsHeaders ethernet_panics) (p : Bytes)
    (fits : length p + 30 < 2 ^ 16) where
  first_index : uint16_at (pointers_of p) 0 ≡ ok 30
  unfolding le
  first_index = uint16_at-append [] (le 2 30) _ 0 30 refl (omega arith) refl

  first_len : uint16_at (pointers_of p) 2 ≡ ok (length p)
  unfolding le
  first_len =
      let small : u16 (length p) ≡ length p = omega arith in
      uint16_at-append (le 2 30) (le 2 (u16 (length p))) _ 2 (length p) refl (omega arith)
        (ap (le 2) small)

  last_index : uint16_at (pointers_of p) 4 ≡ ok 0
  unfolding le
  last_index = uint16_at-append (first_pointer (length p)) (le 2 0) _ 4 0 refl (omega arith) refl

  last_len : uint16_at (pointers_of p) 6 ≡ ok 0
  unfolding le
  last_len =
      uint16_at-append (first_pointer (length p) ++ le 2 0) (le 2 0) _ 6 0 refl (omega arith) refl

  length-block_of : length (block_of p) ≡ length p + 30
  unfolding pointer_block le
  length-block_of = omega arith

  length-pointer_block : length (pointer_block p) ≡ length p + 18
  unfolding pointer_block le
  length-pointer_block = omega arith

  length-pointers_of : length (pointers_of p) ≡ length p + 10
  unfolding le
  length-pointers_of = omega arith

  -- what becomes of the frame
  abbrev outcome : {A : Type 0} → A → A → Result NcmError A
  outcome nothing frame =
      if length p == 0 then ok nothing else if ltb (length p) 54 then err panicked else ok frame

  -- both rounds of the loop
  read_pointers-block_of :
      (fuel : ℕ)
      → read_pointers ethernet_panics (block_of p) 16 (pointers_of p) (suc (suc fuel)) 0
        ≡ outcome [] (p ∷ [])
  unfolding read_pointers
  read_pointers-block_of fuel =
      let end : u16 (30 + length p) ≡ 30 + length p = omega arith in
      elim (Bool-cases (length p == 0)) [
        | inl z ↦ rw (read_pointers, first_index, first_len, z) refl
        | inr z ↦ elim (Bool-cases (ltb (length p) 54)) [
          | inl short ↦
              rw
                (
                  read_pointers,
                  first_index,
                  first_len,
                  z,
                  end,
                  from_frame p,
                  length-block_of,
                  parse_for_log_short ethernet_panics p (ltb→lt (length p) 54 short),
                  short,
                )
                refl
          | inr long ↦
              rw
                (
                  read_pointers,
                  first_index,
                  first_len,
                  z,
                  end,
                  from_frame p,
                  length-block_of,
                  parse_for_log_long ethernet_panics p (ltb_false→le (length p) 54 long)
                      (reads p (let h = ltb_false→le (length p) 54 long in omega arith)),
                  last_index,
                  last_len,
                  long,
                )
                refl
        ]
      ]

  read_block-block_of : read_block ethernet_panics (block_of p) 12 ≡ outcome [] (p ∷ [])
  unfolding read_block pointer_block le
  read_block-block_of =
      let behind : slice_from (block_of p) 12 ≡ some (dpth ++ pointers_of p) =
        slice_from-append (zeros 12) (dpth ++ pointers_of p) {lo = 12} refl in
      let fuel : length (pointers_of p) + 1 ≡ suc (suc (length p + 9)) =
        omega (arith, length-pointers_of) in
      rw
        (
          read_block,
          behind,
          split?-append dpth (pointers_of p) 8 refl,
          parsed_dpth,
          from_pointers p,
          fuel,
        )
        (read_pointers-block_of (length p + 9))

module _ (ethernet_panics : Bytes → Bool) (reads : ReadsHeaders ethernet_panics) (p rest : Bytes)
    (r : NcmWrapper) (fits : length p + 30 < 2 ^ 16) where
  -- Where the Ethernet library takes every frame of 22 bytes or more, and for a block that was
  -- written for a frame of less than 65506 bytes, in front of any bytes: an empty
  -- frame is read as no frame, one of 54 bytes or more is read as it was written, and what follows the
  -- block is left; one of 1 to 53 bytes makes the read panic, which takes each frame apart as an IPv6
  -- packet for its log.
  pub read_datagrams-write : read_datagrams ethernet_panics ((write p r).1 ++ rest) ≡ (
      if length p == 0
      then ok ([], rest)
      else if ltb (length p) 54
      then err panicked
      else ok (p ∷ [], rest))
  unfolding read_datagrams write
  read_datagrams-write =
      let b = length p + 12 + 8 + 8 + 2 in
      let head = ntb_header r.sequence_num b in
      let front : (head ++ pointer_block p) ++ rest ≡ head ++ (pointer_block p ++ rest) =
        append_assoc head (pointer_block p) rest in
      let top =
        split?-append head (pointer_block p ++ rest) 12 (length-ntb_header r.sequence_num b) in
      let parsed = parse-ntb_header r.sequence_num b in
      let whole : u16 b ≡ length p + 30 = omega arith in
      let body =
        split?-append (pointer_block p) rest (length p + 30 - 12)
          (omega (arith, length-pointer_block ethernet_panics reads p fits)) in
      let read = read_block-block_of ethernet_panics reads p fits in
      let upto : ltb (length p + 30) 12 ≡ false = le→ltb_false (length p + 30) 12 (omega arith) in
      elim (Bool-cases (length p == 0)) [
        | inl z ↦ rw (front, read_datagrams, top, parsed, whole, upto, body, read, z) refl
        | inr z ↦ elim (Bool-cases (ltb (length p) 54)) [
          | inl short ↦
              rw (front, read_datagrams, top, parsed, whole, upto, body, read, z, short) refl
          | inr long ↦
              rw (front, read_datagrams, top, parsed, whole, upto, body, read, z, long) refl
        ]
      ]
