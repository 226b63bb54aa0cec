-- ===== src/UsbMux/Tags.antt =====
-- Messages that one side sends and the other reads.
use go_ios.Common.{
  ℕ, ◌+◌, ◌-◌, ◌^◌, ◌≤◌, ◌<◌, ◌≡◌, refl, sym, ap, ◌∙◌, Bool, true, false, List, [], ◌∷◌, ◌++◌,
  append_assoc, append-nil, length, length-append, take-append, drop-append, le→ltb_false, All,
  arith,
}
use go_ios.Common.Bytes.{Bytes, le, un_le}
use go_ios.Common.Result.{ok}
use go_ios.UsbMux.{
  UsbMuxHeader, UsbMuxMessage, UsbMuxConnection, max_message_size, u32, header_bytes, parse_header,
  header_for, decode_payload, decode, read_message, write, write_both, send, encode,
}

pub record IsHeader (h : UsbMuxHeader) : Type 0 where
  pub length_fits : h.message_length < 2 ^ 32
  pub version_fits : h.version < 2 ^ 32
  pub request_fits : h.request < 2 ^ 32
  pub tag_fits : h.tag < 2 ^ 32

length-header_bytes : (h : UsbMuxHeader) → length (header_bytes h) ≡ 16
unfolding header_bytes le
length-header_bytes h = refl

parse_header-header_bytes : (h : UsbMuxHeader) → IsHeader h → parse_header (header_bytes h) ≡ h
unfolding parse_header header_bytes le un_le
parse_header-header_bytes h f = ground arith

-- the wire form of a message
abbrev pub message_bytes : UsbMuxMessage → Bytes
message_bytes m = header_bytes m.header ++ m.payload

pub record IsMessage (m : UsbMuxMessage) : Type 0 where
  pub header_fits : IsHeader m.header
  pub sized : m.header.message_length ≡ 16 + length m.payload
  pub limited : 16 + length m.payload ≤ max_message_size

pub decode-message_bytes :
    (m : UsbMuxMessage) (rest : Bytes)
    → IsMessage m
    → decode (message_bytes m ++ rest) ≡ (rest, ok m)
unfolding decode decode_payload
decode-message_bytes m rest f =
    let h = header_bytes m.header in
    let p = m.payload in
    let lh = length-header_bytes m.header in
    let e : (h ++ p) ++ rest ≡ h ++ (p ++ rest) = append_assoc h p rest in
    let n = m.header.message_length in
    let w = f.sized in
    let l : n - 16 ≡ length p = omega arith in
    let b = f.limited in
    rw
      (
        e,
        decode,
        le→ltb_false (length (h ++ (p ++ rest))) 16 (omega (arith, length-append h (p ++ rest))),
        take-append h (p ++ rest) 16 lh,
        drop-append h (p ++ rest) 16 lh,
        parse_header-header_bytes m.header f.header_fits,
        decode_payload,
        le→ltb_false n 16 (omega arith),
        le→ltb_false max_message_size n (omega arith),
        l,
        le→ltb_false (length (p ++ rest)) (length p) (omega (arith, length-append p rest)),
        drop-append p rest (length p) refl,
        take-append p rest (length p) refl,
      )
      refl

-- reads, one after the other
pub data Receives : UsbMuxConnection → List UsbMuxMessage → UsbMuxConnection → Type 0 where
  no_more : (c : UsbMuxConnection) → Receives c [] c
  receives :
      (c d e : UsbMuxConnection) (m : UsbMuxMessage) (ms : List UsbMuxMessage)
      → read_message c ≡ (d, ok m)
      → Receives d ms e
      → Receives c (m ∷ ms) e

module _ {M : Type 0} (to_plist : M → Bytes) where
  -- the message that is sent under a tag
  abbrev pub message_for : ℕ → M → UsbMuxMessage
  message_for tag m = record { header = header_for (length (to_plist m)) tag; payload = to_plist m }

  -- with the tags that follow `tag`
  abbrev pub tagged : ℕ → List M → List UsbMuxMessage
  tagged tag [] = []
  tagged tag (m ∷ ms) = message_for (u32 (tag + 1)) m ∷ tagged (u32 (tag + 1)) ms

  abbrev pub Fits : M → Type 0
  Fits m = 16 + length (to_plist m) ≤ max_message_size

  message_for-IsMessage : (tag : ℕ) (m : M) → tag < 2 ^ 32 → Fits m → IsMessage (message_for tag m)
  unfolding header_for
  message_for-IsMessage tag m h f = record {
    header_fits = record {
      length_fits = omega arith;
      version_fits = omega arith;
      request_fits = omega arith;
      tag_fits = h;
    };
    sized = omega arith;
    limited = f;
  }

  -- the bytes of messages one behind the other
  wire : List UsbMuxMessage → Bytes
  wire [] = []
  wire (m ∷ ms) = message_bytes m ++ wire ms

  module _ (accepts : ℕ → Bool) (all : (n : ℕ) → accepts n ≡ true) where
    -- sends that report nothing
    pub data Sends : UsbMuxConnection → List M → UsbMuxConnection → Type 0 where
      sent_all : (c : UsbMuxConnection) → Sends c [] c
      sends :
          (c d e : UsbMuxConnection) (m : M) (ms : List M)
          → send accepts to_plist m c ≡ (d, ok tt)
          → Sends d ms e
          → Sends c (m ∷ ms) e

    after : M → UsbMuxConnection → UsbMuxConnection
    after m c = record c {
      tag = u32 (c.tag + 1);
      writes = c.writes + 1 + 1;
      written =
          (c.written ++ header_bytes (header_for (length (to_plist m)) (u32 (c.tag + 1))))
          ++ to_plist m;
    }

    send-after :
        (m : M) (c : UsbMuxConnection)
        → c.released ≡ false
        → send accepts to_plist m c ≡ (after m c, ok tt)
    unfolding send encode write_both write after
    send-after m c open_ = simp (send, open_, encode, write_both, write, all) refl

    Sends-wire :
        (ms : List M) (c : UsbMuxConnection)
        → c.released ≡ false
        → (d : UsbMuxConnection) × Sends c ms d × (d.written ≡ c.written ++ wire (tagged c.tag ms))
    unfolding wire after
    Sends-wire [] c live = (c, sent_all c, sym (append-nil c.written))
    Sends-wire (m ∷ ms) c live =
        let (d, s, w) = Sends-wire ms (after m c) live in
        (d, sends c (after m c) d m ms (send-after m c live) s, w ∙ simp append_assoc)

  Receives-wire :
      (ms : List M) (tag : ℕ) (c : UsbMuxConnection) (rest : Bytes)
      → All Fits ms
      → c.released ≡ false
      → c.incoming ≡ wire (tagged tag ms) ++ rest
      → (d : UsbMuxConnection) × Receives c (tagged tag ms) d × (d.incoming ≡ rest)
  unfolding read_message wire
  Receives-wire [] tag c rest f live e = (c, no_more c, e)
  Receives-wire (m ∷ ms) tag c rest f live e =
      let t = u32 (tag + 1) in
      let x = message_for t m in
      let tail = wire (tagged t ms) ++ rest in
      let front : c.incoming ≡ message_bytes x ++ tail =
        e ∙ append_assoc (message_bytes x) (wire (tagged t ms)) rest in
      let decoded : decode c.incoming ≡ (tail, ok x) =
        ap decode front
        ∙ decode-message_bytes x tail (message_for-IsMessage t m (omega arith) f.0) in
      let c' = record c { incoming = tail } in
      let got : read_message c ≡ (c', ok x) = simp (read_message, live, decoded) refl in
      let (d, r, left) = Receives-wire ms t c' rest f.1 live refl in
      (d, receives c c' d x (tagged t ms) got r, left)

  -- Where each write is taken and no plist is longer than the limit allows, messages that are sent on a
  -- connection are written behind what was written before, and a connection on the other side that
  -- these bytes and more are delivered to reads them, in their order, with the tags that follow the
  -- sender's, modulo 2^32, and leaves what follows.
  pub Receives-Sends :
      (accepts : ℕ → Bool) (all : (n : ℕ) → accepts n ≡ true) (ms : List M)
      (c peer : UsbMuxConnection) (rest : Bytes)
      → All Fits ms
      → c.released ≡ false
      → peer.released ≡ false
      → (bytes : Bytes) × (d : UsbMuxConnection) × Sends accepts all c ms d
        × (d.written ≡ c.written ++ bytes)
        × (e : UsbMuxConnection) × Receives
            (record peer { incoming = bytes ++ rest })
            (tagged c.tag ms)
            e
        × (e.incoming ≡ rest)
  Receives-Sends accepts all ms c peer rest f live peer_live =
      let (d, s, w) = Sends-wire accepts all ms c live in
      let bytes = wire (tagged c.tag ms) in
      let p = record peer { incoming = bytes ++ rest } in
      let (e, r, left) = Receives-wire ms c.tag p rest f peer_live refl in
      (bytes, d, s, w, e, r, left)
