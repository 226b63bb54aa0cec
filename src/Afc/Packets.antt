-- ===== src/Afc/Packets.antt =====
-- The packets that a client writes and reads.
use go_ios.Common.{
  ℕ, ◌+◌, ◌-◌, ◌^◌, ◌<◌, ◌≡◌, ◌≢◌, refl, ap, sym, ◌∙◌, Bool, true, false, [], ◌∷◌, ◌++◌, append-nil,
  append_assoc, length, length-append, take, drop, take-append, drop-append, ltb, leb, ne→==_false,
  le→ltb_false, if◌then◌else◌, arith,
}
use go_ios.Common.Bytes.{Bytes, le, un_le, un_le-le, IsU64}
use go_ios.Common.Result.{ok, err}
use go_ios.Afc.{
  Header, Packet, Client, short_read, magic, header_size, status, header_bytes, parse_header,
  read_full, check_status, read_packet, write, write_slice, next_number, send_packet, request,
}

-- the packet with these parts, and its bytes
abbrev pub packet : ℕ → ℕ → Bytes → Bytes → Packet
packet number operation header_payload payload = record {
  header = record {
    packet_magic = magic;
    entire_len = header_size + length header_payload + length payload;
    this_len = header_size + length header_payload;
    packet_num = number;
    operation = operation;
  };
  header_payload = header_payload;
  payload = payload;
}

abbrev pub packet_bytes : Packet → Bytes
packet_bytes p = header_bytes p.header ++ (p.header_payload ++ p.payload)

-- Its numbers fit their fields, and its lengths a Go `int`.
pub record IsPacket (number operation : ℕ) (header_payload payload : Bytes) : Type 0 where
  pub number_fits : IsU64 number
  pub operation_fits : IsU64 operation
  pub size_fits : header_size + length header_payload + length payload < 2 ^ 63

pub parse_header-header_bytes :
    (m e t n o : ℕ)
    → IsU64 m
    → IsU64 e
    → IsU64 t
    → IsU64 n
    → IsU64 o
    → parse_header (
        header_bytes (record {
          packet_magic = m;
          entire_len = e;
          this_len = t;
          packet_num = n;
          operation = o;
        }))
      ≡ record { packet_magic = m; entire_len = e; this_len = t; packet_num = n; operation = o }
unfolding parse_header header_bytes le un_le
parse_header-header_bytes m e t n o hm he ht hn ho = λ k. record {
  packet_magic = un_le-le 8 m hm k;
  entire_len = un_le-le 8 e he k;
  this_len = un_le-le 8 t ht k;
  packet_num = un_le-le 8 n hn k;
  operation = un_le-le 8 o ho k;
}

length-header_bytes : (h : Header) → length (header_bytes h) ≡ 40
unfolding header_bytes le
length-header_bytes h = refl

read_full-append :
    (n : ℕ) (xs ys : Bytes) (c : Client)
    → length xs ≡ n
    → c.incoming ≡ xs ++ ys
    → read_full n c ≡ (record c { incoming = ys }, ok xs)
unfolding read_full
read_full-append n xs ys c e i =
    ap
      (λ s.
        if ltb (length s) n
        then (record c { incoming = [] }, err short_read)
        else (record c { incoming = drop n s }, ok (take n s)))
      i
    ∙ rw (
      le→ltb_false (length (xs ++ ys)) n (omega (arith, length-append xs ys)),
      take-append xs ys n e,
      drop-append xs ys n e,
    )

module _ (number operation : ℕ) (header_payload payload : Bytes)
    (fits : IsPacket number operation header_payload payload) where
  -- A client that a packet is delivered to reads it and leaves what is behind it; what it makes of
  -- the packet is what `check_status` says.
  pub read_packet-packet_bytes :
      (rest : Bytes) (c : Client)
      → c.incoming ≡ packet_bytes (packet number operation header_payload payload) ++ rest
      → read_packet c
        ≡ check_status
            (packet number operation header_payload payload)
            (record c { incoming = rest })
  unfolding read_packet
  read_packet-packet_bytes rest c i =
      let h = (packet number operation header_payload payload).header in
      let small : header_size + length header_payload + length payload < 2 ^ 63 = fits.size_fits in
      let e1 =
        read_full-append 40 (header_bytes h) (header_payload ++ (payload ++ rest)) c
          (length-header_bytes h)
          (i
            ∙ append_assoc (header_bytes h) (header_payload ++ payload) rest
            ∙ ap (λ s. header_bytes h ++ s) (append_assoc header_payload payload rest)) in
      let e2 =
        parse_header-header_bytes magic h.entire_len h.this_len number operation (omega arith)
          (omega arith) (omega arith) fits.number_fits fits.operation_fits in
      let n1 : header_size + length header_payload - 40 ≡ length header_payload = omega arith in
      let n2 : header_size
            + length header_payload
            + length payload
            - (header_size + length header_payload)
          ≡ length payload =
        omega arith in
      let t1 : ltb (header_size + length header_payload) 40 ≡ false = ground arith in
      let t2 : ltb (header_size + length header_payload + length payload)
            (header_size + length header_payload)
          ≡ false =
        ground arith in
      let t3 : leb (2 ^ 63) (length header_payload) ≡ false = ground arith in
      let t4 : leb (2 ^ 63) (length payload) ≡ false = ground arith in
      let c1 : Client = record c { incoming = header_payload ++ (payload ++ rest) } in
      let e3 =
        read_full-append (length header_payload) header_payload (payload ++ rest) c1 refl refl in
      let e4 =
        read_full-append (length payload) payload rest (record c { incoming = payload ++ rest })
          refl refl in
      rw (e1, e2, t1, t2, n1, t3, n2, t4, e3, e4)

  pub check_status-packet :
      (c : Client)
      → operation ≢ status
      → check_status (packet number operation header_payload payload) c
        ≡ (c, ok (packet number operation header_payload payload))
  unfolding check_status
  check_status-packet c other = rw (ne→==_false operation status other)

module _ (accepts : ℕ → Bool) (all : (n : ℕ) → accepts n ≡ true) where
  write_slice-accepted :
      (s : Bytes) (c : Client)
      → (w : ℕ) × (write_slice accepts s c
          ≡ (record c { writes = w; written = c.written ++ s }, ok tt))
  unfolding write_slice write
  write_slice-accepted [] c =
      (c.writes, ap (λ s. (record c { written = s }, ok tt)) (sym (append-nil c.written)))
  write_slice-accepted (b ∷ bs) c = (c.writes + 1, rw (all c.writes))

  pub send_packet-accepted :
      (operation : ℕ) (header_payload payload : Bytes) (c : Client)
      → (w : ℕ) × (send_packet accepts operation header_payload payload c ≡ (
        record c {
          number = c.number + 1;
          writes = w;
          written =
              c.written ++ packet_bytes (packet (c.number + 1) operation header_payload payload);
        },
        ok tt,
      ))
  unfolding send_packet next_number write
  send_packet-accepted operation header_payload payload c =
      let h = header_bytes (packet (c.number + 1) operation header_payload payload).header in
      let c1 : Client = record c {
        number = c.number + 1;
        writes = c.writes + 1;
        written = c.written ++ h;
      } in
      let (v, e1) = write_slice-accepted header_payload c1 in
      let c2 : Client = record c1 { writes = v; written = (c.written ++ h) ++ header_payload } in
      let (w, e2) = write_slice-accepted payload c2 in
      let joined : ((c.written ++ h) ++ header_payload) ++ payload
          ≡ c.written ++ (h ++ (header_payload ++ payload)) =
        append_assoc (c.written ++ h) header_payload payload
        ∙ append_assoc c.written h (header_payload ++ payload) in
      (w, rw (all c.writes, e1, e2, joined))

  -- Where the connection takes all that is written, `sendPacket` writes one packet with the next
  -- number, and a peer that these bytes are delivered to reads this packet, with its number,
  -- operation and both payloads, and leaves what is behind it.
  pub read_packet-send_packet :
      (operation : ℕ) (header_payload payload rest : Bytes) (c peer : Client)
      → IsPacket (c.number + 1) operation header_payload payload
      → operation ≢ status
      → (c' : Client) × (bytes : Bytes) × (send_packet accepts operation header_payload payload c
          ≡ (c', ok tt))
        × (c'.number ≡ c.number + 1)
        × (c'.written ≡ c.written ++ bytes)
        × (read_packet (record peer { incoming = bytes ++ rest }) ≡ (
          record peer { incoming = rest },
          ok (packet (c.number + 1) operation header_payload payload),
        ))
  read_packet-send_packet operation header_payload payload rest c peer fits other =
      let p = packet (c.number + 1) operation header_payload payload in
      let (w, sent) = send_packet-accepted operation header_payload payload c in
      (
        record c { number = c.number + 1; writes = w; written = c.written ++ packet_bytes p },
        packet_bytes p,
        sent,
        refl,
        refl,
        read_packet-packet_bytes (c.number + 1) operation header_payload payload fits rest
              (record peer { incoming = packet_bytes p ++ rest }) refl
            ∙ check_status-packet (c.number + 1) operation header_payload payload fits
                (record peer { incoming = rest }) other,
      )

  -- A request whose reply is the packet at the front of what the device delivers.
  pub request-packet_bytes :
      (operation : ℕ) (header_payload payload : Bytes) (n o : ℕ) (hp pl rest : Bytes) (c : Client)
      → IsPacket n o hp pl
      → c.incoming ≡ packet_bytes (packet n o hp pl) ++ rest
      → (w : ℕ) × (request accepts operation header_payload payload c
          ≡ check_status (packet n o hp pl) (record c {
            number = c.number + 1;
            writes = w;
            written =
                c.written ++ packet_bytes (packet (c.number + 1) operation header_payload payload);
            incoming = rest;
          }))
  unfolding request
  request-packet_bytes operation header_payload payload n o hp pl rest c fits i =
      let (w, sent) = send_packet-accepted operation header_payload payload c in
      (w, rw (sent) (read_packet-packet_bytes n o hp pl fits rest _ i))
