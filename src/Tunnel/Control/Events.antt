-- ===== src/Tunnel/Control/Events.antt =====
-- An event that one side writes and the other reads, and a reply in the encrypted stream.
use go_ios.Common.{
  ℕ, ◌+◌, ◌%◌, ◌^◌, ◌≤◌, ◌≡◌, refl, ap, Bool, true, Option, some, List, ◌∷◌, length, le→ltb_false,
}
use go_ios.Common.Bytes.{Bytes, le}
use go_ios.Common.Buffer.{overlay}
use go_ios.Common.Text.{codes}
use go_ios.Common.Result.{ok}
use go_ios.Xpc.Value.{binary, Entries, end, entry, lookup_entry, bytes_eq}
use go_ios.Tunnel.Control.{
  PairingData, encode_pairing_data, decode_pairing_data, get_child_map, ControlChannel, envelope,
  in_plain, single, read, read_event, event_of, write, write_event, CipherStream, update_nonce,
  cipher_write, cipher_read, unmarshalled,
}

-- in its envelope
abbrev pub event_envelope : ℕ → PairingData → Entries
event_envelope n p = envelope n (in_plain (codes "event") (encode_pairing_data p))

read_event-event_envelope :
    (n : ℕ) (p q : PairingData) (c : ControlChannel) (rest : List Entries)
    → c.incoming ≡ event_envelope n p ∷ rest
    → read_event q c ≡ (record c { incoming = rest }, ok p)
unfolding read_event read event_of envelope get_child_map lookup_entry bytes_eq encode_pairing_data
    decode_pairing_data
read_event-event_envelope n p q c rest e = simp (read_event, read, e) refl

module _ (accepts : ℕ → Bool) (all : (n : ℕ) → accepts n ≡ true) where
  write-sent :
      (m : Entries) (c : ControlChannel)
      → write accepts m c ≡ (
        record c {
          seq_nr = (c.seq_nr + 1) % 2 ^ 64;
          sends = c.sends + 1;
          sent = envelope c.seq_nr m ∷ c.sent;
        },
        ok tt,
      )
  unfolding write
  write-sent m c = rw (write, all) refl

  -- Where the connection takes what is sent, an event with pairing data is sent as one map, and a peer
  -- that gets this map next reads the event from it with all four fields, whatever it had in them
  -- before; the sequence number goes up by one, modulo 2^64.
  pub read_event-write_event :
      (p q : PairingData) (c peer : ControlChannel) (rest : List Entries)
      → (c' : ControlChannel) × (m : Entries) × (write_event accepts (encode_pairing_data p) c
          ≡ (c', ok tt))
        × (c'.sent ≡ m ∷ c.sent)
        × (c'.seq_nr ≡ (c.seq_nr + 1) % 2 ^ 64)
        × (read_event q (record peer { incoming = m ∷ rest })
            ≡ (record peer { incoming = rest }, ok p))
  unfolding write_event
  read_event-write_event p q c peer rest =
      let m = event_envelope c.seq_nr p in
      (
        _,
        m,
        write-sent (in_plain (codes "event") (encode_pairing_data p)) c,
        refl,
        refl,
        read_event-event_envelope c.seq_nr p q (record peer { incoming = m ∷ rest }) rest refl,
      )

-- sealed bytes in their envelope
abbrev pub sealed_envelope : ℕ → Bytes → Entries
sealed_envelope n b =
    envelope n (single (codes "streamEncrypted") (entry (codes "_0") (binary b) end))

module _ (unmarshal : Bytes → Option Entries) (server_open : Bytes → Bytes → Option Bytes) where
  cipher_read-sealed_envelope :
      (k : ℕ) (s : CipherStream) (b y : Bytes) (r : Entries) (rest : List Entries)
      → s.channel.incoming ≡ sealed_envelope k b ∷ rest
      → server_open s.nonce b ≡ some y
      → unmarshal y ≡ some r
      → cipher_read unmarshal server_open s
        ≡ (record s { channel = record s.channel { incoming = rest } }, ok r)
  unfolding cipher_read read envelope get_child_map lookup_entry bytes_eq
  cipher_read-sealed_envelope k s b y r rest e o u =
      let c = record s { channel = record s.channel { incoming = rest } } in
      simp (cipher_read, read, e, o) (ap (λ x. (c, unmarshalled x)) u)

-- the counter, in front of what was there
abbrev pub nonce_for : CipherStream → Bytes
nonce_for s = overlay (le 8 s.sequence) s.nonce

module _ (accepts : ℕ → Bool) (all : (n : ℕ) → accepts n ≡ true) (marshal : Entries → Option Bytes)
    (unmarshal : Bytes → Option Entries) (client_seal : Bytes → Bytes → Bytes)
    (server_open : Bytes → Bytes → Option Bytes) where
  -- Where the connection takes what is sent, the nonce has room for the counter and the request can be
  -- marshalled: the request is sent sealed with the nonce of the counter, in one envelope, and the
  -- counter goes up by one; and where the device then answers with bytes that open, with the same
  -- nonce, to a reply that is unmarshalled, reading gives this reply and leaves what follows it.
  pub cipher_read-cipher_write :
      (s : CipherStream) (p r : Entries) (x y b : Bytes) (k : ℕ) (rest : List Entries)
      → 8 ≤ length s.nonce
      → marshal p ≡ some x
      → server_open (nonce_for s) b ≡ some y
      → unmarshal y ≡ some r
      → (s' : CipherStream) × (cipher_write accepts marshal client_seal p s ≡ (s', ok tt))
        × (s'.channel.sent
            ≡ sealed_envelope s.channel.seq_nr (client_seal (nonce_for s) x) ∷ s.channel.sent)
        × (s'.used ≡ nonce_for s ∷ s.used)
        × (s'.sequence ≡ (s.sequence + 1) % 2 ^ 64)
        × (cipher_read unmarshal server_open
              (record s' { channel = record s'.channel { incoming = sealed_envelope k b ∷ rest } })
            ≡ (record s' { channel = record s'.channel { incoming = rest } }, ok r))
  unfolding cipher_write update_nonce
  cipher_read-cipher_write s p r x y b k rest room m o u =
      let c = s.channel in
      let c' = record c {
        seq_nr = (c.seq_nr + 1) % 2 ^ 64;
        sends = c.sends + 1;
        sent = sealed_envelope c.seq_nr (client_seal (nonce_for s) x) ∷ c.sent;
      } in
      let s' = record s {
        channel = c';
        nonce = nonce_for s;
        sequence = (s.sequence + 1) % 2 ^ 64;
        used = nonce_for s ∷ s.used;
      } in
      (
        s',
        simp
            (
              cipher_write,
              update_nonce,
              le→ltb_false (length s.nonce) 8 room,
              m,
              write-sent accepts all,
            )
            refl,
        refl,
        refl,
        refl,
        cipher_read-sealed_envelope unmarshal server_open k
            (record s' { channel = record c' { incoming = sealed_envelope k b ∷ rest } }) b y r rest
            refl o u,
      )
