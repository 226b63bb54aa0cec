-- ===== src/Tests/Streams.antt =====
-- ncm/ncm.go, ios/usbmuxconnection.go, and framing.go and codec.go of ios/tunnel at concrete streams.
use go_ios.Common.{
  ℕ, ◌+◌, ◌-◌, ◌%◌, ◌^◌, ◌≤◌, ◌≡◌, refl, Bool, true, false, Option, some, List, [], ◌∷◌, ◌++◌,
  replicate, arith, ltb, length,
}
use go_ios.Common.Bytes.{Bytes, un_be, un_le}
use go_ios.Common.Result.{ok}
use go_ios.Xpc.Value.{Entries, end}
use go_ios.Ncm.{NcmWrapper, write, read_datagrams}
use go_ios.Ncm.Frames.{read_datagrams-write}
use go_ios.Tunnel.Framing.{version, payload_length}
use go_ios.Tunnel.Framing.Packets.{IsPacket, Reads, Reads-joined}
use go_ios.UsbMux.{UsbMuxConnection}
use go_ios.UsbMux.Tags.{Sends, Receives, tagged, Receives-Sends}
use go_ios.Tunnel.Control.{
  PairingData, ControlChannel, encode_pairing_data, write_event, read_event, CipherStream,
  new_cipher_stream, cipher_write,
}
use go_ios.Tunnel.Control.Events.{read_event-write_event}
use go_ios.Tunnel.Control.Nonces.{begins, writes, Distinct, nonces, Talks-Distinct}

abbrev frame : Bytes
frame = replicate 54 7

abbrev wrapper : NcmWrapper
wrapper = record { sequence_num = 65535 }

-- the Ethernet library on frames with two tags: the type is the last two of 22 bytes
abbrev library_panics : Bytes → Bool
library_panics d = ltb (length d) 22

read_datagrams-write_example :
    read_datagrams library_panics ((write frame wrapper).1 ++ (9 ∷ [])) ≡ ok (frame ∷ [], 9 ∷ [])
read_datagrams-write_example =
    read_datagrams-write library_panics (λ d h. ground arith) frame (9 ∷ []) wrapper (omega arith)

-- an IPv6 packet with one byte of payload
abbrev packet : Bytes
packet = 0x60 ∷ (0 ∷ (0 ∷ (0 ∷ (0 ∷ (1 ∷ (replicate 34 0 ++ (7 ∷ [])))))))

packet-IsPacket : IsPacket packet
unfolding version payload_length un_be un_le
packet-IsPacket = record { is_ipv6 = refl; whole = refl }

Reads-joined_example :
    Reads 1500 ((packet ++ (packet ++ [])) ++ (9 ∷ [])) (packet ∷ (packet ∷ [])) (9 ∷ [])
Reads-joined_example =
    Reads-joined 1500 (packet ∷ (packet ∷ [])) (9 ∷ [])
      ((packet-IsPacket, omega arith), ((packet-IsPacket, omega arith), tt))

abbrev takes_all : ℕ → Bool
takes_all n = true

abbrev as_it_is : Bytes → Bytes
as_it_is p = p

abbrev messages : List Bytes
messages = (1 ∷ (2 ∷ [])) ∷ ([] ∷ [])

-- the last tag before they start again
abbrev host : UsbMuxConnection
host = record { tag = 2 ^ 32 - 1; released = false; writes = 0; written = []; incoming = [] }

Receives-Sends_example :
    (bytes : Bytes) × (d : UsbMuxConnection) × Sends as_it_is takes_all (λ n. refl) host messages d
    × (d.written ≡ host.written ++ bytes)
    × (e : UsbMuxConnection) × Receives
        (record host { incoming = bytes ++ (9 ∷ []) })
        (tagged as_it_is host.tag messages)
        e
    × (e.incoming ≡ 9 ∷ [])
Receives-Sends_example =
    Receives-Sends as_it_is takes_all (λ n. refl) messages host host (9 ∷ [])
      (omega arith, (omega arith, tt)) refl refl

abbrev pairing : Bytes → PairingData
pairing content = record {
  content = content;
  kind = 5 ∷ [];
  sending_host = [];
  start_new_session = true;
}

abbrev channel : ControlChannel
channel = record { seq_nr = 2 ^ 64 - 1; sent = []; sends = 0; incoming = [] }

read_event-write_event_example :
    (c' : ControlChannel) × (m : Entries) × (write_event takes_all
        (encode_pairing_data (pairing (1 ∷ [])))
        channel
      ≡ (c', ok tt))
    × (c'.sent ≡ m ∷ [])
    × (c'.seq_nr ≡ (channel.seq_nr + 1) % 2 ^ 64)
    × (read_event (pairing []) (record channel { incoming = m ∷ [] })
        ≡ (record channel { incoming = [] }, ok (pairing (1 ∷ []))))
read_event-write_event_example =
    read_event-write_event takes_all (λ n. refl) (pairing (1 ∷ [])) (pairing []) channel channel []

abbrev marshal : Entries → Option Bytes
marshal es = some (4 ∷ [])

abbrev unmarshal : Bytes → Option Entries
unmarshal s = some end

abbrev seal : Bytes → Bytes → Bytes
seal nonce plain = nonce ++ plain

abbrev open_sealed : Bytes → Bytes → Option Bytes
open_sealed nonce cip = some cip

abbrev talked : CipherStream
talked =
    (cipher_write takes_all marshal seal end
      (cipher_write takes_all marshal seal end (new_cipher_stream channel 12)).0).0

Talks-Distinct_example :
    (talked.used ≡ nonces 12 talked.sequence) × (talked.sequence ≤ 2) × Distinct talked.used
Talks-Distinct_example =
    Talks-Distinct marshal unmarshal seal open_sealed 12 channel 2 talked (omega arith)
      (omega arith) (writes 1 _ takes_all end (writes 0 _ takes_all end begins))
