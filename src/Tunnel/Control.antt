-- ===== src/Tunnel/Control.antt =====
-- ios/tunnel/codec.go: the messages of the pairing protocol in their envelopes, and the encrypted stream
-- inside of them. A map is the entries of a RemoteXPC dictionary. The channel has the maps that were
-- sent, newest first, and those that the device will still send; `accepts n` tells whether the
-- connection takes the map number n. The ciphers and the JSON library are parameters.
pub mod Events
pub mod Nonces
use go_ios.Common.{
  ℕ, suc, ◌+◌, ◌%◌, ◌^◌, Bool, true, false, Option, none, some, List, [], ◌∷◌, ◌++◌, length, ltb,
  if◌then◌else◌,
}
use go_ios.Common.Bytes.{Bytes, le, zeros}
use go_ios.Common.Buffer.{overlay}
use go_ios.Common.Text.{codes}
use go_ios.Common.Result.{Result, ok, err}
use go_ios.Xpc.Value.{
  Value, bool, binary, text, uint64, dictionary, Entries, end, entry, lookup_entry,
}

pub data ControlError : Type 0 where
  not_sent not_received no_entry not_marshalled not_opened not_parsed : ControlError
  not_implemented panicked : ControlError

pub record PairingData : Type 0 where
  pub content : Bytes
  pub kind : Bytes
  pub sending_host : Bytes
  pub start_new_session : Bool

abbrev pub single : Bytes → Entries → Entries
single k es = entry k (dictionary es) end

unfoldable pub encode_pairing_data : PairingData → Entries
encode_pairing_data p = single (codes "pairingData") (
    single (codes "_0") (
      entry (codes "data") (binary p.content) (
        entry (codes "kind") (text p.kind) (
          entry (codes "sendingHost") (text p.sending_host)
            (entry (codes "startNewSession") (bool p.start_new_session) end)))))

abbrev pub as_map : Option Value → Option Entries
as_map (some (dictionary es)) = some es
as_map _ = none

unfoldable pub get_child_map : Entries → List Bytes → Option Entries
get_child_map m [] = some m
get_child_map m (k ∷ ks) = elim (as_map (lookup_entry k m)) [
  | none ↦ none
  | some c ↦ get_child_map c ks
]

-- A field of another type leaves what was there.
abbrev pub bytes_or : Bytes → Option Value → Bytes
bytes_or d (some (binary b)) = b
bytes_or d _ = d

abbrev pub text_or : Bytes → Option Value → Bytes
text_or d (some (text b)) = b
text_or d _ = d

abbrev pub bool_or : Bool → Option Value → Bool
bool_or d (some (bool b)) = b
bool_or d _ = d

abbrev pub set_fields : PairingData → Option Entries → Result ControlError PairingData
set_fields p none = err no_entry
set_fields p (some pd) = ok (record {
  content = bytes_or p.content (lookup_entry (codes "data") pd);
  kind = text_or p.kind (lookup_entry (codes "kind") pd);
  sending_host = text_or p.sending_host (lookup_entry (codes "sendingHost") pd);
  start_new_session = bool_or p.start_new_session (lookup_entry (codes "startNewSession") pd);
})

unfoldable pub decode_pairing_data : Entries → PairingData → Result ControlError PairingData
decode_pairing_data e p = set_fields p (get_child_map e (codes "pairingData" ∷ (codes "_0" ∷ [])))

unfoldable pub encode_pair_verify_failed : Entries
encode_pair_verify_failed = single (codes "pairVerifyFailed") end

pub record ControlChannel : Type 0 where
  pub seq_nr : ℕ
  pub sent : List Entries
  pub sends : ℕ
  pub incoming : List Entries

unfoldable pub new_control_channel : List Entries → ControlChannel
new_control_channel incoming = record { seq_nr = 1; sent = []; sends = 0; incoming = incoming }

unfoldable pub envelope : ℕ → Entries → Entries
envelope seq_nr message =
    entry (codes "mangledTypeName") (text (codes "RemotePairing.ControlChannelMessageEnvelope")) (
      single (codes "value") (
        entry (codes "message") (dictionary message) (
          entry (codes "originatedBy") (text (codes "host"))
            (entry (codes "sequenceNumber") (uint64 seq_nr) end))))

abbrev pub in_plain : Bytes → Entries → Entries
in_plain k es = single (codes "plain") (single (codes "_0") (single k (single (codes "_0") es)))

abbrev pub found_map : Option Entries → Result ControlError Entries
found_map none = err no_entry
found_map (some m) = ok m

abbrev receive : List Entries → ControlChannel → ControlChannel × Result ControlError Entries
receive [] c = (c, err not_received)
receive (p ∷ ps) c = (
  record c { incoming = ps },
  found_map (get_child_map p (codes "value" ∷ (codes "message" ∷ []))),
)

-- Two lookups, one in the other.
unfoldable pub read : ControlChannel → ControlChannel × Result ControlError Entries
read c = receive c.incoming c

unfoldable pub event_of :
    PairingData → Result ControlError Entries → Result ControlError PairingData
event_of p (err e) = err e
event_of p (ok m) =
    elim (get_child_map m (codes "plain" ∷ (codes "_0" ∷ (codes "event" ∷ (codes "_0" ∷ []))))) [
      | none ↦ err no_entry
      | some e ↦ decode_pairing_data e p
    ]

unfoldable pub read_event :
    PairingData → ControlChannel → ControlChannel × Result ControlError PairingData
read_event p c = let (c', r) = read c in (c', event_of p r)

pub record CipherStream : Type 0 where
  pub channel : ControlChannel
  pub nonce : Bytes
  pub sequence : ℕ
  pub used : List Bytes

-- `used` has the nonces that were sealed with, newest first.
unfoldable pub new_cipher_stream : ControlChannel → ℕ → CipherStream
new_cipher_stream c nonce_size = record {
  channel = c;
  nonce = zeros nonce_size;
  sequence = 0;
  used = [];
}

-- none where the nonce is too short for the counter, which is a panic
unfoldable pub update_nonce : CipherStream → Option CipherStream
update_nonce s =
    if ltb (length s.nonce) 8
    then none
    else some (record s { nonce = overlay (le 8 s.sequence) s.nonce })

module _ (accepts : ℕ → Bool) where
  unfoldable pub write : Entries → ControlChannel → ControlChannel × Result ControlError (Unit {0})
  write message c =
      let next = record c { seq_nr = (c.seq_nr + 1) % 2 ^ 64; sends = c.sends + 1 } in
      if accepts c.sends
      then (record next { sent = envelope c.seq_nr message ∷ c.sent }, ok tt)
      else (next, err not_sent)

  unfoldable pub write_event :
      Entries → ControlChannel → ControlChannel × Result ControlError (Unit {0})
  write_event encoded = write (in_plain (codes "event") encoded)

  unfoldable pub write_request :
      Entries → ControlChannel → ControlChannel × Result ControlError (Unit {0})
  write_request req = write (in_plain (codes "request") req)

  module _ (marshal : Entries → Option Bytes) (seal : Bytes → Bytes → Bytes) where
    abbrev write_sealed :
        CipherStream → Option Bytes → CipherStream × Result ControlError (Unit {0})
    write_sealed s none = (s, err not_marshalled)
    write_sealed s (some plain) =
        let (c, r) =
          write
            (single (codes "streamEncrypted")
              (entry (codes "_0") (binary (seal s.nonce plain)) end))
            s.channel in
        (record s { channel = c; sequence = (s.sequence + 1) % 2 ^ 64; used = s.nonce ∷ s.used }, r)

    abbrev write_updated :
        Entries → CipherStream → Option CipherStream → CipherStream × Result ControlError (Unit {0})
    write_updated p s none = (s, err panicked)
    write_updated p s (some s') = write_sealed s' (marshal p)

    unfoldable pub cipher_write :
        Entries → CipherStream → CipherStream × Result ControlError (Unit {0})
    cipher_write p s = write_updated p s (update_nonce s)

abbrev pub unmarshalled : Option Entries → Result ControlError Entries
unmarshalled none = err not_parsed
unmarshalled (some p) = ok p

module _ (unmarshal : Bytes → Option Entries) (open_ : Bytes → Bytes → Option Bytes) where
  abbrev parsed : Option Bytes → Result ControlError Entries
  parsed none = err not_opened
  parsed (some plain) = unmarshalled (unmarshal plain)

  abbrev opened : Bytes → Option Entries → Result ControlError Entries
  opened nonce none = err not_implemented
  opened nonce (some m) = elim (lookup_entry (codes "_0") m) [
    | some (binary cip) ↦ parsed (open_ nonce cip)
    | _ ↦ err not_implemented
  ]

  abbrev pub decrypted : Bytes → Result ControlError Entries → Result ControlError Entries
  decrypted nonce (err e) = err e
  decrypted nonce (ok m) = opened nonce (get_child_map m (codes "streamEncrypted" ∷ []))

  -- The nonce is the one of the last write.
  unfoldable pub cipher_read : CipherStream → CipherStream × Result ControlError Entries
  cipher_read s = let (c, r) = read s.channel in (record s { channel = c }, decrypted s.nonce r)
