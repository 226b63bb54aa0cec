-- ===== src/Dtx/Decoder/Headers.antt =====
-- The headers of a message, and the message that was sent, as the decoder finds them.
use go_ios.Common.{
  ℕ, suc, ◌+◌, ◌≡◌, refl, Bool, true, false, List, [], ◌∷◌, ◌++◌, arith, length, ◌==◌,
  if◌then◌else◌,
}
use go_ios.Common.Bytes.{Bytes, IsU32, le, un_le, be, un_le-le}
use go_ios.Dtx.Auxiliary.{PrimitiveDictionary, new_primitive_dictionary}
use go_ios.Dtx.Message.{
  Message, Item, PayloadHeader, AuxiliaryHeader, no_payload_header, no_auxiliary_header,
  payload_length,
}
use go_ios.Dtx.Encoder.Layout.{
  header_bytes, payload_header_bytes, aux_header_bytes, with_header, body_size,
}
use go_ios.Dtx.Decoder.{parse_payload_header, parse_auxiliary_header, read_header}

-- the four numbers of a message header are `uint32`s
pub record IsHeader (size i c ch : ℕ) : Type 0 where
  pub size_fits : IsU32 size
  pub identifier_fits : IsU32 i
  pub conversation_fits : IsU32 c
  pub channel_fits : IsU32 ch

-- the message as far as its first header tells
abbrev pub header_message : {O : Type 0} → ℕ → ℕ → ℕ → ℕ → Bool → Message O
header_message size i c ch e = record {
  fragments = 1;
  fragment_index = 0;
  message_length = size;
  identifier = i;
  conversation_index = c;
  channel_code = ch;
  expects_reply = e;
  payload_header = no_payload_header;
  payload = [];
  auxiliary_header = no_auxiliary_header;
  auxiliary = new_primitive_dictionary;
  raw_bytes = [];
  fragment_bytes = [];
}

expects_reply-le : (e : Bool) → (un_le (le 4 (if e then 1 else 0)) == 1) ≡ e
unfolding le un_le
expects_reply-le true = refl
expects_reply-le false = refl

pub read_header-header_bytes :
    {O : Type 0} (size i c ch : ℕ) (e : Bool) (rest : Bytes)
    → IsHeader size i c ch
    → read_header {O = O} (header_bytes size i c ch e ++ rest) ≡ header_message size i c ch e
unfolding read_header le un_le be
read_header-header_bytes size i c ch e rest h = λ k. record {
  fragments = 1;
  fragment_index = 0;
  message_length = un_le-le 4 size h.size_fits k;
  identifier = un_le-le 4 i h.identifier_fits k;
  conversation_index = un_le-le 4 c h.conversation_fits k;
  channel_code = un_le-le 4 ch h.channel_fits k;
  expects_reply = expects_reply-le e k;
  payload_header = no_payload_header;
  payload = [];
  auxiliary_header = no_auxiliary_header;
  auxiliary = new_primitive_dictionary;
  raw_bytes = [];
  fragment_bytes = [];
}

abbrev pub sent_payload_header : ℕ → ℕ → ℕ → PayloadHeader
sent_payload_header mt payload aux = record {
  message_type = mt;
  auxiliary_length = with_header aux;
  total_payload_length = payload + with_header aux;
  flags = 0;
}

abbrev pub sent_auxiliary_header : ℕ → AuxiliaryHeader
sent_auxiliary_header n = record {
  buffer_size = 496;
  unknown = 0;
  auxiliary_size = n;
  unknown2 = 0;
}

pub parse_payload_header-bytes :
    (mt payload aux : ℕ)
    → IsU32 mt
    → IsU32 (payload + with_header aux)
    → parse_payload_header (payload_header_bytes mt payload aux)
      ≡ sent_payload_header mt payload aux
unfolding parse_payload_header le un_le
parse_payload_header-bytes mt payload aux hm hp = λ k. record {
  message_type = un_le-le 4 mt hm k;
  auxiliary_length = un_le-le 4 (with_header aux) (omega arith) k;
  total_payload_length = un_le-le 4 (payload + with_header aux) hp k;
  flags = 0;
}

pub parse_auxiliary_header-bytes :
    (n : ℕ) → IsU32 n → parse_auxiliary_header (aux_header_bytes n) ≡ sent_auxiliary_header n
unfolding parse_auxiliary_header le un_le
parse_auxiliary_header-bytes n h =
    λ k. record { buffer_size = 496; unknown = 0; auxiliary_size = un_le-le 4 n h k; unknown2 = 0 }

pub payload_length-sent :
    (mt payload aux : ℕ) → payload_length (sent_payload_header mt payload aux) ≡ payload
unfolding payload_length
payload_length-sent mt payload aux = ground arith

abbrev pub sent_message :
    {O : Type 0}
    → ℕ
    → ℕ
    → ℕ
    → Bool
    → ℕ
    → Bytes
    → Bytes
    → PrimitiveDictionary
    → List (Item O)
    → Message O
sent_message i c ch e mt payload aux d items =
    record (header_message (body_size aux payload) i c ch e) {
      payload_header = sent_payload_header mt (length payload) (length aux);
      auxiliary_header = elim aux [
        | [] ↦ no_auxiliary_header
        | x ∷ xs ↦ sent_auxiliary_header (suc (length xs))
      ];
      auxiliary = d;
      payload = items;
    }
