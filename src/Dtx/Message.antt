-- ===== src/Dtx/Message.antt =====
-- ios/dtx_codec/dtxmessage.go, with the predicates on a message of decoder.go.
-- A Go `int` of this package is its 64-bit pattern, and a `uint32` or `uint16` is a number below
-- its bound.
use go_ios.Common.{ℕ, ◌+◌, ◌-◌, ◌^◌, ◌%◌, ◌*◌, Bool, ◌&&◌, not, List, ltb, ◌==◌, if◌then◌else◌}
use go_ios.Common.Bytes.{Bytes}
use go_ios.Dtx.Auxiliary.{PrimitiveDictionary}

abbrev pub dtx_message_magic : ℕ
dtx_message_magic = 0x795B3D1F

abbrev pub dtx_message_header_length : ℕ
dtx_message_header_length = 32

-- the MessageType values
abbrev pub ack : ℕ
ack = 0

abbrev pub unknown_type_one : ℕ
unknown_type_one = 1

abbrev pub method_invocation : ℕ
method_invocation = 2

abbrev pub dtx_type_error : ℕ
dtx_type_error = 4

abbrev pub lz4_compressed_message : ℕ
lz4_compressed_message = 0x0707

abbrev pub max_message_size : ℕ
max_message_size = 256 * 1024 * 1024

pub record PayloadHeader : Type 0 where
  pub message_type : ℕ
  pub auxiliary_length : ℕ
  pub total_payload_length : ℕ
  pub flags : ℕ

pub record AuxiliaryHeader : Type 0 where
  pub buffer_size : ℕ
  pub unknown : ℕ
  pub auxiliary_size : ℕ
  pub unknown2 : ℕ

-- What `Payload []interface{}` holds: bytes that were left as they are, or an unarchived object.
pub data Item (O : Type 0) : Type 0 where
  raw : Bytes → Item O
  object : O → Item O

pub record Message (O : Type 0) : Type 0 where
  pub fragments : ℕ
  pub fragment_index : ℕ
  pub message_length : ℕ
  pub identifier : ℕ
  pub conversation_index : ℕ
  pub channel_code : ℕ
  pub expects_reply : Bool
  pub payload_header : PayloadHeader
  pub payload : List (Item O)
  pub auxiliary_header : AuxiliaryHeader
  pub auxiliary : PrimitiveDictionary
  pub raw_bytes : Bytes
  pub fragment_bytes : Bytes

-- the zero values of Go
abbrev pub no_payload_header : PayloadHeader
no_payload_header = record {
  message_type = 0;
  auxiliary_length = 0;
  total_payload_length = 0;
  flags = 0;
}

abbrev pub no_auxiliary_header : AuxiliaryHeader
no_auxiliary_header = record { buffer_size = 0; unknown = 0; auxiliary_size = 0; unknown2 = 0 }

unfoldable pub payload_length : PayloadHeader → ℕ
payload_length h =
    if ltb h.total_payload_length h.auxiliary_length
    then 0
    else h.total_payload_length - h.auxiliary_length

module _ {O : Type 0} where
  unfoldable pub has_auxiliary : Message O → Bool
  has_auxiliary d = ltb 0 d.payload_header.auxiliary_length

  unfoldable pub has_payload : Message O → Bool
  unfolding payload_length
  has_payload d = ltb 0 (payload_length d.payload_header)

  unfoldable pub is_fragment : Message O → Bool
  is_fragment d = ltb 1 d.fragments

  unfoldable pub is_first_fragment : Message O → Bool
  is_first_fragment d = ltb 1 d.fragments && d.fragment_index == 0

  -- the difference of two `uint16`s wraps
  unfoldable pub is_last_fragment : Message O → Bool
  is_last_fragment d = ltb 1 d.fragments && (d.fragments + 2 ^ 16 - d.fragment_index) % 2 ^ 16 == 1

  unfoldable pub message_is_first_fragment_for : Message O → Message O → Bool
  unfolding is_first_fragment
  message_is_first_fragment_for d other =
      if not (is_first_fragment d)
      then Bool.false
      else d.identifier == other.identifier
        && d.fragments == other.fragments
        && ltb 0 other.fragment_index

  unfoldable pub has_error : Message O → Bool
  has_error d = d.payload_header.message_type == dtx_type_error
