-- ===== src/Dtx/Encoder.antt =====
-- ios/dtx_codec/encoder.go: messages are written into a zeroed buffer, field by field.
pub mod Layout
use go_ios.Common.{
  ℕ, ◌+◌, ◌%◌, ◌^◌, Bool, Option, none, some, [], ◌++◌, length, replicate, ltb, ◌==◌, if◌then◌else◌,
}
use go_ios.Common.Bytes.{Bytes, le, be}
use go_ios.Common.Buffer.{put_at, copy_at}
use go_ios.Common.Result.{Result, ok, err, need, wrap, ◌>>=◌}
use go_ios.Dtx.Auxiliary.{PrimitiveDictionary, WriteError, write_panicked, to_bytes}
use go_ios.Dtx.Message.{Message, dtx_message_magic, dtx_message_header_length, ack}

-- A write into the buffer, which panics out of range.
abbrev put : ℕ → Bytes → Bytes → Result WriteError Bytes
put off bs buf = need write_panicked (put_at off bs buf)

abbrev copy : ℕ → Bytes → Bytes → Result WriteError Bytes
copy off bs buf = need write_panicked (copy_at off bs buf)

unfoldable pub write_header : ℕ → ℕ → ℕ → ℕ → Bool → Bytes → Result WriteError Bytes
unfolding put_at
write_header message_length identifier conversation_index channel_code expects_reply buf = do
  b0 ← put 0 (be 4 dtx_message_magic) buf
  b1 ← put 4 (le 4 dtx_message_header_length) b0
  b2 ← put 8 (le 2 0) b1
  b3 ← put 10 (le 2 1) b2
  b4 ← put 12 (le 4 message_length) b3
  b5 ← put 16 (le 4 identifier) b4
  b6 ← put 20 (le 4 conversation_index) b5
  b7 ← put 24 (le 4 channel_code) b6
  put 28 (le 4 (if expects_reply then 1 else 0)) b7

-- `messageBytes[32:]` is what the callee gets.
unfoldable pub write_payload_header : ℕ → ℕ → ℕ → Bytes → Result WriteError Bytes
unfolding put_at
write_payload_header message_type payload_length aux_length buf = do
  let with_header = (if ltb 0 aux_length then aux_length + 16 else aux_length) % 2 ^ 32
  b0 ← put 32 (le 4 message_type) buf
  b1 ← put 36 (le 4 with_header) b0
  b2 ← put 40 (le 4 (payload_length + with_header)) b1
  put 44 (le 4 0) b2

unfoldable pub write_aux_header : ℕ → Bytes → Result WriteError Bytes
unfolding put_at
write_aux_header auxiliary_size buf = do
  b0 ← put 48 (le 4 496) buf
  b1 ← put 52 (le 4 0) b0
  b2 ← put 56 (le 4 auxiliary_size) b1
  put 60 (le 4 0) b2

unfoldable pub build_ack_message : {O : Type 0} → Message O → Result WriteError Bytes
unfolding write_header
build_ack_message msg = do
  b0 ←
      write_header 16 msg.identifier (msg.conversation_index + 1) msg.channel_code Bool.false
        (replicate 48 0)
  b1 ← put 32 (le 4 ack) b0
  b2 ← put 36 (le 4 0) b1
  b3 ← put 40 (le 4 0) b2
  put 44 (le 4 0) b3

-- the body behind the two headers that every message has
unfoldable pub write_body : Bytes → Bytes → Bytes → Result WriteError Bytes
write_body aux payload buf = if length aux == 0 then copy 48 payload buf else (do
  b0 ← write_aux_header (length aux) buf
  b1 ← copy 64 aux b0
  copy (64 + length aux) payload b1)

-- `messageLength`, a `uint32`
unfoldable pub message_length_of : ℕ → ℕ → ℕ
message_length_of aux payload =
    (16 + (aux + payload) % 2 ^ 32 + (if ltb 0 aux then 16 else 0)) % 2 ^ 32

-- `Encode` from the bytes of the auxiliary on
unfoldable pub encode_with : ℕ → ℕ → ℕ → Bool → ℕ → Bytes → Bytes → Result WriteError Bytes
encode_with identifier conversation_index channel_code expects_reply message_type payload aux = do
  let size = message_length_of (length aux) (length payload)
  b0 ←
      write_header size identifier conversation_index channel_code expects_reply
        (replicate ((32 + size) % 2 ^ 32) 0)
  b1 ← write_payload_header message_type (length payload) (length aux) b0
  write_body aux payload b1

unfoldable pub encode : ℕ → ℕ → ℕ → Bool → ℕ → Bytes → PrimitiveDictionary → Result WriteError Bytes
encode identifier conversation_index channel_code expects_reply message_type payload auxiliary = do
  aux ← to_bytes auxiliary
  encode_with identifier conversation_index channel_code expects_reply message_type payload aux
