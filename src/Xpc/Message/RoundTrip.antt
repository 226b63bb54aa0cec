-- ===== src/Xpc/Message/RoundTrip.antt =====
-- A message that `EncodeMessage` writes, in front of any bytes, is read back by `DecodeMessage`.
use go_ios.Common.{
  ℕ, ◌+◌, ◌-◌, ◌≡◌, refl, ◌∙◌, true, false, Option, none, some, ◌++◌, append_assoc, arith, length,
  ◌==◌, le→ltb_false, ne→==_false,
}
use go_ios.Common.Bytes.{Bytes, IsU32, IsU64, le}
use go_ios.Common.Buffer.{read_le-le, split?-append}
use go_ios.Common.Result.{ok, need, ◌>>=◌}
use go_ios.Xpc.Value.{dictionary, Entries}
use go_ios.Xpc.Wire.{IsXpc, wire, encode_object-IsXpc}
use go_ios.Xpc.RoundTrip.{decode_whole}
use go_ios.Xpc.Message.{
  Message, body_version, wrapper_magic, object_magic, wrapper_bytes, encode_message, decode_body,
  decode_wrapper, decode_message, dictionary_of,
}

unfoldable pub IsBody : Option Entries → Type 0
IsBody none = Unit
IsBody (some es) = IsXpc (dictionary es) × IsU64 (length (wire (dictionary es)) + 8)

-- Flags of 32 bits, an id of 64, and a body that can be sent in a message of 64-bit length.
pub record IsMessage (m : Message) : Type 0 where
  pub flags_u32 : IsU32 m.flags
  pub id_u64 : IsU64 m.id
  pub is_body : IsBody m.body

decode_body-wire :
    (es : Entries) (rest : Bytes)
    → IsXpc (dictionary es)
    → decode_body
        (length (wire (dictionary es)) + 8)
        (le 4 object_magic ++ (le 4 body_version ++ (wire (dictionary es) ++ rest)))
      ≡ ok (es, rest)
unfolding decode_body dictionary_of
decode_body-wire es rest h =
    let b = wire (dictionary es) in
    rw (
      read_le-le 4 object_magic (le 4 body_version ++ (b ++ rest)) (omega arith),
      need,
      ◌>>=◌,
      read_le-le 4 body_version (b ++ rest) (omega arith),
      le→ltb_false (length b + 8) 8 (omega arith),
      split?-append b rest (length b + 8 - 8) (omega arith),
      decode_whole (dictionary es) h,
    )

decode_wrapper-le :
    (f len id : ℕ) (s : Bytes)
    → IsU32 f
    → IsU64 len
    → IsU64 id
    → decode_message (wrapper_bytes f len id ++ s) ≡ elim (len == 0) [
      | true ↦ ok (record { flags = f; body = none; id = id }, s)
      | false ↦ (do
        (es, rest) ← decode_body len s
        ok (record { flags = f; body = some es; id = id }, rest))
    ]
unfolding decode_message decode_wrapper
decode_wrapper-le f len id s hf hl hi = rw (
  append_assoc (le 4 wrapper_magic) (le 4 f ++ (le 8 len ++ le 8 id)) s,
  append_assoc (le 4 f) (le 8 len ++ le 8 id) s,
  append_assoc (le 8 len) (le 8 id) s,
  read_le-le 4 wrapper_magic (le 4 f ++ (le 8 len ++ (le 8 id ++ s))) (omega arith),
  need,
  ◌>>=◌,
  read_le-le 4 f (le 8 len ++ (le 8 id ++ s)) hf,
  read_le-le 8 len (le 8 id ++ s) hl,
  read_le-le 8 id s hi,
)

-- The bytes of the message, written out.
sent : ℕ → Option Entries → ℕ → Bytes
sent f none id = wrapper_bytes f 0 id
sent f (some es) id =
    wrapper_bytes f (length (wire (dictionary es)) + 8) id
    ++ (le 4 object_magic ++ (le 4 body_version ++ wire (dictionary es)))

encode_message-IsBody :
    (f id : ℕ) (b : Option Entries)
    → IsBody b
    → encode_message (record { flags = f; body = b; id = id }) ≡ ok (sent f b id)
unfolding encode_message sent IsBody
encode_message-IsBody f id none h = refl
encode_message-IsBody f id (some es) h = rw (encode_object-IsXpc (dictionary es) h.0)

decode_message-sent :
    (f id : ℕ) (b : Option Entries) (rest : Bytes)
    → IsU32 f
    → IsU64 id
    → IsBody b
    → decode_message (sent f b id ++ rest) ≡ ok (record { flags = f; body = b; id = id }, rest)
unfolding sent IsBody
decode_message-sent f id none rest hf hi h = decode_wrapper-le f 0 id rest hf (omega arith) hi
decode_message-sent f id (some es) rest hf hi h =
    let b = wire (dictionary es) in
    let w = wrapper_bytes f (length b + 8) id in
    rw
      (
        append_assoc w (le 4 object_magic ++ (le 4 body_version ++ b)) rest,
        append_assoc (le 4 object_magic) (le 4 body_version ++ b) rest,
        append_assoc (le 4 body_version) b rest,
      )
      (decode_wrapper-le f (length b + 8) id
          (le 4 object_magic ++ (le 4 body_version ++ (b ++ rest))) hf h.1 hi
        ∙ rw (ne→==_false (length b + 8) 0 (omega arith), decode_body-wire es rest h.0))

-- A message with flags of 32 bits, an id of 64 bits and no body, or a body that fits the wire format,
-- is encoded without an error, and reading the encoding in front of any bytes gives the same message
-- and leaves those bytes.
pub decode_message-encode :
    (m : Message) (rest : Bytes)
    → IsMessage m
    → (b : Bytes) × (encode_message m ≡ ok b) × (decode_message (b ++ rest) ≡ ok (m, rest))
decode_message-encode m rest h = (
  sent m.flags m.body m.id,
  encode_message-IsBody m.flags m.id m.body h.is_body,
  decode_message-sent m.flags m.id m.body rest h.flags_u32 h.id_u64 h.is_body,
)
