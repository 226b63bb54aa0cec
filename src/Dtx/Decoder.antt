-- ===== src/Dtx/Decoder.antt =====
-- ios/dtx_codec/decoder.go: a message from a byte slice that may hold too little, or from a reader.
-- The archiver of another package is the parameter `unarchive`.
pub mod Headers
pub mod RoundTrip
pub mod Reader
pub mod Panics
use go_ios.Common.{
  ℕ, ◌+◌, ◌^◌, ◌%◌, Bool, not, ◌&&◌, ◌||◌, List, [], ◌∷◌, map, Option, length, take, drop, ltb, leb,
  ◌==◌, if◌then◌else◌,
}
use go_ios.Common.Bytes.{Bytes, un_le, un_be}
use go_ios.Common.Buffer.{split?, slice, slice_from}
use go_ios.Common.Result.{Result, ok, err, reject, need, wrap, ◌>>=◌, ◌>>◌}
use go_ios.Dtx.Auxiliary.{Fault, PrimitiveDictionary, new_primitive_dictionary, decode_auxiliary}
use go_ios.Dtx.Message.{
  Message, Item, raw, object, PayloadHeader, AuxiliaryHeader, no_payload_header,
  no_auxiliary_header, dtx_message_magic, dtx_message_header_length, unknown_type_one,
  lz4_compressed_message, max_message_size, payload_length, has_auxiliary, has_payload, is_fragment,
  is_first_fragment,
}

pub data DecodeError : Type 0 where
  incomplete out_of_sync wrong_header_length : DecodeError
  -- the reader ended early
  short_read : DecodeError
  -- a length above `maxMessageSize`
  out_of_range : DecodeError
  -- the archiver's error
  not_an_archive : DecodeError
  -- a slice expression out of range, or a fault of the auxiliary's loop
  slice_panicked : DecodeError
  auxiliary_fault : Fault → DecodeError

-- `binary.LittleEndian.Uint32(s[off:])` and `Uint16`, on a slice that is long enough
abbrev pub uint32_at : ℕ → Bytes → ℕ
uint32_at off s = un_le (take 4 (drop off s))

abbrev pub uint16_at : ℕ → Bytes → ℕ
uint16_at off s = un_le (take 2 (drop off s))

unfoldable pub parse_payload_header : Bytes → PayloadHeader
parse_payload_header s = record {
  message_type = uint32_at 0 s;
  auxiliary_length = uint32_at 4 s;
  total_payload_length = uint32_at 8 s;
  flags = uint32_at 12 s;
}

unfoldable pub parse_auxiliary_header : Bytes → AuxiliaryHeader
parse_auxiliary_header s = record {
  buffer_size = uint32_at 0 s;
  unknown = uint32_at 4 s;
  auxiliary_size = uint32_at 8 s;
  unknown2 = uint32_at 12 s;
}

-- `io.ReadFull`
abbrev read_full : ℕ → Bytes → Result DecodeError (Bytes × Bytes)
read_full n s = need short_read (split? n s)

module _ {O : Type 0} where
  unfoldable pub read_header : Bytes → Message O
  read_header s = record {
    fragment_index = uint16_at 8 s;
    fragments = uint16_at 10 s;
    message_length = uint32_at 12 s;
    identifier = uint32_at 16 s;
    conversation_index = uint32_at 20 s;
    channel_code = uint32_at 24 s;
    expects_reply = uint32_at 28 s == 1;
    payload_header = no_payload_header;
    payload = [];
    auxiliary_header = no_auxiliary_header;
    auxiliary = record { key_value_pairs = []; values = []; value_types = [] };
    raw_bytes = [];
    fragment_bytes = [];
  }

  -- the auxiliary of a message in `s`, where its payload header says that it has one
  unfoldable pub decode_auxiliary_part : Message O → Bytes → Result DecodeError (Message O)
  decode_auxiliary_part m s = if not (has_auxiliary m) then ok m else (do
    reject (ltb (length s) 64) incomplete
    let end = (48 + m.payload_header.auxiliary_length) % 2 ^ 32
    reject (ltb (length s) end) incomplete
    aux ← need slice_panicked (slice s 64 end)
    d ← wrap auxiliary_fault (decode_auxiliary aux)
    ok (record m {
      auxiliary_header = parse_auxiliary_header (take 16 (drop 48 s));
      auxiliary = d;
    }))

  unfoldable pub decode_fragment : Message O → Bytes → Result DecodeError (Message O × Bytes)
  decode_fragment m s = do
    reject (ltb (length s) (m.message_length + 32)) incomplete
    ok (
      record m { fragment_bytes = take m.message_length (drop 32 s) },
      drop (m.message_length + 32) s,
    )

  unfoldable pub read_fragment : Message O → Bytes → Result DecodeError (Message O × Bytes)
  read_fragment m s = do
    reject (leb (2 ^ 63) m.message_length || ltb max_message_size m.message_length) out_of_range
    (body, rest) ← read_full m.message_length s
    ok (record m { fragment_bytes = body }, rest)

  unfoldable pub read_auxiliary_part : Message O → Bytes → Result DecodeError (Message O × Bytes)
  read_auxiliary_part m s = if not (has_auxiliary m) then ok (m, s) else (do
    (h, s1) ← read_full 16 s
    let header = parse_auxiliary_header h
    reject (ltb max_message_size header.auxiliary_size) out_of_range
    (aux, s2) ← read_full header.auxiliary_size s1
    d ← wrap auxiliary_fault (decode_auxiliary aux)
    ok (record m { auxiliary_header = header; auxiliary = d }, s2))

module _ {O : Type 0} (unarchive : Bytes → Option (List O)) where
  unfoldable pub unarchive_items : Bytes → Result DecodeError (List (Item O))
  unarchive_items s = do objects ← need not_an_archive (unarchive s); ok (map object objects)

  -- what `parsePayloadBytes` does with the bytes from `offset` on
  unfoldable pub dispatch_payload : ℕ → Bytes → Result DecodeError (List (Item O))
  dispatch_payload message_type s =
      if message_type == unknown_type_one || message_type == lz4_compressed_message
      then ok (raw s ∷ [])
      else unarchive_items s

  -- The offset is a `uint32`. The result of `Decompress` is only logged.
  unfoldable pub parse_payload_bytes : Message O → Bytes → Result DecodeError (List (Item O))
  parse_payload_bytes d s = do
    let offset =
        if has_payload d
        then (if has_auxiliary d then (48 + d.payload_header.auxiliary_length) % 2 ^ 32 else 48)
        else 0
    rest ← need slice_panicked (slice_from s offset)
    dispatch_payload d.payload_header.message_type rest

  unfoldable pub decode_whole : Message O → Bytes → Result DecodeError (Message O × Bytes)
  decode_whole m s = do
    reject (ltb (length s) 48) incomplete
    m1 ←
        decode_auxiliary_part
          (record m { payload_header = parse_payload_header (take 16 (drop 32 s)) }) s
    let total = m1.message_length + dtx_message_header_length
    reject (ltb (length s) total) incomplete
    let m2 = record m1 { raw_bytes = take total s }
    items ← if has_payload m2 then parse_payload_bytes m2 m2.raw_bytes else ok []
    ok (record m2 { payload = items }, drop total s)

  -- The message at the front of `s`, and the bytes behind it.
  unfoldable pub decode_non_blocking : Bytes → Result DecodeError (Message O × Bytes)
  decode_non_blocking s = do
    reject (ltb (length s) 4) incomplete
    reject (not (un_be (take 4 s) == dtx_message_magic)) out_of_sync
    reject (ltb (length s) 32) incomplete
    reject (not (uint32_at 4 s == dtx_message_header_length)) wrong_header_length
    let m = read_header s
    if is_first_fragment m
        then ok (record m { fragment_bytes = take 32 s }, drop 32 s)
        else if is_fragment m
        then decode_fragment m s
        else decode_whole m s

  unfoldable pub read_payload : Message O → Bytes → Result DecodeError (Message O × Bytes)
  read_payload m s = if not (has_payload m) then ok (m, s) else (do
    reject (ltb max_message_size (payload_length m.payload_header)) out_of_range
    (bytes, rest) ← read_full (payload_length m.payload_header) s
    items ← unarchive_items bytes
    ok (record m { payload = items }, rest))

  -- The next message of a reader that will deliver `s`, and what it delivers then.
  unfoldable pub read_message : Bytes → Result DecodeError (Message O × Bytes)
  read_message s = do
    (header, s1) ← read_full 32 s
    reject (not (un_be (take 4 header) == dtx_message_magic)) out_of_sync
    let m = read_header header
    if is_fragment m
        then (if is_first_fragment m
            then ok (record m { fragment_bytes = header }, s1)
            else read_fragment m s1)
        else (do
          (ph, s2) ← read_full 16 s1
          (m1, s3) ← read_auxiliary_part (record m { payload_header = parse_payload_header ph }) s2
          read_payload m1 s3)
