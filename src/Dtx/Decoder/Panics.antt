-- ===== src/Dtx/Decoder/Panics.antt =====
-- Where the lengths that a peer sends make `DecodeNonBlocking` panic, and acknowledgements.
use go_ios.Common.{
  ℕ, ◌+◌, ◌^◌, ◌%◌, ◌<◌, ◌≤◌, ◌≡◌, refl, ◌∙◌, Bool, false, Option, List, [], ◌++◌, arith, length,
  lt→ltb, le→ltb_false,
}
use go_ios.Common.Bytes.{Bytes, IsU32, le, un_le, be, un_le-le}
use go_ios.Common.Buffer.{slice}
use go_ios.Common.Result.{ok, err}
use go_ios.Dtx.Auxiliary.{new_primitive_dictionary, read_pairs, decode_auxiliary}
use go_ios.Dtx.Message.{Message, ack, has_auxiliary}
use go_ios.Dtx.Encoder.{build_ack_message, write_header}
use go_ios.Dtx.Encoder.Layout.{header_bytes, layout}
use go_ios.Dtx.Decoder.{
  slice_panicked, parse_payload_header, decode_auxiliary_part, decode_whole, decode_non_blocking,
}
use go_ios.Dtx.Decoder.Headers.{IsHeader, sent_message}
use go_ios.Dtx.Decoder.RoundTrip.{decode_non_blocking_front, decode_non_blocking-layout}

-- a payload header with any lengths
abbrev pub any_payload_header : ℕ → ℕ → ℕ → ℕ → Bytes
any_payload_header mt aux total flags = le 4 mt ++ (le 4 aux ++ (le 4 total ++ le 4 flags))

module _ {O : Type 0} (unarchive : Bytes → Option (List O)) where
  -- `messageBytes[64 : 48+AuxiliaryLength]` has its ends crossed where the payload header announces
  -- an auxiliary of 1 to 15 bytes, fewer than the auxiliary's own header: with 64 bytes or more at
  -- hand, `DecodeNonBlocking` panics, whatever else the message holds.
  pub decode_non_blocking_panics :
      (size i c ch : ℕ) (e : Bool) (mt aux total flags : ℕ) (rest : Bytes)
      → IsHeader size i c ch
      → 0 < aux
      → aux < 16
      → 16 ≤ length rest
      → decode_non_blocking unarchive
          (header_bytes size i c ch e ++ (any_payload_header mt aux total flags ++ rest))
        ≡ err slice_panicked
  unfolding decode_whole decode_auxiliary_part has_auxiliary parse_payload_header slice le un_le be
  decode_non_blocking_panics size i c ch e mt aux total flags rest h pos low long =
      decode_non_blocking_front unarchive size i c ch e
        (any_payload_header mt aux total flags ++ rest) h
      ∙ rw
          (
            le→ltb_false
                (length
                  (header_bytes size i c ch e ++ (any_payload_header mt aux total flags ++ rest)))
                48 (omega arith),
            un_le-le 4 aux (omega arith),
            lt→ltb 0 aux pos,
            le→ltb_false
                (length
                  (header_bytes size i c ch e ++ (any_payload_header mt aux total flags ++ rest)))
                64 (omega arith),
            le→ltb_false
                (length
                  (header_bytes size i c ch e ++ (any_payload_header mt aux total flags ++ rest)))
                ((48 + aux) % 2 ^ 32) (omega arith),
            lt→ltb ((48 + aux) % 2 ^ 32) 64 (omega arith),
          )
          refl

  build_ack_message-layout :
      (msg : Message O)
      → build_ack_message msg
        ≡ ok
            (layout 16 msg.identifier (msg.conversation_index + 1) msg.channel_code false ack [] [])
  unfolding build_ack_message write_header le be
  build_ack_message-layout msg = refl

  -- An acknowledgement of `msg` is decoded as a message of type `Ack` in the same channel with the
  -- same identifier, the next conversation index, no payload and no auxiliary.
  pub decode_non_blocking-build_ack_message :
      (msg : Message O) (rest : Bytes)
      → IsU32 msg.identifier
      → IsU32 (msg.conversation_index + 1)
      → IsU32 msg.channel_code
      → (bs : Bytes) × (build_ack_message msg ≡ ok bs)
        × (decode_non_blocking unarchive (bs ++ rest)
            ≡ ok (
              record (sent_message msg.identifier
                  (msg.conversation_index + 1)
                  msg.channel_code
                  false
                  ack
                  []
                  []
                  new_primitive_dictionary
                  []) { raw_bytes = bs },
              rest,
            ))
  decode_non_blocking-build_ack_message msg rest hi hc hch = (
    layout 16 msg.identifier (msg.conversation_index + 1) msg.channel_code false ack [] [],
    build_ack_message-layout msg,
    decode_non_blocking-layout unarchive msg.identifier (msg.conversation_index + 1)
        msg.channel_code false ack [] [] rest
        (record {
          size_fits = omega arith;
          identifier_fits = hi;
          conversation_fits = hc;
          channel_fits = hch;
        })
        (omega arith) (unfold decode_auxiliary read_pairs in refl) refl,
  )
