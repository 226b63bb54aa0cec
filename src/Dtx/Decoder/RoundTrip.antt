-- ===== src/Dtx/Decoder/RoundTrip.antt =====
-- `DecodeNonBlocking` and `ReadMessage` on what `Encode` returns.
use go_ios.Common.{
  ℕ, suc, ◌+◌, ◌%◌, ◌^◌, ◌<◌, ◌≡◌, refl, ap, ◌∙◌, Bool, Option, some, List, [], ◌∷◌, ◌++◌,
  append_assoc, arith, length, length-append, take-append, drop-append, ltb, if◌then◌else◌,
  le→ltb_false, lt→ltb,
}
use go_ios.Common.Bytes.{Bytes, IsU32, le, un_le, be, un_be}
use go_ios.Common.Buffer.{slice, slice-append, slice_from-append}
use go_ios.Common.Result.{Result, ok, ok-injective}
use go_ios.Dtx.Auxiliary.{
  PrimitiveDictionary, of_pairs, new_primitive_dictionary, read_pairs, decode_auxiliary,
}
use go_ios.Dtx.Auxiliary.RoundTrip.{IsWritable, wire, wire-IsWritable}
use go_ios.Dtx.Message.{Message, Item, has_auxiliary, has_payload, is_fragment, is_first_fragment}
use go_ios.Dtx.Encoder.{encode}
use go_ios.Dtx.Encoder.Layout.{
  header_bytes, payload_header_bytes, aux_header_bytes, with_header, layout, body_size,
  encode-layout,
}
use go_ios.Dtx.Decoder.{
  DecodeError, dispatch_payload, parse_payload_bytes, decode_auxiliary_part, decode_whole,
  decode_non_blocking,
}
use go_ios.Dtx.Decoder.Headers.{
  IsHeader, header_message, read_header-header_bytes, sent_payload_header, sent_auxiliary_header,
  parse_payload_header-bytes, parse_auxiliary_header-bytes, payload_length-sent, sent_message,
}

module _ {O : Type 0} (unarchive : Bytes → Option (List O)) where
  -- what the receiver makes of the payload
  abbrev pub payload_items : ℕ → Bytes → Result DecodeError (List (Item O))
  payload_items mt [] = ok []
  payload_items mt (y ∷ ys) = dispatch_payload unarchive mt (y ∷ ys)

  payload_step :
      (m : Message O) (mt : ℕ) (payload aux front : Bytes)
      → m.payload_header ≡ sent_payload_header mt (length payload) (length aux)
      → length front ≡ 48 + with_header (length aux)
      → 64 + length aux + length payload < 2 ^ 32
      → (if has_payload m then parse_payload_bytes unarchive m (front ++ payload) else ok [])
        ≡ payload_items mt payload
  unfolding has_payload parse_payload_bytes has_auxiliary
  payload_step m mt [] aux front e l fits = rw (e, payload_length-sent mt 0 (length aux))
  payload_step m mt (y ∷ ys) aux front e l fits =
      rw
        (
          e,
          payload_length-sent mt (length (y ∷ ys)) (length aux),
          lt→ltb 0 (length (y ∷ ys)) (omega arith),
          slice_from-append front (y ∷ ys) offset,
        )
        refl
    where
      offset : length front ≡ (
          if ltb 0 (with_header (length aux)) then (48 + with_header (length aux)) % 2 ^ 32 else 48)
      offset = ground arith

  module _ (i c ch : ℕ) (e : Bool) (mt : ℕ) (payload rest : Bytes) where
    abbrev plain : Bytes
    plain = layout (body_size [] payload) i c ch e mt payload []

    abbrev with_ph : Message O
    with_ph = record (header_message (body_size [] payload) i c ch e) {
      payload_header = sent_payload_header mt (length payload) 0;
    }

    decode_whole_no_auxiliary :
        {items : List (Item O)}
        → IsU32 mt
        → 64 + length payload < 2 ^ 32
        → payload_items mt payload ≡ ok items
        → decode_whole unarchive (header_message (body_size [] payload) i c ch e) (plain ++ rest)
          ≡ ok (
            record (sent_message i c ch e mt payload [] new_primitive_dictionary items) {
              raw_bytes = plain;
            },
            rest,
          )
    unfolding decode_whole decode_auxiliary_part has_auxiliary le be
    decode_whole_no_auxiliary {items} hm fits it =
        rw
          (
            le→ltb_false (length (plain ++ rest)) 48 (omega arith),
            parse_payload_header-bytes mt (length payload) 0 hm (omega arith),
            le→ltb_false (length (plain ++ rest)) (16 + length payload + 32)
                (omega (arith, length-append payload rest)),
            take-append plain rest (16 + length payload + 32) (omega arith),
            drop-append plain rest (16 + length payload + 32) (omega arith),
            payload_step (record with_ph { raw_bytes = plain }) mt payload []
                (header_bytes (16 + length payload) i c ch e
                  ++ payload_header_bytes mt (length payload) 0)
                refl (omega arith) (omega arith),
            it,
          )
          refl

    module _ (x : ℕ) (xs : Bytes) where
      abbrev full : Bytes
      full = layout (body_size (x ∷ xs) payload) i c ch e mt payload (x ∷ xs)

      abbrev n : ℕ
      n = suc (length xs)

      abbrev with_aux : PrimitiveDictionary → Message O
      with_aux d = record (header_message (32 + (n + length payload)) i c ch e) {
        payload_header = sent_payload_header mt (length payload) n;
        auxiliary_header = sent_auxiliary_header n;
        auxiliary = d;
      }

      abbrev front48 : Bytes
      front48 =
          header_bytes (32 + (n + length payload)) i c ch e
          ++ payload_header_bytes mt (length payload) n

      abbrev front64 : Bytes
      front64 = front48 ++ aux_header_bytes n

      decode_whole_auxiliary :
          {d : PrimitiveDictionary} {items : List (Item O)}
          → IsU32 mt
          → 64 + n + length payload < 2 ^ 32
          → decode_auxiliary (x ∷ xs) ≡ ok d
          → payload_items mt payload ≡ ok items
          → decode_whole unarchive
              (header_message (body_size (x ∷ xs) payload) i c ch e)
              (full ++ rest)
            ≡ ok (
              record (sent_message i c ch e mt payload (x ∷ xs) d items) { raw_bytes = full },
              rest,
            )
      unfolding decode_whole decode_auxiliary_part has_auxiliary le be
      decode_whole_auxiliary {d} {items} hm fits dec it =
          rw
            (
              le→ltb_false (length (full ++ rest)) 48 (omega arith),
              parse_payload_header-bytes mt (length payload) n hm (omega (arith, wide)),
              lt→ltb 0 (with_header n) (omega (arith, wide)),
              le→ltb_false (length (full ++ rest)) 64 (omega arith),
              le→ltb_false (length (full ++ rest)) end (omega (arith, wide, lengths)),
              sliced,
              dec,
              parse_auxiliary_header-bytes n (omega arith),
              le→ltb_false (length (full ++ rest)) (32 + (n + length payload) + 32)
                  (omega (arith, lengths)),
              take-append full rest (32 + (n + length payload) + 32) (omega (arith, lengths)),
              drop-append full rest (32 + (n + length payload) + 32) (omega (arith, lengths)),
              payload_step (record (with_aux d) { raw_bytes = full }) mt payload (x ∷ xs)
                  (front64 ++ (x ∷ xs)) refl (omega (arith, wide)) (omega arith),
              it,
            )
            refl
        where
          end : ℕ
          end = (48 + with_header n) % 2 ^ 32

          wide : with_header n ≡ n + 16
          wide = ground arith

          lengths :
              (length ((xs ++ payload) ++ rest) ≡ length xs + length payload + length rest)
              × (length (xs ++ payload) ≡ length xs + length payload)
          lengths = (
            omega (arith, length-append (xs ++ payload) rest, length-append xs payload),
            length-append xs payload,
          )

          sliced : slice (full ++ rest) 64 end ≡ some (x ∷ xs)
          sliced =
              ap (λ z. slice (front64 ++ (x ∷ z)) 64 end) (append_assoc xs payload rest)
              ∙ slice-append front64 (x ∷ xs) (payload ++ rest) refl (omega (arith, wide))

module _ {O : Type 0} (unarchive : Bytes → Option (List O)) where
  pub decode_non_blocking_front :
      (size i c ch : ℕ) (e : Bool) (s : Bytes)
      → IsHeader size i c ch
      → decode_non_blocking unarchive (header_bytes size i c ch e ++ s)
        ≡ decode_whole unarchive (header_message size i c ch e) (header_bytes size i c ch e ++ s)
  unfolding decode_non_blocking le be un_le un_be is_first_fragment is_fragment
  decode_non_blocking_front size i c ch e s h =
      rw
        (
          le→ltb_false (length (header_bytes size i c ch e ++ s)) 4 (omega arith),
          le→ltb_false (length (header_bytes size i c ch e ++ s)) 32 (omega arith),
          read_header-header_bytes size i c ch e s h,
        )
        refl

  pub decode_non_blocking-layout :
      (i c ch : ℕ) (e : Bool) (mt : ℕ) (payload aux rest : Bytes) {d : PrimitiveDictionary}
      {items : List (Item O)}
      → IsHeader mt i c ch
      → 64 + length aux + length payload < 2 ^ 32
      → decode_auxiliary aux ≡ ok d
      → payload_items unarchive mt payload ≡ ok items
      → let bs = layout (body_size aux payload) i c ch e mt payload aux in
        decode_non_blocking unarchive (bs ++ rest)
        ≡ ok (record (sent_message i c ch e mt payload aux d items) { raw_bytes = bs }, rest)
  unfolding le be decode_auxiliary read_pairs
  decode_non_blocking-layout i c ch e mt payload [] rest {d} {items} h fits dec it =
      let size = 16 + length payload in
      rw (← ok-injective dec) (
        decode_non_blocking_front size i c ch e
          (payload_header_bytes mt (length payload) 0 ++ (payload ++ rest))
          (record {
            size_fits = omega arith;
            identifier_fits = h.identifier_fits;
            conversation_fits = h.conversation_fits;
            channel_fits = h.channel_fits;
          })
        ∙ decode_whole_no_auxiliary unarchive i c ch e mt payload rest h.size_fits fits it)
  decode_non_blocking-layout i c ch e mt payload (x ∷ xs) rest {d} {items} h fits dec it =
      let size = 32 + (suc (length xs) + length payload) in
      decode_non_blocking_front size i c ch e
        (payload_header_bytes mt (length payload) (suc (length xs))
          ++ (aux_header_bytes (suc (length xs)) ++ (x ∷ ((xs ++ payload) ++ rest))))
        (record {
          size_fits = omega arith;
          identifier_fits = h.identifier_fits;
          conversation_fits = h.conversation_fits;
          channel_fits = h.channel_fits;
        })
      ∙ decode_whole_auxiliary unarchive i c ch e mt payload rest x xs h.size_fits fits dec it

  -- A message that `Encode` returns is decoded from the front of any byte slice that begins with it:
  -- the fields are those that were encoded, the auxiliary has the pairs of the dictionary, and the
  -- bytes behind the message are handed back. The numbers must fit their fields, the dictionary hold
  -- arguments, the whole stay below 2^32 bytes, and the archiver accept the payload.
  pub decode_non_blocking-encode :
      (i c ch : ℕ) (e : Bool) (mt : ℕ) (payload : Bytes) (d : PrimitiveDictionary) (rest : Bytes)
      {items : List (Item O)}
      → IsHeader mt i c ch
      → IsWritable d
      → 64 + length (wire d.key_value_pairs) + length payload < 2 ^ 32
      → payload_items unarchive mt payload ≡ ok items
      → (bs : Bytes) × (encode i c ch e mt payload d ≡ ok bs)
        × (decode_non_blocking unarchive (bs ++ rest)
            ≡ ok (
              record (sent_message i c ch e mt payload
                  (wire d.key_value_pairs)
                  (of_pairs d.key_value_pairs)
                  items) { raw_bytes = bs },
              rest,
            ))
  decode_non_blocking-encode i c ch e mt payload d rest h w fits it =
      let aux = wire d.key_value_pairs in
      let (written, read) = wire-IsWritable d w in
      (
        layout (body_size aux payload) i c ch e mt payload aux,
        encode-layout i c ch e mt payload d aux written fits,
        decode_non_blocking-layout i c ch e mt payload aux rest h fits read it,
      )
