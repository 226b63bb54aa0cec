-- ===== src/Dtx/Decoder/Reader.antt =====
-- `ReadMessage` on what `Encode` returns.
use go_ios.Common.{
  ℕ, suc, ◌+◌, ◌≤◌, ◌≡◌, refl, sym, ap, ◌∙◌, Bool, Option, List, [], ◌∷◌, ◌++◌, append_assoc,
  append-nil, arith, take, length, lt→ltb, le→ltb_false,
}
use go_ios.Common.Bytes.{Bytes, IsU32, le, un_le, be, un_be}
use go_ios.Common.Buffer.{split?-append}
use go_ios.Common.Result.{Result, ok, ok-injective, ◌>>=◌}
use go_ios.Dtx.Auxiliary.{PrimitiveDictionary, of_pairs, decode_auxiliary, read_pairs}
use go_ios.Dtx.Auxiliary.RoundTrip.{IsWritable, wire, wire-IsWritable}
use go_ios.Dtx.Message.{
  Message, Item, dtx_message_magic, max_message_size, has_auxiliary, has_payload, is_fragment,
}
use go_ios.Dtx.Encoder.{encode}
use go_ios.Dtx.Encoder.Layout.{
  header_bytes, payload_header_bytes, aux_header_bytes, with_header, layout, body_size,
  encode-layout,
}
use go_ios.Dtx.Decoder.{
  DecodeError, read_header, unarchive_items, read_auxiliary_part, read_payload, read_message,
}
use go_ios.Dtx.Decoder.Headers.{
  IsHeader, header_message, sent_message, sent_payload_header, sent_auxiliary_header,
  payload_length-sent, read_header-header_bytes, parse_payload_header-bytes,
  parse_auxiliary_header-bytes,
}

module _ {O : Type 0} (unarchive : Bytes → Option (List O)) where
  -- what a read of the payload gives: it always goes to the archiver
  abbrev pub read_items : Bytes → Result DecodeError (List (Item O))
  read_items [] = ok []
  read_items (y ∷ ys) = unarchive_items unarchive (y ∷ ys)

  read_payload-sent :
      (m : Message O) (mt aux : ℕ) (payload rest : Bytes) {items : List (Item O)}
      → length payload ≤ max_message_size
      → read_items payload ≡ ok items
      → read_payload unarchive
          (record m { payload_header = sent_payload_header mt (length payload) aux; payload = [] })
          (payload ++ rest)
        ≡ ok (
          record m {
            payload_header = sent_payload_header mt (length payload) aux;
            payload = items;
          },
          rest,
        )
  unfolding read_payload has_payload
  read_payload-sent m mt aux [] rest fits it = rw (payload_length-sent mt 0 aux, ← ok-injective it)
  read_payload-sent m mt aux (y ∷ ys) rest fits it = rw (
    payload_length-sent mt (length (y ∷ ys)) aux,
    lt→ltb 0 (length (y ∷ ys)) (omega arith),
    le→ltb_false max_message_size (length (y ∷ ys)) fits,
    split?-append (y ∷ ys) rest (length (y ∷ ys)) refl,
    it,
  )

  read_auxiliary_part-sent :
      (m : Message O) (mt payload x : ℕ) (xs rest : Bytes) {d : PrimitiveDictionary}
      → suc (length xs) ≤ max_message_size
      → decode_auxiliary (x ∷ xs) ≡ ok d
      → read_auxiliary_part
          (record m { payload_header = sent_payload_header mt payload (suc (length xs)) })
          (aux_header_bytes (suc (length xs)) ++ ((x ∷ xs) ++ rest))
        ≡ ok (
          record m {
            payload_header = sent_payload_header mt payload (suc (length xs));
            auxiliary_header = sent_auxiliary_header (suc (length xs));
            auxiliary = d;
          },
          rest,
        )
  unfolding read_auxiliary_part has_auxiliary
  read_auxiliary_part-sent m mt payload x xs rest fits dec = rw (
    lt→ltb 0 (with_header (suc (length xs))) (ground arith),
    split?-append (aux_header_bytes (suc (length xs))) ((x ∷ xs) ++ rest) 16 (unfold le in refl),
    parse_auxiliary_header-bytes (suc (length xs)) (omega arith),
    le→ltb_false max_message_size (suc (length xs)) fits,
    split?-append (x ∷ xs) rest (suc (length xs)) refl,
    dec,
  )

  read_message_front :
      (size i c ch : ℕ) (e : Bool) (mt payload aux : ℕ) (s : Bytes)
      → IsHeader size i c ch
      → IsU32 mt
      → IsU32 (payload + with_header aux)
      → read_message unarchive
          (header_bytes size i c ch e ++ (payload_header_bytes mt payload aux ++ s))
        ≡ (do
          (m, s3) ←
              read_auxiliary_part
                (record (header_message size i c ch e) {
                  payload_header = sent_payload_header mt payload aux;
                })
                s
          read_payload unarchive m s3)
  unfolding read_message is_fragment
  read_message_front size i c ch e mt payload aux s h hm hp = rw (
    split?-append (header_bytes size i c ch e) (payload_header_bytes mt payload aux ++ s) 32
        (unfold le be in refl),
    magic,
    header_read,
    split?-append (payload_header_bytes mt payload aux) s 16 (unfold le in refl),
    parse_payload_header-bytes mt payload aux hm hp,
  )
    where
      magic : un_be (take 4 (header_bytes size i c ch e)) ≡ dtx_message_magic
      magic = unfold le be un_le un_be in refl

      header_read : read_header {O = O} (header_bytes size i c ch e) ≡ header_message size i c ch e
      header_read =
          ap read_header (sym (append-nil (header_bytes size i c ch e)))
          ∙ read_header-header_bytes size i c ch e [] h

  read_message-layout :
      (i c ch : ℕ) (e : Bool) (mt : ℕ) (payload aux rest : Bytes) {d : PrimitiveDictionary}
      {items : List (Item O)}
      → IsHeader mt i c ch
      → length aux ≤ max_message_size
      → length payload ≤ max_message_size
      → decode_auxiliary aux ≡ ok d
      → read_items payload ≡ ok items
      → read_message unarchive (layout (body_size aux payload) i c ch e mt payload aux ++ rest)
        ≡ ok (sent_message i c ch e mt payload aux d items, rest)
  unfolding le be read_auxiliary_part has_auxiliary decode_auxiliary read_pairs
  read_message-layout i c ch e mt payload [] rest {d} {items} h fa fp dec it =
      let size = 16 + length payload in
      rw (← ok-injective dec) (
        read_message_front size i c ch e mt (length payload) 0 (payload ++ rest)
          (record {
            size_fits = omega arith;
            identifier_fits = h.identifier_fits;
            conversation_fits = h.conversation_fits;
            channel_fits = h.channel_fits;
          })
          h.size_fits (omega arith)
        ∙ read_payload-sent (header_message size i c ch e) mt 0 payload rest fp it)
  read_message-layout i c ch e mt payload (x ∷ xs) rest {d} {items} h fa fp dec it =
      let n = suc (length xs) in
      let size = 32 + (n + length payload) in
      read_message_front size i c ch e mt (length payload) n
        (aux_header_bytes n ++ ((x ∷ xs) ++ payload) ++ rest)
        (record {
          size_fits = omega arith;
          identifier_fits = h.identifier_fits;
          conversation_fits = h.conversation_fits;
          channel_fits = h.channel_fits;
        })
        h.size_fits (ground arith)
      ∙ rw
          (
            append_assoc xs payload rest,
            read_auxiliary_part-sent (header_message size i c ch e) mt (length payload) x xs
                (payload ++ rest) fa dec,
          )
          (read_payload-sent
            (record (header_message size i c ch e) {
              auxiliary_header = sent_auxiliary_header n;
              auxiliary = d;
            })
            mt n payload rest fp it)

  -- A reader that delivers a message of `Encode` and then more gives the message and is left before
  -- what follows. The numbers must fit their fields, the dictionary hold arguments, the auxiliary
  -- and the payload keep to the size limit, and the archiver accept the payload.
  pub read_message-encode :
      (i c ch : ℕ) (e : Bool) (mt : ℕ) (payload : Bytes) (d : PrimitiveDictionary) (rest : Bytes)
      {items : List (Item O)}
      → IsHeader mt i c ch
      → IsWritable d
      → length (wire d.key_value_pairs) ≤ max_message_size
      → length payload ≤ max_message_size
      → read_items payload ≡ ok items
      → (bs : Bytes) × (encode i c ch e mt payload d ≡ ok bs)
        × (read_message unarchive (bs ++ rest)
            ≡ ok (
              sent_message i c ch e mt payload
                  (wire d.key_value_pairs)
                  (of_pairs d.key_value_pairs)
                  items,
              rest,
            ))
  read_message-encode i c ch e mt payload d rest {items} h w fa fp it =
      let aux = wire d.key_value_pairs in
      let (written, read) = wire-IsWritable d w in
      (
        layout (body_size aux payload) i c ch e mt payload aux,
        encode-layout i c ch e mt payload d aux written (omega arith),
        read_message-layout i c ch e mt payload aux rest h fa fp read it,
      )
