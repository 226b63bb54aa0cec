-- ===== src/Dtx/Encoder/Layout.antt =====
-- The buffer that `Encode` returns, as the concatenation of its parts.
use go_ios.Common.{
  ℕ, ◌+◌, ◌%◌, ◌^◌, ◌<◌, ◌≡◌, refl, ap, ◌∙◌, Bool, some, [], ◌∷◌, ◌++◌, arith, length, replicate,
  replicate-append, length-replicate, ltb, ne→==_false, if◌then◌else◌,
}
use native.Mathlib.Nat.{mod-eq_of_lt}
use go_ios.Common.Bytes.{Bytes, zeros, le, be}
use go_ios.Common.Buffer.{copy_at, overlay_all, overlay-append, copy_at-end}
use go_ios.Common.Result.{ok}
use go_ios.Dtx.Auxiliary.{PrimitiveDictionary, to_bytes}
use go_ios.Dtx.Message.{dtx_message_magic, dtx_message_header_length}
use go_ios.Dtx.Encoder.{
  write_header, write_payload_header, write_aux_header, write_body, message_length_of, encode_with,
  encode,
}

-- the 32 bytes of `writeHeader`
abbrev pub header_bytes : ℕ → ℕ → ℕ → ℕ → Bool → Bytes
header_bytes size identifier conversation_index channel_code expects_reply =
    be 4 dtx_message_magic
    ++ (le 4 dtx_message_header_length
        ++ (le 2 0
            ++ (le 2 1
                ++ (le 4 size
                    ++ (le 4 identifier
                        ++ (le 4 conversation_index
                            ++ (le 4 channel_code ++ le 4 (if expects_reply then 1 else 0))))))))

-- the length that the payload header gives the auxiliary, its own header included
abbrev pub with_header : ℕ → ℕ
with_header aux = if ltb 0 aux then aux + 16 else aux

abbrev pub payload_header_bytes : ℕ → ℕ → ℕ → Bytes
payload_header_bytes message_type payload aux =
    le 4 message_type ++ (le 4 (with_header aux) ++ (le 4 (payload + with_header aux) ++ le 4 0))

abbrev pub aux_header_bytes : ℕ → Bytes
aux_header_bytes n = le 4 496 ++ (le 4 0 ++ (le 4 n ++ le 4 0))

abbrev pub aux_part : Bytes → Bytes
aux_part [] = []
aux_part (x ∷ xs) = aux_header_bytes (length (x ∷ xs)) ++ (x ∷ xs)

abbrev pub layout : ℕ → ℕ → ℕ → ℕ → Bool → ℕ → Bytes → Bytes → Bytes
layout size identifier conversation_index channel_code expects_reply message_type payload aux =
    header_bytes size identifier conversation_index channel_code expects_reply
    ++ (payload_header_bytes message_type (length payload) (length aux)
        ++ (aux_part aux ++ payload))

write_header-zeros :
    (size i c ch : ℕ) (e : Bool) (rest : Bytes)
    → write_header size i c ch e (replicate 32 0 ++ rest) ≡ ok (header_bytes size i c ch e ++ rest)
unfolding write_header le be
write_header-zeros size i c ch e rest = refl

module _ (size i c ch : ℕ) (e : Bool) where
  write_payload_header-zeros :
      (mt payload aux : ℕ) (rest : Bytes)
      → with_header aux < 2 ^ 32
      → write_payload_header mt payload aux (header_bytes size i c ch e ++ (replicate 16 0 ++ rest))
        ≡ ok (header_bytes size i c ch e ++ (payload_header_bytes mt payload aux ++ rest))
  unfolding write_payload_header le be
  write_payload_header-zeros mt payload aux rest h = rw (mod-eq_of_lt h)

  write_aux_header-zeros :
      (mt payload aux n : ℕ) (rest : Bytes)
      → write_aux_header n (
          header_bytes size i c ch e
          ++ (payload_header_bytes mt payload aux ++ (replicate 16 0 ++ rest)))
        ≡ ok (
            header_bytes size i c ch e
            ++ (payload_header_bytes mt payload aux ++ (aux_header_bytes n ++ rest)))
  unfolding write_aux_header le be
  write_aux_header-zeros mt payload aux n rest = refl

  copy_payload :
      (mt n aux : ℕ) (payload : Bytes)
      → copy_at 48 payload (
          header_bytes size i c ch e
          ++ (payload_header_bytes mt n aux ++ replicate (length payload) 0))
        ≡ some (header_bytes size i c ch e ++ (payload_header_bytes mt n aux ++ payload))
  unfolding copy_at le be
  copy_payload mt n aux payload = rw (overlay_all payload)

  copy_aux :
      (mt n m : ℕ) (aux rest : Bytes)
      → copy_at 64 aux (
          header_bytes size i c ch e
          ++ (payload_header_bytes mt n m
              ++ (aux_header_bytes (length aux) ++ (replicate (length aux) 0 ++ rest))))
        ≡ some (
            header_bytes size i c ch e
            ++ (payload_header_bytes mt n m ++ (aux_header_bytes (length aux) ++ (aux ++ rest))))
  unfolding copy_at le be
  copy_aux mt n m aux rest =
      rw (overlay-append aux (replicate (length aux) 0) rest (length-replicate (length aux) 0))

  copy_behind_aux :
      (mt n m : ℕ) (aux payload : Bytes)
      → copy_at (64 + length aux) payload (
          header_bytes size i c ch e
          ++ (payload_header_bytes mt n m
              ++ (aux_header_bytes (length aux) ++ (aux ++ replicate (length payload) 0))))
        ≡ some (
            header_bytes size i c ch e
            ++ (payload_header_bytes mt n m ++ (aux_header_bytes (length aux) ++ (aux ++ payload))))
  unfolding le be
  copy_behind_aux mt n m aux payload =
      let front =
        header_bytes size i c ch e
        ++ (payload_header_bytes mt n m ++ (aux_header_bytes (length aux) ++ aux)) in
      copy_at-end front payload (64 + length aux) (omega arith)

zeros_behind_48 : (n : ℕ) → zeros (48 + n) ≡ zeros 32 ++ (zeros 16 ++ zeros n)
zeros_behind_48 n = replicate-append {A = ℕ} 48 n 0

zeros_behind_64 :
    (a p : ℕ) → zeros (64 + (a + p)) ≡ zeros 32 ++ (zeros 16 ++ (zeros 16 ++ (zeros a ++ zeros p)))
zeros_behind_64 a p =
    replicate-append {A = ℕ} 64 (a + p) 0 ∙ ap (λ z. zeros 64 ++ z) (replicate-append {A = ℕ} a p 0)

message_length_of_some :
    (a p : ℕ) → 0 < a → 64 + a + p < 2 ^ 32 → message_length_of a p ≡ 32 + (a + p)
unfolding message_length_of
message_length_of_some a p pos h = ground arith

module _ (i c ch : ℕ) (e : Bool) (mt : ℕ) (payload : Bytes) where
  encode_with_no_auxiliary :
      64 + length payload < 2 ^ 32
      → encode_with i c ch e mt payload []
        ≡ ok (layout (16 + length payload) i c ch e mt payload [])
  unfolding encode_with message_length_of write_body
  encode_with_no_auxiliary fits =
      rw
        (
          small,
          room,
          zeros_behind_48 (length payload),
          write_header-zeros (16 + length payload) i c ch e,
          write_payload_header-zeros (16 + length payload) i c ch e mt (length payload) 0 _
              (omega arith),
          copy_payload (16 + length payload) i c ch e mt (length payload) 0 payload,
        )
        refl
    where
      small : (16 + (0 + length payload) % 2 ^ 32 + 0) % 2 ^ 32 ≡ 16 + length payload
      small = omega arith

      room : (32 + (16 + length payload)) % 2 ^ 32 ≡ 48 + length payload
      room = omega arith

  encode_with_auxiliary :
      (x : ℕ) (xs : Bytes)
      → 64 + length (x ∷ xs) + length payload < 2 ^ 32
      → encode_with i c ch e mt payload (x ∷ xs)
        ≡ ok (layout (32 + (length (x ∷ xs) + length payload)) i c ch e mt payload (x ∷ xs))
  unfolding encode_with write_body
  encode_with_auxiliary x xs fits =
      rw
        (
          small,
          room,
          zeros_behind_64 n (length payload),
          write_header-zeros size i c ch e,
          write_payload_header-zeros size i c ch e mt (length payload) n _ bounded,
          write_aux_header-zeros size i c ch e mt (length payload) n n,
          copy_aux size i c ch e mt (length payload) n (x ∷ xs),
        )
        (unfold le in
          rw (
            ne→==_false n 0 (omega arith),
            copy_behind_aux size i c ch e mt (length payload) n (x ∷ xs) payload,
          ))
    where
      n : ℕ
      n = length (x ∷ xs)

      size : ℕ
      size = 32 + (n + length payload)

      bounded : with_header n < 2 ^ 32
      bounded = ground arith

      small : message_length_of n (length payload) ≡ size
      small = message_length_of_some n (length payload) (omega arith) (omega arith)

      room : (32 + size) % 2 ^ 32 ≡ 64 + (n + length payload)
      room = omega arith

-- `messageLength`: what follows the first header
abbrev pub body_size : Bytes → Bytes → ℕ
body_size [] payload = 16 + length payload
body_size (x ∷ xs) payload = 32 + (length (x ∷ xs) + length payload)

-- With a total below 2^32 nothing is cut off: `Encode` returns the concatenation of the message
-- header, the payload header, the auxiliary with its header if it has bytes, and the payload.
pub encode-layout :
    (i c ch : ℕ) (e : Bool) (mt : ℕ) (payload : Bytes) (d : PrimitiveDictionary) (aux : Bytes)
    → to_bytes d ≡ ok aux
    → 64 + length aux + length payload < 2 ^ 32
    → encode i c ch e mt payload d ≡ ok (layout (body_size aux payload) i c ch e mt payload aux)
unfolding encode
encode-layout i c ch e mt payload d [] w fits =
    rw w (encode_with_no_auxiliary i c ch e mt payload (omega arith))
encode-layout i c ch e mt payload d (x ∷ xs) w fits =
    rw w (encode_with_auxiliary i c ch e mt payload x xs (omega arith))
