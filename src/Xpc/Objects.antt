-- ===== src/Xpc/Objects.antt =====
-- One call of the decoders of ios/xpc/encoding.go on what the encoders write.
use go_ios.Common.{
  ℕ, zero, suc, ◌+◌, ◌%◌, ◌^◌, ◌<◌, ◌≤◌, ◌≡◌, refl, ◌∙◌, some, [], ◌∷◌, ◌++◌, arith, length,
  le→ltb_false, ne→==_false,
}
use go_ios.Common.Bytes.{Bytes, IsU32, IsU64, zeros, le, un_le, length-le}
use go_ios.Common.Buffer.{read_le, read_le-le, split?-append}
use go_ios.Common.Result.{ok, need, ◌>>=◌}
use go_ios.Xpc.Value.{
  uint64_type, data_type, string_type, array_type, dictionary_type, file_transfer_type, Value,
  uint64, binary, text, array, dictionary, file_transfer, Items, nil, cons, Entries, end, entry,
  calc_padding, bytes_eq, insert_entry, lookup_entry,
}
use go_ios.Xpc.Encode.{
  encode_string, encode_data, encode_uint64, encode_dictionary_key, dictionary_bytes,
}
use go_ios.Xpc.Decode.{
  decode_scalar, read_dictionary_key, read_count, transfer_size, transfer_of, decode_object,
  decode_items, decode_entries,
}
use go_ios.Xpc.Scalars.{
  IsTrimmed, read_dictionary_key-encode, decode_word-le, decode_data-encode, decode_string-encode,
}

read_word : (x : ℕ) (s : Bytes) → read_le 4 (le 4 x ++ s) ≡ some (un_le (le 4 x), s)
unfolding read_le
read_word x s = rw (split?-append (le 4 x) s 4 (length-le 4 x))

read_count-le :
    (l n : ℕ) (s : Bytes)
    → IsU32 n
    → n ≤ length s
    → read_count (le 4 l ++ (le 4 n ++ s)) ≡ ok (n, s)
unfolding read_count
read_count-le l n s h long =
    rw (read_word l (le 4 n ++ s), read_le-le 4 n s h, le→ltb_false (length s) n long)

decode_object-array :
    (f : ℕ) (s : Bytes)
    → decode_object (suc f) (le 4 array_type ++ s)
      ≡ (read_count s >>= λ c. decode_items f c.0 c.1 >>= λ r. ok (array r.0, r.1))
unfolding decode_object
decode_object-array f s = rw (read_le-le 4 array_type s (omega arith))

decode_object-dictionary :
    (f : ℕ) (s : Bytes)
    → decode_object (suc f) (le 4 dictionary_type ++ s)
      ≡ (read_count s >>= λ c. decode_entries f end c.0 c.1 >>= λ r. ok (dictionary r.0, r.1))
unfolding decode_object
decode_object-dictionary f s = rw (read_le-le 4 dictionary_type s (omega arith))

decode_object-file_transfer :
    (f m : ℕ) (s : Bytes)
    → IsU64 m
    → decode_object (suc f) (le 4 file_transfer_type ++ (le 8 m ++ s))
      ≡ (decode_object f s >>= λ d. transfer_of m d.0 >>= λ v. ok (v, d.1))
unfolding decode_object
decode_object-file_transfer f m s h =
    rw (read_le-le 4 file_transfer_type (le 8 m ++ s) (omega arith), read_le-le 8 m s h)

pub decode_object-scalar :
    (f t : ℕ) (s : Bytes)
    → IsU32 t
    → t < array_type
    → decode_object (suc f) (le 4 t ++ s) ≡ decode_scalar t s
unfolding decode_object
decode_object-scalar f t s h small = rw (
  read_le-le 4 t s h,
  need,
  ◌>>=◌,
  ne→==_false t array_type (omega arith),
  ne→==_false t dictionary_type (omega arith),
  ne→==_false t file_transfer_type (omega arith),
)

pub decode_array :
    (l f n : ℕ) (s t : Bytes) (vs : Items)
    → IsU32 n
    → n ≤ length s
    → decode_items f n s ≡ ok (vs, t)
    → decode_object (suc f) (le 4 array_type ++ (le 4 l ++ (le 4 n ++ s))) ≡ ok (array vs, t)
decode_array l f n s t vs h long e =
    decode_object-array f (le 4 l ++ (le 4 n ++ s)) ∙ rw (read_count-le l n s h long, ◌>>=◌, e)

pub decode_dictionary :
    (l f n : ℕ) (s t : Bytes) (es : Entries)
    → IsU32 n
    → n ≤ length s
    → decode_entries f end n s ≡ ok (es, t)
    → decode_object (suc f) (le 4 dictionary_type ++ (le 4 l ++ (le 4 n ++ s)))
      ≡ ok (dictionary es, t)
decode_dictionary l f n s t es h long e =
    decode_object-dictionary f (le 4 l ++ (le 4 n ++ s)) ∙ rw (read_count-le l n s h long, ◌>>=◌, e)

pub decode_transfer :
    (f m n : ℕ) (s t : Bytes)
    → IsU64 m
    → decode_object f s ≡ ok (dictionary (entry (b's' ∷ []) (uint64 n) end), t)
    → decode_object (suc f) (le 4 file_transfer_type ++ (le 8 m ++ s)) ≡ ok (file_transfer m n, t)
unfolding transfer_of transfer_size lookup_entry bytes_eq
decode_transfer f m n s t h e = decode_object-file_transfer f m s h ∙ rw (e)

pub decode_binary :
    (f : ℕ) (b rest : Bytes)
    → 0 < length b
    → IsU32 (length b)
    → decode_object (suc f) (encode_data b ++ rest) ≡ ok (binary b, rest)
unfolding le decode_scalar encode_data
decode_binary f b rest pos h =
    let small : length b % 2 ^ 32 ≡ length b = omega arith in
    rw (small) (
      decode_object-scalar f data_type
        (le 4 (length b) ++ ((b ++ zeros (calc_padding (length b))) ++ rest)) (omega arith)
        (omega arith)
      ∙ decode_data-encode b rest pos h)

pub decode_text :
    (f : ℕ) (t rest : Bytes)
    → IsTrimmed t
    → IsU32 (length t + 1)
    → decode_object (suc f) (encode_string t ++ rest) ≡ ok (text t, rest)
unfolding le decode_scalar encode_string
decode_text f t rest trimmed h =
    let small : (length t + 1) % 2 ^ 32 ≡ length t + 1 = omega arith in
    rw (small) (
      decode_object-scalar f string_type
        (le 4 (length t + 1) ++ ((t ++ zeros (calc_padding (length t + 1) + 1)) ++ rest))
        (omega arith) (omega arith)
      ∙ decode_string-encode t rest trimmed h)

pub decode_entries-step :
    (f n : ℕ) (seen : Entries) (s : Bytes) {k t : Bytes} {v : Value} {u : Bytes}
    → read_dictionary_key s ≡ ok (k, t)
    → decode_object f t ≡ ok (v, u)
    → decode_entries (suc f) seen (suc n) s ≡ decode_entries f (insert_entry k v seen) n u
decode_entries-step f n seen s d e = unfold decode_entries in rw (d, ◌>>=◌, e)

pub decode_items-step :
    (f n : ℕ) (s : Bytes) {v : Value} {t : Bytes} {vs : Items} {u : Bytes}
    → decode_object f s ≡ ok (v, t)
    → decode_items f n t ≡ ok (vs, u)
    → decode_items (suc f) (suc n) s ≡ ok (cons v vs, u)
decode_items-step f n s d e = unfold decode_items in rw (d, ◌>>=◌, e)

pub decode_items-nil : (f : ℕ) (s : Bytes) → decode_items (suc f) 0 s ≡ ok (nil, s)
decode_items-nil f s = unfold decode_items in refl

pub decode_entries-end :
    (f : ℕ) (seen : Entries) (s : Bytes) → decode_entries f seen 0 s ≡ ok (seen, s)
decode_entries-end zero seen s = unfold decode_entries in refl
decode_entries-end (suc f) seen s = unfold decode_entries in refl

pub decode_size :
    (f n : ℕ) (rest : Bytes)
    → IsU64 n
    → 3 ≤ f
    → decode_object f
        (dictionary_bytes 1 (encode_dictionary_key (b's' ∷ []) ++ encode_uint64 n) ++ rest)
      ≡ ok (dictionary (entry (b's' ∷ []) (uint64 n) end), rest)
unfolding le decode_scalar dictionary_bytes encode_uint64 encode_dictionary_key calc_padding
    insert_entry
decode_size zero n rest h g = absurd (omega arith)
decode_size (suc zero) n rest h g = absurd (omega arith)
decode_size (suc (suc zero)) n rest h g = absurd (omega arith)
decode_size (suc (suc (suc f))) n rest h g =
    decode_dictionary 20 (suc (suc f)) 1
      (encode_dictionary_key (b's' ∷ []) ++ (encode_uint64 n ++ rest)) rest
      (entry (b's' ∷ []) (uint64 n) end) (omega arith) (omega arith)
      (decode_entries-step (suc f) 0 end
          (encode_dictionary_key (b's' ∷ []) ++ (encode_uint64 n ++ rest))
          (read_dictionary_key-encode (b's' ∷ []) (encode_uint64 n ++ rest) (omega arith, tt))
          (decode_object-scalar f uint64_type (le 8 n ++ rest) (omega arith) (omega arith)
            ∙ decode_word-le uint64 n rest h)
        ∙ decode_entries-end (suc f) (insert_entry (b's' ∷ []) (uint64 n) end) rest)
