-- ===== src/Xpc/Scalars.antt =====
-- The round trip of the objects that hold no other, and of dictionary keys.
use go_ios.Common.{
  ℕ, zero, suc, ◌+◌, ◌-◌, ◌<◌, ◌≤◌, ◌≡◌, ◌≢◌, refl, ap, ◌∙◌, Bool, true, false, some, [], ◌∷◌, ◌++◌,
  append_assoc, append-nil, arith, length, length-append, length-replicate, take-append,
  drop-append, All, if◌then◌else◌, le→ltb_false, ne→==_false,
}
use mathlib.Core.List.{reverse, reverse-append}
use native.Mathlib.Numerals.{add-one}
use go_ios.Common.Bytes.{Bytes, IsU32, IsU64, zeros, le, un_le}
use go_ios.Common.Buffer.{read_le, read_le-le, split?}
use go_ios.Common.Result.{ok}
use go_ios.Xpc.Value.{Value, bool, binary, text, uuid, calc_padding}
use go_ios.Xpc.Encode.{encode_dictionary_key}
use go_ios.Xpc.Decode.{
  read_some, discard, trim_left, trim_right, trim, skip, decode_string, decode_data, decode_uuid,
  decode_bool, decode_word, until_zero, read_dictionary_key,
}

no_zeros : (n : ℕ) → n ≡ 0 → zeros n ≡ []
no_zeros n e = ap zeros e

read_some-append :
    (a s : Bytes) (n : ℕ)
    → length a ≡ n
    → 0 < length a + length s
    → read_some n (a ++ s) ≡ ok (a, s)
unfolding read_some
read_some-append [] [] n e h = absurd (omega arith)
read_some-append [] (x ∷ s) zero e h = rw (no_zeros (0 - suc (length s)) (omega arith))
read_some-append [] (x ∷ s) (suc n) e h = absurd (omega arith)
read_some-append (x ∷ a) s n e h = rw (
  take-append (x ∷ a) s n e,
  drop-append (x ∷ a) s n e,
  no_zeros (n - suc (length (a ++ s))) (omega (arith, length-append a s)),
  append-nil a,
)

discard-append : (a s : Bytes) (n : ℕ) → length a ≡ n → discard n (a ++ s) ≡ ok s
unfolding discard
discard-append a s n e =
    rw (le→ltb_false (length (a ++ s)) n (omega (arith, length-append a s)), drop-append a s n e)

discard-zeros : (n : ℕ) (s : Bytes) → discard n (zeros n ++ s) ≡ ok s
discard-zeros n s = discard-append (zeros n) s n (length-replicate n 0)

zeros_suc : (n : ℕ) → zeros (n + 1) ≡ 0 ∷ zeros n
zeros_suc n = ap zeros (add-one n)

-- A key holds no byte 0.
abbrev pub IsKey : Bytes → Type 0
IsKey k = All (λ b. b ≢ 0) k

until_zero-IsKey : (k s : Bytes) → IsKey k → until_zero (k ++ (0 ∷ s)) ≡ some (k, s)
unfolding until_zero
until_zero-IsKey [] s h = refl
until_zero-IsKey (b ∷ k) s (hb, h) = rw (ne→==_false b 0 hb, until_zero-IsKey k s h)

pub read_dictionary_key-encode :
    (k s : Bytes) → IsKey k → read_dictionary_key (encode_dictionary_key k ++ s) ≡ ok (k, s)
unfolding read_dictionary_key encode_dictionary_key
read_dictionary_key-encode k s h =
    let p = calc_padding (length k + 1) in
    rw (
      append_assoc k (zeros (p + 1)) s,
      zeros_suc p,
      until_zero-IsKey k (zeros p ++ s) h,
      discard-zeros p s,
    )

pub length-encode_dictionary_key : (k : Bytes) → length k + 1 ≤ length (encode_dictionary_key k)
unfolding encode_dictionary_key
length-encode_dictionary_key k =
    let p = calc_padding (length k + 1) in
    omega (arith, length-append k (zeros (p + 1)), length-replicate {A = ℕ} (p + 1) 0)

pub decode_word-le :
    (make : ℕ → Value) (i : ℕ) (s : Bytes)
    → IsU64 i
    → decode_word make (le 8 i ++ s) ≡ ok (make i, s)
unfolding decode_word
decode_word-le make i s h = rw (read_le-le 8 i s h)

pub decode_bool-encode :
    (b : Bool) (s : Bytes) → decode_bool ((if b then 1 else 0) ∷ (zeros 3 ++ s)) ≡ ok (bool b, s)
unfolding decode_bool read_le split? un_le skip
decode_bool-encode true s = rw (le→ltb_false (length (1 ∷ (zeros 3 ++ s))) 1 (omega arith))
decode_bool-encode false s = rw (le→ltb_false (length (0 ∷ (zeros 3 ++ s))) 1 (omega arith))

pub decode_data-encode :
    (b s : Bytes)
    → 0 < length b
    → IsU32 (length b)
    → decode_data (le 4 (length b) ++ ((b ++ zeros (calc_padding (length b))) ++ s))
      ≡ ok (binary b, s)
unfolding decode_data skip
decode_data-encode b s pos h =
    let p = calc_padding (length b) in
    rw (
      read_le-le 4 (length b) ((b ++ zeros p) ++ s) h,
      append_assoc b (zeros p) s,
      le→ltb_false (length (b ++ (zeros p ++ s))) (length b)
          (omega (arith, length-append b (zeros p ++ s))),
      read_some-append b (zeros p ++ s) (length b) refl (omega arith),
      drop-append (zeros p) s p (length-replicate p 0),
    )

-- A string that `strings.Trim` leaves alone: it neither begins nor ends with a byte 0.
pub record IsTrimmed (s : Bytes) : Type 0 where
  pub left_trimmed : trim_left s ≡ s
  pub right_trimmed : trim_right s ≡ s

length-trim_left : (s : Bytes) → length (trim_left s) ≤ length s
unfolding trim_left
length-trim_left [] = omega arith
length-trim_left (b ∷ s) = ground (arith, length-trim_left s)

trim_right-terminated : (s : Bytes) → trim_right (s ++ (0 ∷ [])) ≡ trim_right s
unfolding trim_right
trim_right-terminated s =
    ap (λ r. reverse (trim_left r)) (reverse-append s (0 ∷ [])) ∙ unfold trim_left in refl

-- Only a byte 0 at the front is taken off.
trim_left-ne : (b : ℕ) (s : Bytes) → trim_left (b ∷ s) ≡ b ∷ s → b ≢ 0
trim_left-ne b s e z =
    let long = ap length e in let short = length-trim_left s in unfold trim_left in ground arith

trim-terminated : (s : Bytes) → IsTrimmed s → trim (s ++ (0 ∷ [])) ≡ s
unfolding trim
trim-terminated [] t = unfold trim_left trim_right in refl
trim-terminated (b ∷ s) t = ap trim_right kept ∙ trim_right-terminated (b ∷ s) ∙ t.right_trimmed
  where
    kept : trim_left ((b ∷ s) ++ (0 ∷ [])) ≡ (b ∷ s) ++ (0 ∷ [])
    kept = let ne = trim_left-ne b s t.left_trimmed in unfold trim_left in rw (ne→==_false b 0 ne)

pub decode_string-encode :
    (t s : Bytes)
    → IsTrimmed t
    → IsU32 (length t + 1)
    → decode_string (le 4 (length t + 1) ++ ((t ++ zeros (calc_padding (length t + 1) + 1)) ++ s))
      ≡ ok (text t, s)
unfolding decode_string
decode_string-encode t s trimmed h =
    let p = calc_padding (length t + 1) in
    let len = length-append t (0 ∷ []) in
    rw (
      read_le-le 4 (length t + 1) ((t ++ zeros (p + 1)) ++ s) h,
      zeros_suc p,
      append_assoc t (0 ∷ zeros p) s,
      ← append_assoc t (0 ∷ []) (zeros p ++ s),
      le→ltb_false (length ((t ++ (0 ∷ [])) ++ (zeros p ++ s))) (length t + 1)
          (omega (arith, len, length-append (t ++ (0 ∷ [])) (zeros p ++ s))),
      read_some-append (t ++ (0 ∷ [])) (zeros p ++ s) (length t + 1) (omega (arith, len))
          (omega (arith, len)),
      discard-zeros p s,
      trim-terminated t trimmed,
    )

pub decode_uuid-encode : (u s : Bytes) → length u ≡ 16 → decode_uuid (u ++ s) ≡ ok (uuid u, s)
unfolding decode_uuid
decode_uuid-encode u s h = rw (read_some-append u s 16 h (omega arith))
