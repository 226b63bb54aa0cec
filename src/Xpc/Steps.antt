-- ===== src/Xpc/Steps.antt =====
-- What each read of the decoders of ios/xpc/encoding.go takes from the input.
use go_ios.Common.{
  ℕ, ◌+◌, ◌≤◌, ◌≡◌, refl, Bool, true, false, Option, none, some, [], ◌∷◌, arith, length,
  length-drop, ltb, if◌then◌else◌, Option-cases, Bool-cases, inl, inr,
}
use go_ios.Common.Bytes.{Bytes}
use go_ios.Common.Buffer.{read_le, split?}
use go_ios.Common.Result.{Result, ok, err, need, reject, ◌>>=◌, ◌>>◌}
use go_ios.Xpc.Value.{Value, uint64, int64, double, date, calc_padding}
use go_ios.Xpc.Decode.{
  DecodeError, end_of_input, too_long, unknown_object, stuck, read_int, read_some, discard, skip,
  decode_string, decode_data, decode_uuid, decode_bool, decode_word, decode_scalar, until_zero,
  read_dictionary_key, read_count,
}

unfoldable pub Fair : DecodeError → Type 0
Fair stuck = ⊥
Fair _ = Unit

-- A result is not the end of the fuel, and a value comes with `k` bytes of `s` read at least.
unfoldable pub Runs {ℓ} : {A : Type ℓ} → ℕ → Bytes → Result DecodeError (A × Bytes) → Type 0
Runs k s (ok p) = length p.1 + k ≤ length s
Runs k s (err e) = Fair e

pub Runs->>= {ℓ κ} :
    {A : Type ℓ} {B : Type κ} (j k : ℕ) (s : Bytes) (r : Result DecodeError (A × Bytes))
    (f : A × Bytes → Result DecodeError (B × Bytes))
    → Runs j s r
    → ((p : A × Bytes) → length p.1 + j ≤ length s → Runs k s (f p))
    → Runs k s (r >>= f)
Runs->>= j k s (ok a) f h g = unfold Runs in g a h
Runs->>= j k s (err e) f h g = unfold Runs in h

pub Runs-ok {ℓ} :
    {A : Type ℓ} (k : ℕ) (s : Bytes) (a : A) (t : Bytes)
    → length t + k ≤ length s
    → Runs k s (ok (a, t))
Runs-ok k s a t h = unfold Runs in h

Runs-err {ℓ} :
    (A : Type ℓ) (k : ℕ) (s : Bytes) (e : DecodeError) → Fair e → Runs {A = A} k s (err e)
Runs-err A k s e h = unfold Runs in h

Runs-reject {ℓ} :
    {A : Type ℓ} (k : ℕ) (s : Bytes) (b : Bool) (r : Result DecodeError (A × Bytes))
    → Runs k s r
    → Runs k s (reject b too_long >> r)
Runs-reject k s true r h = unfold Runs Fair in tt
Runs-reject k s false r h = h

-- What is read from a part of `s` is read from `s`.
pub Runs-from {ℓ} :
    {A : Type ℓ} (j k : ℕ) (s t : Bytes) (r : Result DecodeError (A × Bytes))
    → length t + k ≤ length s + j
    → Runs j t r
    → Runs k s r
Runs-from j k s t (ok a) h g = unfold Runs in omega arith
Runs-from j k s t (err e) h g = unfold Runs in g

Runs-need {ℓ} :
    {A : Type ℓ} (k : ℕ) (s : Bytes) (o : Option (A × Bytes))
    → ((p : A × Bytes) → o ≡ some p → length p.1 + k ≤ length s)
    → Runs k s (need end_of_input o)
Runs-need k s none h = unfold Runs Fair in tt
Runs-need k s (some a) h = unfold Runs in h a refl

read_le-shrinks :
    (k : ℕ) (s : Bytes) (p : ℕ × Bytes) → read_le k s ≡ some p → length p.1 + k ≤ length s
unfolding read_le split?
read_le-shrinks k s p e = ground (arith, length-drop k s)

pub read_int-Runs : (k : ℕ) (s : Bytes) → Runs k s (read_int k s)
read_int-Runs k s = Runs-need k s (read_le k s) (read_le-shrinks k s)

read_some-Runs : (n : ℕ) (s : Bytes) → Runs 0 s (read_some n s)
unfolding Runs Fair read_some
read_some-Runs n [] = tt
read_some-Runs n (b ∷ s) = omega (arith, length-drop n (b ∷ s))

-- the padding behind a value
Runs-discard {ℓ} :
    {A : Type ℓ} (k n : ℕ) (s t : Bytes) (a : A)
    → length t + k ≤ length s
    → Runs k s (discard n t >>= λ u. ok (a, u))
Runs-discard k n s t a h = elim (Bool-cases (ltb (length t) n)) [
  | inl c ↦ unfold discard Runs Fair in rw (c) tt
  | inr c ↦ unfold discard Runs in rw (c) (omega (arith, length-drop n t))
]

until_zero-shrinks :
    (s : Bytes) (p : Bytes × Bytes) → until_zero s ≡ some p → length p.1 + 1 ≤ length s
unfolding until_zero
until_zero-shrinks [] p e = cc
until_zero-shrinks (b ∷ s) p e = elim (Option-cases (until_zero s)) [
  | inl c ↦ ground arith
  | inr (q, c) ↦ ground (arith, until_zero-shrinks s q c)
]

decode_word-Runs : (make : ℕ → Value) (s : Bytes) → Runs 0 s (decode_word make s)
unfolding decode_word
decode_word-Runs make s =
    Runs->>= 8 0 s (read_int 8 s) (λ p. ok (make p.0, p.1)) (read_int-Runs 8 s)
      (λ p h. unfold Runs in omega arith)

decode_string-Runs : (s : Bytes) → Runs 0 s (decode_string s)
unfolding decode_string
decode_string-Runs s = Runs->>= 4 0 s (read_int 4 s) _ (read_int-Runs 4 s) (λ p h.
    Runs-reject 0 s (ltb (length p.1) p.0) _ (
      Runs->>= 0 0 s (read_some p.0 p.1) _
        (Runs-from 0 0 s p.1 (read_some p.0 p.1) (omega arith) (read_some-Runs p.0 p.1))
        (λ q g. Runs-discard 0 (calc_padding p.0) s q.1 _ g)))

Runs-skip {ℓ} :
    {A : Type ℓ} (k n : ℕ) (s t : Bytes) (a : A)
    → length t + k ≤ length s
    → Runs {A = A} k s (ok (a, skip n t))
Runs-skip k n s t a h = unfold Runs skip in omega (arith, length-drop n t)

decode_data-Runs : (s : Bytes) → Runs 0 s (decode_data s)
unfolding decode_data
decode_data-Runs s = Runs->>= 4 0 s (read_int 4 s) _ (read_int-Runs 4 s) (λ p h.
    Runs-reject 0 s (ltb (length p.1) p.0) _ (
      Runs->>= 0 0 s (read_some p.0 p.1) _
        (Runs-from 0 0 s p.1 (read_some p.0 p.1) (omega arith) (read_some-Runs p.0 p.1))
        (λ q g. Runs-skip 0 (calc_padding p.0) s q.1 _ g)))

decode_uuid-Runs : (s : Bytes) → Runs 0 s (decode_uuid s)
unfolding decode_uuid
decode_uuid-Runs s =
    Runs->>= 0 0 s (read_some 16 s) _ (read_some-Runs 16 s) (λ p h. unfold Runs in h)

decode_bool-Runs : (s : Bytes) → Runs 0 s (decode_bool s)
unfolding decode_bool
decode_bool-Runs s =
    Runs->>= 1 0 s (read_int 1 s) _ (read_int-Runs 1 s) (λ p h. Runs-skip 0 3 s p.1 _ (omega arith))

Runs-if {ℓ} :
    {A : Type ℓ} (k : ℕ) (s : Bytes) (b : Bool) (r t : Result DecodeError (A × Bytes))
    → Runs k s r
    → Runs k s t
    → Runs k s (if b then r else t)
Runs-if k s true r t h g = h
Runs-if k s false r t h g = g

pub Runs-elim {ℓ} :
    {A : Type ℓ} (k : ℕ) (s : Bytes) (b : Bool) (r t : Result DecodeError (A × Bytes))
    → Runs k s r
    → Runs k s t
    → Runs k s (elim b [ true ↦ r | false ↦ t ])
Runs-elim k s true r t h g = h
Runs-elim k s false r t h g = g

pub decode_scalar-Runs : (t : ℕ) (s : Bytes) → Runs 0 s (decode_scalar t s)
unfolding decode_scalar Fair
decode_scalar-Runs t s = Runs-if 0 s _ _ _ (Runs-ok 0 s _ s (omega arith)) (
    Runs-if 0 s _ _ _ (decode_bool-Runs s) (
      Runs-if 0 s _ _ _ (decode_word-Runs int64 s) (
        Runs-if 0 s _ _ _ (decode_word-Runs uint64 s) (
          Runs-if 0 s _ _ _ (decode_word-Runs double s) (
            Runs-if 0 s _ _ _ (decode_word-Runs date s) (
              Runs-if 0 s _ _ _ (decode_data-Runs s) (
                Runs-if 0 s _ _ _ (decode_string-Runs s)
                  (Runs-if 0 s _ _ _ (decode_uuid-Runs s) (Runs-err _ 0 s unknown_object tt)))))))))

pub read_dictionary_key-Runs : (s : Bytes) → Runs 1 s (read_dictionary_key s)
unfolding read_dictionary_key
read_dictionary_key-Runs s =
    Runs->>= 1 1 s (need end_of_input (until_zero s)) _
      (Runs-need 1 s (until_zero s) (until_zero-shrinks s))
      (λ p h. Runs-discard 1 (calc_padding (length p.0 + 1)) s p.1 p.0 h)

pub read_count-Runs : (s : Bytes) → Runs 8 s (read_count s)
unfolding read_count
read_count-Runs s = Runs->>= 4 8 s (read_int 4 s) _ (read_int-Runs 4 s) (λ p h.
    Runs->>= 8 8 s (read_int 4 p.1) _
      (Runs-from 4 8 s p.1 (read_int 4 p.1) (omega arith) (read_int-Runs 4 p.1))
      (λ q g. Runs-reject 8 s (ltb (length q.1) q.0) _ (Runs-ok 8 s _ q.1 g)))
