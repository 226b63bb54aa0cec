-- ===== src/Tunnel/Control/Nonces.antt =====
-- No nonce is sealed with twice.
use go_ios.Common.{
  ℕ, zero, suc, ◌+◌, ◌-◌, ◌%◌, ◌^◌, ◌≤◌, ◌<◌, ◌≡◌, ◌≢◌, refl, sym, ap, subst, ◌∙◌, Bool, Option,
  List, [], ◌∷◌, ◌++◌, length, take, take-append, All, ltb, replicate-append, Option-cases,
  Bool-cases, inl, inr, arith,
}
use go_ios.Common.Bytes.{Bytes, le, un_le, un_le-le, length-le, zeros}
use go_ios.Common.Buffer.{overlay, overlay-append}
use go_ios.Xpc.Value.{Entries}
use go_ios.Tunnel.Control.{
  ControlChannel, CipherStream, new_cipher_stream, update_nonce, cipher_write, cipher_read,
}

-- the counter in the first eight bytes
abbrev pub nonce_of : ℕ → ℕ → Bytes
nonce_of size k = le 8 k ++ zeros (size - 8)

abbrev pub nonces : ℕ → ℕ → List Bytes
nonces size zero = []
nonces size (suc k) = nonce_of size k ∷ nonces size k

abbrev pub Distinct : List Bytes → Type 0
Distinct [] = Unit
Distinct (x ∷ xs) = All (λ y. x ≢ y) xs × Distinct xs

nonce_of-ne : (size j k : ℕ) → j < k → k < 2 ^ 64 → nonce_of size k ≢ nonce_of size j
nonce_of-ne size j k h l e =
    let z = zeros (size - 8) in
    let same : le 8 k ≡ le 8 j =
      sym (take-append (le 8 k) z 8 (length-le 8 k))
      ∙ ap (take 8) e
      ∙ take-append (le 8 j) z 8 (length-le 8 j) in
    let equal : un_le (le 8 k) ≡ un_le (le 8 j) = ap un_le same in
    absurd (omega (arith, equal, un_le-le 8 k (omega arith), un_le-le 8 j (omega arith)))

nonces-ne : (size j k : ℕ) → j ≤ k → k < 2 ^ 64 → All (λ y. nonce_of size k ≢ y) (nonces size j)
nonces-ne size zero k h l = tt
nonces-ne size (suc j) k h l =
    (nonce_of-ne size j k (omega arith) l, nonces-ne size j k (omega arith) l)

nonces-Distinct : (size k : ℕ) → k ≤ 2 ^ 64 → Distinct (nonces size k)
nonces-Distinct size zero h = tt
nonces-Distinct size (suc k) h =
    (nonces-ne size k k (omega arith) (omega arith), nonces-Distinct size k (omega arith))

record Inv (size : ℕ) (s : CipherStream) : Type 0 where
  counter : Bytes
  counted : length counter ≡ 8
  shape : s.nonce ≡ counter ++ zeros (size - 8)
  used : s.used ≡ nonces size s.sequence

new_cipher_stream-Inv :
    (c : ControlChannel) (size : ℕ) → 8 ≤ size → Inv size (new_cipher_stream c size)
unfolding new_cipher_stream
new_cipher_stream-Inv c size h =
    let e : size ≡ 8 + (size - 8) = omega arith in
    record {
      counter = zeros 8;
      counted = refl;
      shape = ap zeros e ∙ replicate-append 8 (size - 8) 0;
      used = refl;
    }

module _ (accepts : ℕ → Bool) (marshal : Entries → Option Bytes)
    (seal : Bytes → Bytes → Bytes) where
  cipher_write-Inv :
      (size : ℕ) (p : Entries) (s : CipherStream)
      → s.sequence + 1 < 2 ^ 64
      → Inv size s
      → Inv size (cipher_write accepts marshal seal p s).0
        × ((cipher_write accepts marshal seal p s).0.sequence ≤ s.sequence + 1)
  unfolding cipher_write update_nonce
  cipher_write-Inv size p s room v =
      let z = zeros (size - 8) in
      let fresh : overlay (le 8 s.sequence) s.nonce ≡ nonce_of size s.sequence =
        ap (overlay (le 8 s.sequence)) v.shape
        ∙ overlay-append (le 8 s.sequence) v.counter z (v.counted ∙ sym (length-le 8 s.sequence)) in
      let next : (s.sequence + 1) % 2 ^ 64 ≡ suc s.sequence = omega arith in
      elim (Bool-cases (ltb (length s.nonce) 8)) [
        | inl e ↦ simp (cipher_write, update_nonce, e) (v, omega arith)
        | inr e ↦ elim (Option-cases (marshal p)) [
          | inl f ↦
              simp (cipher_write, update_nonce, e, f)
                (
                  record {
                    counter = le 8 s.sequence;
                    counted = length-le 8 s.sequence;
                    shape = fresh;
                    used = v.used;
                  },
                  omega arith,
                )
          | inr (x, f) ↦
              simp (cipher_write, update_nonce, e, f)
                (
                  record {
                    counter = le 8 s.sequence;
                    counted = length-le 8 s.sequence;
                    shape = fresh;
                    used =
                        ap (λ n. n ∷ s.used) fresh
                        ∙ ap (λ u. nonce_of size s.sequence ∷ u) v.used
                        ∙ ap (nonces size) (sym next);
                  },
                  omega arith,
                )
        ]
      ]

module _ (marshal : Entries → Option Bytes) (unmarshal : Bytes → Option Entries)
    (client_seal : Bytes → Bytes → Bytes) (server_open : Bytes → Bytes → Option Bytes) where
  -- writes, their number, and reads, in any order
  pub data Talks (s : CipherStream) : ℕ → CipherStream → Type 0 where
    begins : Talks s 0 s
    writes :
        (n : ℕ) (t : CipherStream) (accepts : ℕ → Bool) (p : Entries)
        → Talks s n t
        → Talks s (suc n) (cipher_write accepts marshal client_seal p t).0
    reads :
        (n : ℕ) (t : CipherStream) → Talks s n t → Talks s n (cipher_read unmarshal server_open t).0

  Talks-Inv :
      (size : ℕ) (s : CipherStream) (n : ℕ) (t : CipherStream)
      → Inv size s
      → s.sequence ≡ 0
      → n < 2 ^ 64
      → Talks s n t
      → Inv size t × (t.sequence ≤ n)
  unfolding cipher_read
  Talks-Inv size s n t v z h begins = (v, omega arith)
  Talks-Inv size s n t v z h (writes m u accepts p talk) =
      let (i, b) = Talks-Inv size s m u v z (omega arith) talk in
      let (j, c) = cipher_write-Inv accepts marshal client_seal size p u (omega arith) i in
      (j, omega arith)
  Talks-Inv size s n t v z h (reads m u talk) =
      let (i, b) = Talks-Inv size s m u v z h talk in
      (record { counter = i.counter; counted = i.counted; shape = i.shape; used = i.used }, b)

  -- A stream with nonces of eight bytes at least, through fewer than 2^64 writes and any reads, each of
  -- which may fail: the nonces that were sealed with are the counters from 0 on, in little-endian
  -- order and in front of zeros, and no two of them are the same.
  pub Talks-Distinct :
      (size : ℕ) (c : ControlChannel) (n : ℕ) (t : CipherStream)
      → 8 ≤ size
      → n < 2 ^ 64
      → Talks (new_cipher_stream c size) n t
      → (t.used ≡ nonces size t.sequence) × (t.sequence ≤ n) × Distinct t.used
  unfolding new_cipher_stream
  Talks-Distinct size c n t h l talk =
      let (i, b) =
        Talks-Inv size (new_cipher_stream c size) n t (new_cipher_stream-Inv c size h) refl l
          talk in
      (i.used, b, subst Distinct (sym i.used) (nonces-Distinct size t.sequence (omega arith)))
