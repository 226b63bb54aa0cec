-- ===== src/Tunnel/Framing/Packets.antt =====
-- Each read gives one packet, whole.
use mathlib.Core.Path.{ap₂}
use go_ios.Common.{
  ℕ, zero, suc, ◌+◌, ◌≤◌, ◌≡◌, refl, sym, ap, ◌∙◌, List, [], ◌∷◌, ◌++◌, append_assoc, length,
  length-append, length-take, length-drop, take, drop, take-append, drop-append, take-append-drop,
  le→ltb_false, All, arith,
}
use go_ios.Common.Bytes.{Bytes}
use go_ios.Common.Result.{ok}
use go_ios.Tunnel.Framing.{ipv6_header_len, version, payload_length, read_payload, read}

abbrev pub header_of : Bytes → Bytes
header_of p = take ipv6_header_len p

-- an IPv6 packet, by the version and the length that its header has
pub record IsPacket (p : Bytes) : Type 0 where
  pub is_ipv6 : version (header_of p) ≡ 6
  pub whole : length p ≡ ipv6_header_len + payload_length (header_of p)

abbrev pub joined : List Bytes → Bytes
joined [] = []
joined (p ∷ ps) = p ++ joined ps

-- reads into buffers of `n` bytes, one after the other
pub data Reads (n : ℕ) : Bytes → List Bytes → Bytes → Type 0 where
  done : (s : Bytes) → Reads n s [] s
  next :
      (s s' r p : Bytes) (ps : List Bytes)
      → read n s ≡ (s', ok p)
      → Reads n s' ps r
      → Reads n s (p ∷ ps) r

cut-take : (n : ℕ) (p rest : Bytes) → n ≤ length p → take n (p ++ rest) ≡ take n p
cut-take zero p rest h = refl
cut-take (suc n) [] rest h = absurd (omega arith)
cut-take (suc n) (x ∷ p) rest h = ap (◌∷◌ x) (cut-take n p rest (omega arith))

cut-drop : (n : ℕ) (p rest : Bytes) → n ≤ length p → drop n (p ++ rest) ≡ drop n p ++ rest
cut-drop zero p rest h = refl
cut-drop (suc n) [] rest h = absurd (omega arith)
cut-drop (suc n) (x ∷ p) rest h = cut-drop n p rest (omega arith)

module _ (n : ℕ) where
  read-IsPacket : (p rest : Bytes) → IsPacket p → length p ≤ n → read n (p ++ rest) ≡ (rest, ok p)
  unfolding read read_payload
  read-IsPacket p rest is fits =
      let h = header_of p in
      let q = drop 40 p in
      let l = payload_length h in
      let w = is.whole in
      let lq : length q ≡ l = omega (arith, length-drop 40 p) in
      let lr = length-append p rest in
      let ls = length-append q rest in
      rw
        (
          read,
          le→ltb_false n 40 (omega arith),
          le→ltb_false (length (p ++ rest)) 40 (omega arith),
          cut-take 40 p rest (omega arith),
          cut-drop 40 p rest (omega arith),
          read_payload,
          is.is_ipv6,
          le→ltb_false n (40 + l) (omega arith),
          le→ltb_false (length (q ++ rest)) l (omega arith),
          drop-append q rest l lq,
          take-append q rest l lq,
          take-append-drop 40 p,
        )
        refl

  abbrev pub Fit : List Bytes → Type 0
  Fit ps = All (λ p. IsPacket p × (length p ≤ n)) ps

  -- Packets that follow each other in the stream are read one by one, each by one read into a buffer
  -- that has room for it, and what follows them is left, whatever it is.
  pub Reads-joined : (ps : List Bytes) (rest : Bytes) → Fit ps → Reads n (joined ps ++ rest) ps rest
  Reads-joined [] rest h = done rest
  Reads-joined (p ∷ ps) rest h =
      let tail = joined ps ++ rest in
      let e : (p ++ joined ps) ++ rest ≡ p ++ tail = append_assoc p (joined ps) rest in
      rw e (
        next (p ++ tail) tail rest p ps (read-IsPacket p tail h.0.0 h.0.1)
          (Reads-joined ps rest h.1))

  -- what a read gives, that gives a packet
  read-value :
      (s s' p : Bytes)
      → read n s ≡ (s', ok p)
      → (40 ≤ length s)
        × (version (take 40 s) ≡ 6)
        × (40 + payload_length (take 40 s) ≤ n)
        × (payload_length (take 40 s) ≤ length (drop 40 s))
        × (p ≡ take 40 s ++ take (payload_length (take 40 s)) (drop 40 s))
        × (s' ≡ drop (payload_length (take 40 s)) (drop 40 s))
  unfolding read read_payload
  read-value s s' p e = ground arith

  -- Whatever the stream, what a read gives is one whole IPv6 packet with which the stream begins, no
  -- longer than the buffer, and what follows it is left.
  pub read-whole :
      (s s' p : Bytes) → read n s ≡ (s', ok p) → (s ≡ p ++ s') × IsPacket p × (length p ≤ n)
  read-whole s s' p e =
      let h = take 40 s in
      let q = drop 40 s in
      let l = payload_length h in
      let (long, six, room, enough, is_p, is_s') = read-value s s' p e in
      let lh : length h ≡ 40 = omega (arith, length-take 40 s) in
      let lt : length (take l q) ≡ l = omega (arith, length-take l q) in
      let head : header_of p ≡ h = ap header_of is_p ∙ take-append h (take l q) 40 lh in
      let lp : length p ≡ 40 + l = ap length is_p ∙ length-append h (take l q) ∙ omega arith in
      (
        sym (
            ap₂ ◌++◌ is_p is_s'
            ∙ append_assoc h (take l q) (drop l q)
            ∙ ap (λ x. h ++ x) (take-append-drop l q)
            ∙ take-append-drop 40 s),
        record {
          is_ipv6 = ap version head ∙ six;
          whole = lp ∙ sym (ap (λ x. 40 + payload_length x) head);
        },
        omega arith,
      )
