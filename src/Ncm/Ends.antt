-- ===== src/Ncm/Ends.antt =====
-- Whatever a device sends, a read comes to an end.
use go_ios.Common.{
  ℕ, zero, suc, ◌+◌, ◌-◌, ◌^◌, ◌≤◌, ◌<◌, ◌≡◌, ◌≢◌, refl, subst, Bool, true, false, not, inl, inr,
  Option, none, some, List, [], ◌∷◌, ◌++◌, length, length-drop, ltb, ◌==◌, Bool-cases,
  if◌then◌else◌, arith,
}
use go_ios.Common.Bytes.{Bytes, zeros}
use go_ios.Common.Buffer.{split?, slice, slice_from}
use go_ios.Common.Result.{Result, ok, err, need, reject, ◌>>=◌, ◌>>◌}
use go_ios.Ncm.{
  NcmError, panicked, out_of_fuel, short_header, wrong_signature, header_signature, short_block,
  u16, uint16_at, parse_for_log, read_pointers, read_block, read_datagrams, parse_ntb_header,
}

-- an error of the code's
abbrev IsOwn : NcmError → Type 0
IsOwn out_of_fuel = ⊥
IsOwn _ = Unit

abbrev Ended : {A : Type 0} → Result NcmError A → Type 0
Ended (ok a) = Unit
Ended (err e) = IsOwn e

>>=-Ended :
    {A B : Type 0} (r : Result NcmError A) (f : A → Result NcmError B)
    → Ended r
    → ((a : A) → r ≡ ok a → Ended (f a))
    → Ended (r >>= f)
>>=-Ended (ok a) f h k = k a refl
>>=-Ended (err e) f h k = h

need-Ended :
    {A B : Type 0} (e : NcmError) (o : Option A) (f : A → Result NcmError B)
    → IsOwn e
    → ((a : A) → Ended (f a))
    → Ended (need e o >>= f)
need-Ended e none f h k = h
need-Ended e (some a) f h k = k a

reject-Ended :
    {B : Type 0} (b : Bool) (e : NcmError) (m : Result NcmError B)
    → IsOwn e
    → Ended m
    → Ended (reject b e >> m)
reject-Ended true e m h k = h
reject-Ended false e m h k = k

more-Ended :
    (b : Bool) (d : Bytes) (rest : Result NcmError (List Bytes))
    → Ended rest
    → Ended ((if b then ok [] else rest) >>= λ more. ok (d ∷ more))
more-Ended true d rest h = tt
more-Ended false d (ok ds) h = tt
more-Ended false d (err e) h = h

ruleset ends = (need-Ended, reject-Ended)

uint16_at-Ended : (s : Bytes) (place : ℕ) → Ended (uint16_at s place)
unfolding uint16_at
uint16_at-Ended s place = search ends

uint16_at-le : (s : Bytes) (place : ℕ) {v : ℕ} → uint16_at s place ≡ ok v → place + 2 ≤ length s
unfolding uint16_at slice_from split?
uint16_at-le s place h = ground (arith, length-drop place s)

module _ (ethernet_panics : Bytes → Bool) where
  logged-Ended :
      {B : Type 0} (block_len index : ℕ) (datagram : Bytes) (m : Result NcmError B)
      → Ended m
      → Ended (parse_for_log ethernet_panics block_len index datagram >> m)
  unfolding parse_for_log
  logged-Ended block_len index datagram m h = reject-Ended _ panicked m tt h

  datagram-Ended :
      (block : Bytes) (index len : ℕ) (b : Bool) (rest : Result NcmError (List Bytes))
      → Ended rest
      → Ended (
          need panicked (slice block index (u16 (index + len))) >>= λ d.
          parse_for_log ethernet_panics (length block) index d
          >> ((if b then ok [] else rest) >>= λ more. ok (d ∷ more)))
  datagram-Ended block index len b rest h =
      need-Ended panicked (slice block index (u16 (index + len))) _ tt
        (λ d. logged-Ended (length block) index d _ (more-Ended b d rest h))

  module _ (block : Bytes) (pointers_len : ℕ) (pointers : Bytes) where
    read_pointers-Ended :
        (fuel pointer : ℕ)
        → pointer ≤ length pointers
        → length pointers < pointer + fuel
        → Ended (read_pointers ethernet_panics block pointers_len pointers fuel pointer)
    unfolding read_pointers
    read_pointers-Ended zero pointer h l = absurd (omega arith)
    read_pointers-Ended (suc fuel) pointer h l =
        >>=-Ended (uint16_at pointers pointer) _ (uint16_at-Ended pointers pointer) (λ index e.
          >>=-Ended (uint16_at pointers (pointer + 2)) _ (uint16_at-Ended pointers (pointer + 2))
            (λ len f.
              let within = uint16_at-le pointers (pointer + 2) f in
              let rest = read_pointers-Ended fuel (pointer + 4) (omega arith) (omega arith) in
              elim (Bool-cases (len == 0)) [
                | inl z ↦ rw z tt
                | inr z ↦ rw z (
                    datagram-Ended block index len
                      (ltb (u16 (pointers_len + 2 ^ 16 - 8)) (pointer + 4)) _ rest)
              ]))

  pointers-Ended :
      (block : Bytes) (pointers_len : ℕ) (pointers : Bytes)
      → Ended (read_pointers ethernet_panics block pointers_len pointers (length pointers + 1) 0)
  pointers-Ended block pointers_len pointers =
      read_pointers-Ended block pointers_len pointers (length pointers + 1) 0 (omega arith)
        (omega arith)

  read_block-Ended : (block : Bytes) (offset : ℕ) → Ended (read_block ethernet_panics block offset)
  unfolding read_block
  read_block-Ended block offset = search (ends, pointers-Ended) depth 9

  framed :
      (r : Result NcmError (List Bytes)) (s : Bytes)
      → Ended r
      → Ended {A = List Bytes × Bytes} (r >>= λ frames. ok (frames, s))
  framed (ok frames) s h = tt
  framed (err e) s h = h

  framed-Ended :
      (block s : Bytes) (offset : ℕ)
      → Ended {A = List Bytes × Bytes}
          (read_block ethernet_panics block offset >>= λ frames. ok (frames, s))
  framed-Ended block s offset =
      framed (read_block ethernet_panics block offset) s (read_block-Ended block offset)

  read_datagrams-Ended : (s : Bytes) → Ended (read_datagrams ethernet_panics s)
  unfolding read_datagrams
  read_datagrams-Ended s = need-Ended short_header (split? 12 s) _ tt (λ header.
      let h = parse_ntb_header header.0 in
      reject-Ended (not (h.signature == header_signature)) wrong_signature _ tt (
        reject-Ended (ltb h.block_len h.header_len) panicked _ tt (
          need-Ended short_block (split? (h.block_len - h.header_len) header.1) _ tt
            (λ body. framed-Ended (zeros h.header_len ++ body.0) body.1 h.ndp_index))))

  -- Whatever bytes a device sends, the read comes to an end, whether or not the Ethernet library panics: one round of the loop more than there are
  -- bytes for pointers is enough.
  pub read_datagrams_ends : (s : Bytes) → read_datagrams ethernet_panics s ≢ err out_of_fuel
  read_datagrams_ends s h = subst Ended h (read_datagrams-Ended s)
