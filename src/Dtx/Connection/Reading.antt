-- ===== src/Dtx/Connection/Reading.antt =====
-- The reader of a connection comes to an end.
use go_ios.Common.{
  ℕ, zero, suc, ◌+◌, ◌<◌, ◌≤◌, ◌≡◌, refl, ap, subst, ◌∙◌, ◌==◌, take, Bool, true, not, Option, some,
  List, [], ◌∷◌, inl, inr, Bool-cases, Option-cases, length, length-append, leb, ltb, ◌||◌, ◌^◌,
  arith,
}
use go_ios.Common.Bytes.{Bytes, un_be}
use go_ios.Common.Buffer.{split?, split?-eq-some}
use go_ios.Common.Result.{Result, ok, err, Result-cases, need, wrap, reject, ◌>>=◌}
use go_ios.Dtx.Message.{
  Message, max_message_size, payload_length, has_payload, has_auxiliary, is_fragment,
  is_first_fragment, dtx_message_magic,
}
use go_ios.Dtx.Decoder.{
  DecodeError, short_read, out_of_range, auxiliary_fault, incomplete, wrong_header_length,
  not_an_archive, slice_panicked, parse_auxiliary_header, parse_payload_header, read_header,
  out_of_sync, unarchive_items, read_message, read_payload, read_auxiliary_part, read_fragment,
}
use go_ios.Dtx.Auxiliary.{decode_auxiliary}
use go_ios.Dtx.Connection.{Connection, ConnectionError, read_failed, ended, close, route, reader}
use go_ios.Dtx.Connection.Entries.{Inv, Leaves, >>=-Leaves}
use go_ios.Dtx.Connection.Upkeep.{route-Inv}
use go_ios.Dtx.Connection.Steps.{close-Inv}

-- what is left of a reader
abbrev Rests : {O : Type 0} → ℕ → Result DecodeError (Message O × Bytes) → Type 0
Rests n (ok (m, rest)) = length rest ≤ n
Rests n (err e) = Unit

read_full-length :
    (n : ℕ) (s : Bytes) (p : Bytes × Bytes)
    → need short_read (split? n s) ≡ ok p
    → length s ≡ n + length p.1
read_full-length n s p e = elim (Option-cases (split? n s)) [
  | inl missing ↦ ground arith
  | inr ((a, b), found) ↦
      let (eq, len) = split?-eq-some n s {a = a} {b = b} found in
      let same : p.1 ≡ b = ground arith in
      ap length eq ∙ omega (arith, length-append a b, ap length same)
]

module _ {O : Type 0} where
  >>=-Rests {ℓ} :
      {A : Type ℓ} (n : ℕ) (r : Result DecodeError A)
      (f : A → Result DecodeError (Message O × Bytes))
      → ((a : A) → r ≡ ok a → Rests n (f a))
      → Rests n (r >>= f)
  >>=-Rests n (ok a) f h = h a refl
  >>=-Rests n (err e) f h = tt

  Rests-mono :
      (m n : ℕ) (r : Result DecodeError (Message O × Bytes)) → m ≤ n → Rests m r → Rests n r
  Rests-mono m n (ok (x, rest)) h b = omega arith
  Rests-mono m n (err e) h b = tt

  read_fragment-Rests : (m : Message O) (s : Bytes) → Rests (length s) (read_fragment m s)
  unfolding read_fragment
  read_fragment-Rests m s =
      >>=-Rests (length s)
        (reject (leb (2 ^ 63) m.message_length || ltb max_message_size m.message_length)
          out_of_range)
        _
        λ u _.
          >>=-Rests (length s) (need short_read (split? m.message_length s)) _
            λ p e. omega (arith, read_full-length m.message_length s p e)

  read_auxiliary_part-Rests :
      (m : Message O) (s : Bytes) → Rests (length s) (read_auxiliary_part m s)
  unfolding read_auxiliary_part
  read_auxiliary_part-Rests m s = elim (Bool-cases (has_auxiliary m)) [
    | inr e ↦ rw (e) (omega arith)
    | inl e ↦ rw (e) (
        >>=-Rests (length s) (need short_read (split? 16 s)) _ λ p h.
          >>=-Rests (length s)
            (reject (ltb max_message_size (parse_auxiliary_header p.0).auxiliary_size) out_of_range)
            _
            λ u _.
              >>=-Rests (length s)
                (need short_read (split? (parse_auxiliary_header p.0).auxiliary_size p.1)) _
                λ q k. >>=-Rests (length s) (wrap auxiliary_fault (decode_auxiliary q.0)) _ λ d _.
                  omega (
                    arith,
                    read_full-length 16 s p h,
                    read_full-length (parse_auxiliary_header p.0).auxiliary_size p.1 q k,
                  ))
  ]

module _ {O : Type 0} (unarchive : Bytes → Option (List O)) where
  read_payload-Rests : (m : Message O) (s : Bytes) → Rests (length s) (read_payload unarchive m s)
  unfolding read_payload
  read_payload-Rests m s = elim (Bool-cases (has_payload m)) [
    | inr e ↦ rw (e) (omega arith)
    | inl e ↦ rw (e) (
        >>=-Rests (length s)
          (reject (ltb max_message_size (payload_length m.payload_header)) out_of_range) _
          λ u _.
            >>=-Rests (length s) (need short_read (split? (payload_length m.payload_header) s)) _
              λ p h.
                >>=-Rests (length s) (unarchive_items unarchive p.0) _ λ items _.
                  omega (arith, read_full-length (payload_length m.payload_header) s p h))
  ]

  read_body-Rests :
      (m : Message O) (s : Bytes)
      → Rests (length s) (do
        (ph, s2) ← need short_read (split? 16 s)
        (m1, s3) ← read_auxiliary_part (record m { payload_header = parse_payload_header ph }) s2
        read_payload unarchive m1 s3)
  read_body-Rests m s = >>=-Rests (length s) (need short_read (split? 16 s)) _ λ p h.
      let m' = record m { payload_header = parse_payload_header p.0 } in
      >>=-Rests (length s) (read_auxiliary_part m' p.1) _ λ q k.
        let left : length q.1 ≤ length p.1 =
          subst (Rests (length p.1)) k (read_auxiliary_part-Rests m' p.1) in
        Rests-mono (length q.1) (length s) (read_payload unarchive q.0 q.1)
          (omega (arith, read_full-length 16 s p h)) (read_payload-Rests q.0 q.1)

  -- A message takes bytes of the reader.
  read_message-Rests : (n : ℕ) (s : Bytes) → length s ≤ suc n → Rests n (read_message unarchive s)
  unfolding read_message
  read_message-Rests n s fits = >>=-Rests n (need short_read (split? 32 s)) _ λ p h.
      let left : length p.1 ≤ n = omega (arith, read_full-length 32 s p h) in
      >>=-Rests n (reject (not (un_be (take 4 p.0) == dtx_message_magic)) out_of_sync) _ λ u _.
        elim (Bool-cases (is_fragment (read_header {O = O} p.0))) [
          | inr e ↦
              rw (e) (Rests-mono (length p.1) n _ left (read_body-Rests (read_header p.0) p.1))
          | inl e ↦ elim (Bool-cases (is_first_fragment (read_header {O = O} p.0))) [
            | inl f ↦ rw (e, f) left
            | inr f ↦
                rw (e, f)
                  (Rests-mono (length p.1) n _ left (read_fragment-Rests (read_header p.0) p.1))
          ]
        ]

  read_message-lt :
      (s : Bytes) {msg : Message O} {rest : Bytes}
      → read_message unarchive s ≡ ok (msg, rest)
      → suc (length rest) ≤ length s
  unfolding read_message split?
  read_message-lt [] e = cc
  read_message-lt (x ∷ xs) e =
      let b = subst (Rests (length xs)) e (read_message-Rests (length xs) (x ∷ xs) (omega arith)) in
      omega (arith, b)

close-closed_after :
    {O : Type 0} (e : Option ConnectionError) (c : Connection O) → (close e c).closed ≡ true
unfolding close
close-closed_after e c = ground arith

module _ {O : Type 0} (unarchive : Bytes → Option (List O)) (as_string : O → Option Bytes) where
  closed-Leaves :
      (e : Option ConnectionError) (c : Connection O)
      → Inv c
      → ((close e c).closed ≡ true) × Inv (close e c)
  closed-Leaves e c i = (close-closed_after e c, close-Inv e c i)

  ended-Leaves :
      (e : DecodeError) (c : Connection O)
      → Inv c
      → Leaves (λ c'. (c'.closed ≡ true) × Inv c') (ended unarchive as_string e c)
  unfolding ended
  ended-Leaves incomplete c i = closed-Leaves (some (read_failed incomplete)) c i
  ended-Leaves out_of_sync c i = closed-Leaves (some (read_failed out_of_sync)) c i
  ended-Leaves wrong_header_length c i = closed-Leaves (some (read_failed wrong_header_length)) c i
  ended-Leaves short_read c i = closed-Leaves (some (read_failed short_read)) c i
  ended-Leaves out_of_range c i = closed-Leaves (some (read_failed out_of_range)) c i
  ended-Leaves not_an_archive c i = closed-Leaves (some (read_failed not_an_archive)) c i
  ended-Leaves slice_panicked c i = tt
  ended-Leaves (auxiliary_fault f) c i = tt

module _ {O : Type 0} (unarchive : Bytes → Option (List O)) (as_string : O → Option Bytes) where
  -- With one round more than there are bytes, the reader of a connection in order comes to an end,
  -- whatever the bytes are: it panics or is blocked, or it has closed the connection, whose channels
  -- are in order still.
  pub reader_ends :
      (accepts : ℕ → Bool) (fuel : ℕ) (s : Bytes) (c : Connection O)
      → length s < fuel
      → Inv c
      → Leaves (λ c'. (c'.closed ≡ true) × Inv c') (reader unarchive as_string accepts fuel s c)
  unfolding reader
  reader_ends accepts zero s c h i = absurd (omega arith)
  reader_ends accepts (suc fuel) s c h i = elim (Result-cases (read_message unarchive s)) [
    | inr (e, failed) ↦ rw (reader, failed) (ended-Leaves unarchive as_string e c i)
    | inl ((msg, rest), read) ↦
        let left : suc (length rest) ≤ length s =
          read_message-lt unarchive s {msg = msg} {rest = rest} read in
        rw (reader, read)
          (>>=-Leaves Inv (λ c'. (c'.closed ≡ true) × Inv c')
            (route unarchive as_string (accepts fuel) msg c)
            (reader unarchive as_string accepts fuel rest)
            (route-Inv unarchive as_string (accepts fuel) msg c i)
            λ d j. reader_ends accepts fuel rest d (omega arith) j)
  ]
