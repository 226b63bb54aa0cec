-- ===== src/PlistCodec/Stream.antt =====
-- Messages one behind the other on one connection.
use go_ios.Common.{
  ℕ, zero, suc, ◌%◌, ◌^◌, ◌<◌, ◌≤◌, ◌≡◌, refl, sym, ◌∙◌, Option, some, List, [], ◌∷◌, ◌++◌,
  append_assoc, append-nil, arith, length, ltb, le→ltb_false,
}
use go_ios.Common.Bytes.{Bytes, be, length-be, un_be-be}
use go_ios.Common.Buffer.{split?, split?-append}
use go_ios.Common.Result.{Result, ok, reject, need, ◌>>=◌, ◌>>◌}
use go_ios.PlistCodec.{
  PlistError, too_large, short_payload, max_message_size, encode, write, decode, read,
}

-- The plists that are within the size limit.
abbrev pub Fits : Bytes → Type 0
Fits s = length s ≤ max_message_size

decode-be :
    (n : ℕ) (s : Bytes)
    → n < 2 ^ 32
    → decode (be 4 n ++ s)
      ≡ (reject (ltb max_message_size n) too_large >> need short_payload (split? n s))
unfolding decode
decode-be n s h = rw (split?-append (be 4 n) s 4 (length-be 4 n), un_be-be 4 n h)

module _ {M : Type 0} (to_plist : M → Bytes) where
  unfoldable pub write_all : Bytes → List M → Bytes
  write_all w [] = w
  write_all w (m ∷ ms) = write_all (write to_plist w m) ms

module _ {V : Type 0} (unmarshal : Bytes → Option V) where
  -- `Read` as often as there are messages.
  unfoldable pub read_many : ℕ → Bytes → Result PlistError (List V × Bytes)
  read_many zero r = ok ([], r)
  read_many (suc n) r = do (v, r1) ← read unmarshal r; (vs, r2) ← read_many n r1; ok (v ∷ vs, r2)

module _ {M V : Type 0} (to_plist : M → Bytes) (unmarshal : Bytes → Option V) where
  -- The parser gives the values back whose plists these are.
  unfoldable pub AreParsed : List M → List V → Type 0
  AreParsed [] [] = Unit
  AreParsed (m ∷ ms) (v ∷ vs) =
      Fits (to_plist m) × (unmarshal (to_plist m) ≡ some v) × AreParsed ms vs
  AreParsed _ _ = ⊥

  decode-encode :
      (m : M) (rest : Bytes)
      → Fits (to_plist m)
      → decode (encode to_plist m ++ rest) ≡ ok (to_plist m, rest)
  unfolding encode
  decode-encode m rest h =
      let s = to_plist m in
      let small : length s % 2 ^ 32 ≡ length s = omega arith in
      rw (small, append_assoc (be 4 (length s)) s rest)
        (decode-be (length s) (s ++ rest) (omega arith)
          ∙ rw (le→ltb_false max_message_size (length s) h, split?-append s rest (length s) refl))

  read-encode :
      (m : M) (v : V) (rest : Bytes)
      → Fits (to_plist m)
      → unmarshal (to_plist m) ≡ some v
      → read unmarshal (encode to_plist m ++ rest) ≡ ok (v, rest)
  unfolding read
  read-encode m v rest h e = rw (decode-encode m rest h, ◌>>=◌, e)

  sent : List M → Bytes
  sent [] = []
  sent (m ∷ ms) = encode to_plist m ++ sent ms

  write_all-sent : (w : Bytes) (ms : List M) → write_all to_plist w ms ≡ w ++ sent ms
  unfolding write_all write sent
  write_all-sent w [] = sym (append-nil w)
  write_all-sent w (m ∷ ms) =
      write_all-sent (w ++ encode to_plist m) ms ∙ append_assoc w (encode to_plist m) (sent ms)

  read_many-sent :
      (ms : List M) (vs : List V) (rest : Bytes)
      → AreParsed ms vs
      → read_many unmarshal (length ms) (sent ms ++ rest) ≡ ok (vs, rest)
  unfolding read_many sent AreParsed
  read_many-sent [] [] rest h = refl
  read_many-sent [] (v ∷ vs) rest h = absurd h
  read_many-sent (m ∷ ms) [] rest h = absurd h
  read_many-sent (m ∷ ms) (v ∷ vs) rest h = rw (
    append_assoc (encode to_plist m) (sent ms) rest,
    read-encode m v (sent ms ++ rest) h.0 h.1,
    ◌>>=◌,
    read_many-sent ms vs rest h.2,
  )

  -- Messages whose plists are within the size limit and that the parser accepts are read, one after
  -- the other and in their order, by as many calls of `Read` as calls of `Write` were made, and
  -- nothing of what follows on the connection is taken.
  pub read_many-write_all :
      (ms : List M) (vs : List V) (rest : Bytes)
      → AreParsed ms vs
      → read_many unmarshal (length ms) (write_all to_plist [] ms ++ rest) ≡ ok (vs, rest)
  read_many-write_all ms vs rest h = rw (write_all-sent [] ms) (read_many-sent ms vs rest h)
