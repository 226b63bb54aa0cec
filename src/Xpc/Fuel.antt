-- ===== src/Xpc/Fuel.antt =====
-- The decoders of ios/xpc/encoding.go on fuel of one more than the bytes that are left.
use go_ios.Common.{
  ℕ, zero, suc, ◌+◌, ◌<◌, ◌≤◌, ◌≡◌, ◌≢◌, refl, subst, Option, none, some, [], ◌∷◌, arith, length,
  ◌==◌, inl, inr, ◌⊎◌,
}
use go_ios.Common.Bytes.{Bytes}
use go_ios.Common.Result.{Result, ok, err, ◌>>=◌}
use go_ios.Xpc.Value.{
  Value, array_type, dictionary_type, file_transfer_type, uint64, dictionary, file_transfer,
  Entries, end, insert_entry, lookup_entry,
}
use go_ios.Xpc.Decode.{
  DecodeError, stuck, read_int, read_dictionary_key, read_count, transfer_size, transfer_of,
  decode_object, decode_items, decode_entries,
}
use go_ios.Xpc.Steps.{
  Fair, Runs, Runs->>=, Runs-ok, Runs-from, read_int-Runs, Runs-elim, decode_scalar-Runs,
  read_dictionary_key-Runs, read_count-Runs,
}

transfer_size-Runs :
    (o : Option Value) (k : ℕ) (s t : Bytes) (m : ℕ)
    → length t + k ≤ length s
    → Runs k s ((transfer_size o >>= λ n. ok (file_transfer m n)) >>= λ v. ok (v, t))
unfolding transfer_size Runs Fair
transfer_size-Runs none k s t m h = tt
transfer_size-Runs (some (uint64 n)) k s t m h = h
transfer_size-Runs (some _) k s t m h = tt

transfer_of-Runs :
    (m : ℕ) (d : Value) (k : ℕ) (s t : Bytes)
    → length t + k ≤ length s
    → Runs k s (transfer_of m d >>= λ v. ok (v, t))
transfer_of-Runs m (dictionary es) k s t h =
    unfold transfer_of in transfer_size-Runs (lookup_entry (b's' ∷ []) es) k s t m h
transfer_of-Runs m _ k s t h = unfold transfer_of Runs Fair in tt

mutual
  unfolding decode_object

  decode_object-Runs : (f : ℕ) (s : Bytes) → length s < f → Runs 4 s (decode_object f s)
  decode_object-Runs zero s h = absurd (omega arith)
  decode_object-Runs (suc f) s h = Runs->>= 4 4 s (read_int 4 s) _ (read_int-Runs 4 s) (λ p g.
      Runs-elim 4 s (p.0 == array_type) _ _
        (Runs->>= 8 4 s (read_count p.1) _
          (Runs-from 8 8 s p.1 _ (omega arith) (read_count-Runs p.1))
          (λ q k.
            Runs->>= 4 4 s (decode_items f q.0 q.1) _
              (Runs-from 0 4 s q.1 _ (omega arith) (decode_items-Runs f q.0 q.1 (omega arith)))
              (λ r l. Runs-ok 4 s _ r.1 l)))
        (Runs-elim 4 s (p.0 == dictionary_type) _ _
          (Runs->>= 8 4 s (read_count p.1) _
            (Runs-from 8 8 s p.1 _ (omega arith) (read_count-Runs p.1))
            (λ q k.
              Runs->>= 4 4 s (decode_entries f end q.0 q.1) _
                (Runs-from 0 4 s q.1 _ (omega arith)
                  (decode_entries-Runs f end q.0 q.1 (omega arith)))
                (λ r l. Runs-ok 4 s _ r.1 l)))
          (Runs-elim 4 s (p.0 == file_transfer_type) _ _
            (Runs->>= 8 4 s (read_int 8 p.1) _
              (Runs-from 8 8 s p.1 _ (omega arith) (read_int-Runs 8 p.1))
              (λ q k.
                Runs->>= 4 4 s (decode_object f q.1) _
                  (Runs-from 4 4 s q.1 _ (omega arith) (decode_object-Runs f q.1 (omega arith)))
                  (λ r l. transfer_of-Runs q.0 r.0 4 s r.1 l)))
            (Runs-from 0 4 s p.1 _ (omega arith) (decode_scalar-Runs p.0 p.1)))))

  decode_items-Runs : (f n : ℕ) (s : Bytes) → length s + 1 < f → Runs 0 s (decode_items f n s)
  decode_items-Runs zero n s h = absurd (omega arith)
  decode_items-Runs (suc f) zero s h = Runs-ok 0 s _ s (omega arith)
  decode_items-Runs (suc f) (suc n) s h =
      Runs->>= 4 0 s (decode_object f s) _ (decode_object-Runs f s (omega arith)) (λ p g.
        Runs->>= 0 0 s (decode_items f n p.1) _
          (Runs-from 0 0 s p.1 _ (omega arith) (decode_items-Runs f n p.1 (omega arith)))
          (λ q k. Runs-ok 0 s _ q.1 k))

  decode_entries-Runs :
      (f : ℕ) (es : Entries) (n : ℕ) (s : Bytes)
      → length s + 1 < f
      → Runs 0 s (decode_entries f es n s)
  decode_entries-Runs zero es n s h = absurd (omega arith)
  decode_entries-Runs (suc f) es zero s h = Runs-ok 0 s _ s (omega arith)
  decode_entries-Runs (suc f) es (suc n) s h =
      Runs->>= 1 0 s (read_dictionary_key s) _ (read_dictionary_key-Runs s) (λ p g.
        Runs->>= 5 0 s (decode_object f p.1) _
          (Runs-from 4 5 s p.1 _ (omega arith) (decode_object-Runs f p.1 (omega arith)))
          (λ q k.
            Runs-from 0 0 s q.1 _ (omega arith)
              (decode_entries-Runs f (insert_entry p.0 q.0 es) n q.1 (omega arith))))

Runs-cases :
    (k : ℕ) (s : Bytes) (r : Result DecodeError (Value × Bytes))
    → Runs k s r
    → ((v : Value) × (rest : Bytes) × (r ≡ ok (v, rest)) × (length rest + k ≤ length s))
      ⊎ ((e : DecodeError) × (r ≡ err e) × (e ≢ stuck))
Runs-cases k s (ok p) h = inl (p.0, p.1, refl, unfold Runs in h)
Runs-cases k s (err e) h = inr (e, refl, λ c. unfold Runs Fair in subst Fair c h)

-- On more fuel than there are bytes, whatever the bytes are, the decoder of an object either gives
-- an object and has read four bytes at least, or gives one of the Go code's errors: the fuel does not
-- run out.
pub decode_object_total :
    (f : ℕ) (s : Bytes)
    → length s < f
    → ((v : Value) × (rest : Bytes) × (decode_object f s ≡ ok (v, rest))
        × (length rest + 4 ≤ length s))
      ⊎ ((e : DecodeError) × (decode_object f s ≡ err e) × (e ≢ stuck))
decode_object_total f s h = Runs-cases 4 s (decode_object f s) (decode_object-Runs f s h)
