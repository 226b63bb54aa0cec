-- ===== src/Dtx/Auxiliary/Total.antt =====
-- `DecodeAuxiliary` ends on every input, and does not panic on fewer than 2^32 bytes.
use go_ios.Common.{
  ℕ, zero, suc, ◌+◌, ◌^◌, ◌%◌, ◌<◌, ◌≤◌, ◌≡◌, refl, Bool, true, false, List, [], ◌∷◌, arith, length,
  take, drop, length-drop, ltb, lt→ltb, Bool-cases, inl, inr,
}
use go_ios.Common.Bytes.{Bytes, un_le}
use go_ios.Common.Buffer.{slice, slice_from}
use go_ios.Common.Result.{Result, ok, err, reject, ◌>>=◌}
use go_ios.Dtx.Auxiliary.{
  Value, ReadError, insufficient_bytes, unknown_type, read_panicked, PrimitiveKeyValuePair,
  of_pairs, read_sized, read_typed, read_entry, read_pair, read_pairs, after_error,
  decode_auxiliary,
}

-- A read that takes `n` bytes at least where it succeeds, and does not panic.
abbrev Takes : {A : Type 0} → ℕ → Bytes → (A → Bytes) → Result ReadError A → Type 0
Takes n s rest (ok a) = length (rest a) + n ≤ length s
Takes n s rest (err (insufficient_bytes k)) = Unit
Takes n s rest (err (unknown_type t)) = Unit
Takes n s rest (err read_panicked) = ⊥

abbrev left : ℕ × Value × Bytes → Bytes
left r = r.2

read_sized-Takes : (t : ℕ) (s : Bytes) → length s < 2 ^ 32 → Takes 4 s left (read_sized t s)
unfolding read_sized slice slice_from
read_sized-Takes t s h = ground (arith, length-drop ((8 + un_le (take 4 (drop 4 s))) % 2 ^ 32) s)

read_typed-Takes :
    (t : ℕ) (s : Bytes) → length s < 2 ^ 32 → 4 ≤ length s → Takes 4 s left (read_typed t s)
unfolding read_typed
read_typed-Takes t s h h4 =
    ground (arith, read_sized-Takes t s, length-drop 4 s, length-drop 8 s, length-drop 12 s)

read_entry-Takes : (s : Bytes) → length s < 2 ^ 32 → Takes 4 s left (read_entry s)
unfolding read_entry
read_entry-Takes s h = ground (arith, read_typed-Takes (un_le (take 4 s)) s)

Takes-bind :
    {A B : Type 0} (n k : ℕ) (s : Bytes) (ra : A → Bytes) (rb : B → Bytes) (m : Result ReadError A)
    (f : A → Result ReadError B)
    → Takes n s ra m
    → ((a : A) → length (ra a) + n ≤ length s → Takes k s rb (f a))
    → Takes k s rb (m >>= f)
Takes-bind n k s ra rb (ok a) f h g = g a h
Takes-bind n k s ra rb (err (insufficient_bytes x)) f h g = tt
Takes-bind n k s ra rb (err (unknown_type t)) f h g = tt
Takes-bind n k s ra rb (err read_panicked) f h g = h

Takes-reject :
    {B : Type 0} (k : ℕ) (s : Bytes) (rb : B → Bytes) (b : Bool) (n : ℕ) (m : Result ReadError B)
    → Takes k s rb m
    → Takes k s rb (reject b (insufficient_bytes n) >>= λ _. m)
Takes-reject k s rb true n m h = tt
Takes-reject k s rb false n m h = h

Takes-weaken :
    {B : Type 0} (n k : ℕ) (s t : Bytes) (rb : B → Bytes) (m : Result ReadError B)
    → length t + n ≤ length s
    → Takes k t rb m
    → Takes (n + k) s rb m
Takes-weaken n k s t rb (ok a) l h = omega arith
Takes-weaken n k s t rb (err (insufficient_bytes x)) l h = tt
Takes-weaken n k s t rb (err (unknown_type y)) l h = tt
Takes-weaken n k s t rb (err read_panicked) l h = h

abbrev behind : PrimitiveKeyValuePair × Bytes → Bytes
behind r = r.1

read_pair-Takes : (s : Bytes) → length s < 2 ^ 32 → Takes 8 s behind (read_pair s)
unfolding read_pair
read_pair-Takes s h = Takes-bind 4 8 s left behind (read_entry s) _ (read_entry-Takes s h) λ a l.
    Takes-reject 8 s behind _ 4 _ (
      Takes-bind 8 8 s left behind (read_entry (left a)) _
        (Takes-weaken 4 4 s (left a) left (read_entry (left a)) l
          (read_entry-Takes (left a) (omega arith)))
        λ b k. k)

-- After a key and a value at least eight bytes are gone.
pub read_pairs_total :
    (fuel : ℕ) (s : Bytes)
    → length s ≤ fuel
    → length s < 2 ^ 32
    → (ps : List PrimitiveKeyValuePair) × (read_pairs fuel s ≡ ok ps)
unfolding read_pairs after_error
read_pairs_total zero s f h = ([], rw (lt→ltb (length s) 4 (omega arith)))
read_pairs_total (suc fuel) s f h = elim (Bool-cases (ltb (length s) 4)) [
  | inl few ↦ ([], rw few)
  | inr more ↦
      round (λ t p q. read_pairs_total fuel t p q) (read_pair s) refl (read_pair-Takes s h) more
]
  where
    round :
        ((t : Bytes)
          → length t ≤ fuel
          → length t < 2 ^ 32
          → (ps : List PrimitiveKeyValuePair) × (read_pairs fuel t ≡ ok ps))
        → (r : Result ReadError (PrimitiveKeyValuePair × Bytes)) → read_pair s ≡ r
        → Takes 8 s behind r
        → ltb (length s) 4 ≡ false
        → (ps : List PrimitiveKeyValuePair) × (read_pairs (suc fuel) s ≡ ok ps)
    round ih (ok (p, rest)) e t more =
        let (ps, g) = ih rest (omega arith) (omega arith) in (p ∷ ps, rw (more, e, g))
    round ih (err (insufficient_bytes x)) e t more = ([], rw (more, e))
    round ih (err (unknown_type y)) e t more = ([], rw (more, e))
    round ih (err read_panicked) e t more = absurd t

-- On fewer than 2^32 bytes `DecodeAuxiliary` returns: the loop ends within its fuel, and no slice
-- expression panics. Its keys and values are those of the pairs.
pub decode_auxiliary_total :
    (s : Bytes)
    → length s < 2 ^ 32
    → (ps : List PrimitiveKeyValuePair) × (decode_auxiliary s ≡ ok (of_pairs ps))
unfolding decode_auxiliary
decode_auxiliary_total s h =
    let (ps, e) = read_pairs_total (length s) s (omega arith) h in (ps, rw e)
