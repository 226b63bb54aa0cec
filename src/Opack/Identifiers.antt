-- ===== src/Opack/Identifiers.antt =====
-- A reader of OPACK values, and the identifiers of ios/opack/opack.go as sums.
use go_ios.Common.{
  ℕ, zero, suc, ◌+◌, ◌-◌, ◌%◌, ◌<◌, ◌≤◌, ◌≡◌, refl, Bool, true, false, ◌⊎◌, inl, inr, ◌&&◌, ◌||◌,
  not, Option, none, some, List, [], ◌∷◌, ◌++◌, arith, length, ltb, leb, ◌==◌, ==_iff,
  if◌then◌else◌, Bool-cases, le→ltb_false, lt→ltb, bit_or, bit_and,
}
use mathlib.Core.Option
use go_ios.Common.Bytes.{Bytes}
use go_ios.Common.Tables.{all_below-holds}
use go_ios.Common.Buffer.{split?, split?-append}
use go_ios.Common.Result.{ok}
use go_ios.Opack.{Value, text, binary, unsupported, create_identifier_with_length}

-- The bytes of a value of type `t` behind its identifier `id`: up to 32 the identifier holds their
-- number, above the next byte does.
unfoldable pub read_sized : ℕ → ℕ → Bytes → Option (Bytes × Bytes)
read_sized t id s =
    if ltb id (t + 33) then split? (id - t) s else elim s [ [] ↦ none | l ∷ rest ↦ split? l rest ]

unfoldable pub read_string : Bytes → Option (Bytes × Bytes)
read_string [] = none
read_string (id ∷ s) = if not (ltb id 64) && ltb id 98 then read_sized 64 id s else none

unfoldable pub read_value : Bytes → Option (Value × Bytes)
read_value [] = none
read_value (id ∷ s) =
    if not (ltb id 64) && ltb id 98
    then Option.map (λ p. (text p.0, p.1)) (read_sized 64 id s)
    else if not (ltb id 112) && ltb id 146
    then Option.map (λ p. (binary p.0, p.1)) (read_sized 112 id s)
    else none

unfoldable pub read_entries : ℕ → Bytes → Option (List (Bytes × Value) × Bytes)
read_entries zero s = some ([], s)
read_entries (suc n) s = elim (read_string s) [
  | none ↦ none
  | some (k, s1) ↦ elim (read_value s1) [
    | none ↦ none
    | some (v, s2) ↦ Option.map (λ p. ((k, v) ∷ p.0, p.1)) (read_entries n s2)
  ]
]

unfoldable pub read_dict : Bytes → Option (List (Bytes × Value) × Bytes)
read_dict [] = none
read_dict (h ∷ s) = if not (ltb h 224) && ltb h 240 then read_entries (h - 224) s else none

-- Strings and data of 255 bytes at most.
unfoldable pub IsShort : Value → Type 0
IsShort (text s) = length s ≤ 255
IsShort (binary b) = length b ≤ 255
IsShort unsupported = ⊥

unfoldable pub AreShort : List (Bytes × Value) → Type 0
AreShort [] = Unit
AreShort ((k, v) ∷ d) = (length k ≤ 255) × IsShort v × AreShort d

-- the identifier, written with sums
unfoldable pub identifier : ℕ → ℕ → Bytes
identifier t l = if ltb l 32 then (t + l) ∷ [] else (t + 33) ∷ (l ∷ [])

short_id : (t l : ℕ) → (t ≡ 64) ⊎ (t ≡ 112) → l < 16 → bit_or t l ≡ t + l
short_id t l (inl e) h =
    rw (e)
      ((==_iff (bit_or 64 l) (64 + l)).0 (all_below-holds 16 (λ i. bit_or 64 i == 64 + i) l refl h))
short_id t l (inr e) h = rw (e) (
    (==_iff (bit_or 112 l) (112 + l)).0
      (all_below-holds 16 (λ i. bit_or 112 i == 112 + i) l refl h))

or-right : (a b : Bool) → (a || b) ≡ true → a ≡ false → b ≡ true
or-right true b h e = cc
or-right false b h e = h

middle_id :
    (t l : ℕ)
    → (t ≡ 64) ⊎ (t ≡ 112)
    → 16 ≤ l
    → l < 32
    → bit_or ((t + 16) % 256) (bit_and l 15) ≡ t + l
middle_id t l (inl e) low h = rw (e) (
    (==_iff (bit_or 80 (bit_and l 15)) (64 + l)).0 (
      or-right (ltb l 16) _
        (all_below-holds 32 (λ i. ltb i 16 || bit_or 80 (bit_and i 15) == 64 + i) l refl h)
        (le→ltb_false l 16 low)))
middle_id t l (inr e) low h = rw (e) (
    (==_iff (bit_or 128 (bit_and l 15)) (112 + l)).0 (
      or-right (ltb l 16) _
        (all_below-holds 32 (λ i. ltb i 16 || bit_or 128 (bit_and i 15) == 112 + i) l refl h)
        (le→ltb_false l 16 low)))

long_id : (t : ℕ) → (t ≡ 64) ⊎ (t ≡ 112) → bit_or ((t + 32) % 256) 1 ≡ t + 33
long_id t (inl e) = rw (e)
long_id t (inr e) = rw (e)

gt→leb_false : (a b : ℕ) → b < a → leb a b ≡ false
gt→leb_false a b h = ground arith

le→leb : (a b : ℕ) → a ≤ b → leb a b ≡ true
le→leb a b h = ground arith

pub create_identifier :
    (t l : ℕ)
    → (t ≡ 64) ⊎ (t ≡ 112)
    → l ≤ 255
    → create_identifier_with_length t l ≡ ok (identifier t l)
unfolding create_identifier_with_length identifier
create_identifier t l c h = elim (Bool-cases (ltb l 32)) [
  | inr e ↦ rw (gt→leb_false l 15 (ground arith), e, le→leb l 255 h, long_id t c)
  | inl e ↦ elim (Bool-cases (leb l 15)) [
    | inl f ↦ rw (f, e, short_id t l c (ground arith))
    | inr f ↦ rw (f, e, middle_id t l c (ground arith) (ground arith))
  ]
]

read_sized-inline :
    (t : ℕ) (b s : Bytes) → length b < 32 → read_sized t (t + length b) (b ++ s) ≡ some (b, s)
unfolding read_sized
read_sized-inline t b s h = rw (
  lt→ltb (t + length b) (t + 33) (omega arith),
  split?-append b s (t + length b - t) (omega arith),
)

read_sized-long : (t : ℕ) (b s : Bytes) → read_sized t (t + 33) (length b ∷ (b ++ s)) ≡ some (b, s)
unfolding read_sized
read_sized-long t b s =
    rw (le→ltb_false (t + 33) (t + 33) (omega arith), split?-append b s (length b) refl)

pub read_string-identifier :
    (b s : Bytes) → read_string (identifier 64 (length b) ++ (b ++ s)) ≡ some (b, s)
unfolding read_string identifier
read_string-identifier b s = elim (Bool-cases (ltb (length b) 32)) [
  | inl e ↦ rw (
    e,
    le→ltb_false (64 + length b) 64 (omega arith),
    lt→ltb (64 + length b) 98 (ground arith),
    read_sized-inline 64 b s (ground arith),
  )
  | inr e ↦ rw (e) (read_sized-long 64 b s)
]

pub read_value-text :
    (b s : Bytes) → read_value (identifier 64 (length b) ++ (b ++ s)) ≡ some (text b, s)
unfolding read_value identifier
read_value-text b s = elim (Bool-cases (ltb (length b) 32)) [
  | inl e ↦ rw (
    e,
    le→ltb_false (64 + length b) 64 (omega arith),
    lt→ltb (64 + length b) 98 (ground arith),
    read_sized-inline 64 b s (ground arith),
  )
  | inr e ↦ rw (e, read_sized-long 64 b s)
]

pub read_value-binary :
    (b s : Bytes) → read_value (identifier 112 (length b) ++ (b ++ s)) ≡ some (binary b, s)
unfolding read_value identifier
read_value-binary b s = elim (Bool-cases (ltb (length b) 32)) [
  | inl e ↦ rw (
    e,
    le→ltb_false (112 + length b) 64 (omega arith),
    le→ltb_false (112 + length b) 98 (omega arith),
    le→ltb_false (112 + length b) 112 (omega arith),
    lt→ltb (112 + length b) 146 (ground arith),
    read_sized-inline 112 b s (ground arith),
  )
  | inr e ↦ rw (e, read_sized-long 112 b s)
]
