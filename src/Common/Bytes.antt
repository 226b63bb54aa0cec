-- ===== src/Common/Bytes.antt =====
-- Byte slices as lists of numbers below 256, and fixed-width integers in both byte orders.
use Prim.Native.Nat.{ℕ, zero, suc, ◌+◌, ◌*◌, ◌/◌, ◌%◌, ◌^◌, ◌<◌}
use mathlib.Core.Path.{◌≡◌, refl, ap, ap₂, ◌∙◌}
use mathlib.Core.List.{List, [], ◌∷◌, reverse, reverse-reverse}
use native.Mathlib.Omega.{arith}
use go_ios.Common.Lists.{length, replicate, All, length-reverse}

abbrev pub Bytes : Type 0
Bytes = List ℕ

-- `make([]byte, n)`
abbrev pub zeros : ℕ → Bytes
zeros n = replicate n 0

abbrev pub IsByte : ℕ → Type 0
IsByte b = b < 256

abbrev pub IsU16 : ℕ → Type 0
IsU16 v = v < 2 ^ 16

abbrev pub IsU32 : ℕ → Type 0
IsU32 v = v < 2 ^ 32

abbrev pub IsU64 : ℕ → Type 0
IsU64 v = v < 2 ^ 64

-- The `k` low bytes of `v`, lowest first: `binary.LittleEndian.PutUint16` and its like.
unfoldable pub le : ℕ → ℕ → Bytes
le zero v = []
le (suc k) v = v % 256 ∷ le k (v / 256)

-- `binary.LittleEndian.Uint16` and its like, on a slice of the width of the integer.
unfoldable pub un_le : Bytes → ℕ
un_le [] = 0
un_le (b ∷ bs) = b + 256 * un_le bs

unfoldable pub be : ℕ → ℕ → Bytes
unfolding le
be k v = reverse (le k v)

unfoldable pub un_be : Bytes → ℕ
unfolding un_le
un_be bs = un_le (reverse bs)

pub length-le : (k v : ℕ) → length (le k v) ≡ k
unfolding le
length-le zero v = refl
length-le (suc k) v = ap suc (length-le k (v / 256))

pub un_le-le : (k v : ℕ) → v < 256 ^ k → un_le (le k v) ≡ v
unfolding le un_le
un_le-le zero v h = omega arith
un_le-le (suc k) v h = omega (arith, un_le-le k (v / 256) (omega arith))

pub le-IsByte : (k v : ℕ) → All IsByte (le k v)
unfolding le
le-IsByte zero v = tt
le-IsByte (suc k) v = (omega arith, le-IsByte k (v / 256))

pub length-be : (k v : ℕ) → length (be k v) ≡ k
unfolding be
length-be k v = length-reverse (le k v) ∙ length-le k v

pub un_be-be : (k v : ℕ) → v < 256 ^ k → un_be (be k v) ≡ v
unfolding be un_be
un_be-be k v h = rw reverse-reverse (un_le-le k v h)

pub le-un_le : (bs : Bytes) → All IsByte bs → le (length bs) (un_le bs) ≡ bs
unfolding le un_le
le-un_le [] h = refl
le-un_le (b ∷ bs) h = ap₂ (◌∷◌) low (ap (le (length bs)) high ∙ le-un_le bs h.1)
  where
    low : (b + 256 * un_le bs) % 256 ≡ b
    low = omega arith

    high : (b + 256 * un_le bs) / 256 ≡ un_le bs
    high = omega arith

pub un_le_bound : (n : ℕ) (bs : Bytes) → length bs ≡ n → All IsByte bs → un_le bs < 256 ^ n
unfolding un_le
un_le_bound zero [] e h = omega arith
un_le_bound zero (b ∷ bs) e h = absurd (omega arith)
un_le_bound (suc n) [] e h = absurd (omega arith)
un_le_bound (suc n) (b ∷ bs) e h = omega (arith, un_le_bound n bs (omega arith) h.1)
