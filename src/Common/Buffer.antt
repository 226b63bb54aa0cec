-- ===== src/Common/Buffer.antt =====
-- The reads of `io.ReadFull` and `binary.Read`, slice expressions, and writes into a buffer.
use Prim.Native.Nat.{ℕ, zero, suc, ◌+◌, ◌-◌, ◌^◌, ◌<◌}
use mathlib.Core.Path.{◌≡◌, refl, ap}
use mathlib.Core.Bool.{◌||◌}
use mathlib.Core.List.{[], ◌∷◌, ◌++◌}
use mathlib.Core.Option
use mathlib.Core.Option.{Option, none, some}
use native.Mathlib.Omega.{arith}
use go_ios.Common.Tests.{ltb, if◌then◌else◌, le→ltb_false, lt→ltb}
use go_ios.Common.Lists.{
  length, take, drop, replicate, length-append, take-append, drop-append, length-take,
  take-append-drop,
}
use go_ios.Common.Bytes.{Bytes, le, un_le, un_le-le, length-le}

-- `io.ReadFull` into a buffer of `n` bytes: the bytes read and those left, or none at a short input.
unfoldable pub split? : ℕ → Bytes → Option (Bytes × Bytes)
split? n s = if ltb (length s) n then none else some (take n s, drop n s)

pub split?-append : (xs ys : Bytes) (n : ℕ) → length xs ≡ n → split? n (xs ++ ys) ≡ some (xs, ys)
unfolding split?
split?-append xs ys n h = rw (
  le→ltb_false (length (xs ++ ys)) n (omega (arith, length-append xs ys)),
  take-append xs ys n h,
  drop-append xs ys n h,
)

pub split?-eq-some :
    (n : ℕ) (s : Bytes) {a b : Bytes} → split? n s ≡ some (a, b) → (s ≡ a ++ b) × (length a ≡ n)
unfolding split?
split?-eq-some n s {a} {b} h = ground (arith, take-append-drop n s, length-take n s)

pub split?_short : (n : ℕ) (s : Bytes) → length s < n → split? n s ≡ none
unfolding split?
split?_short n s h = rw (lt→ltb (length s) n h)

-- `binary.Read` of an unsigned integer of `k` bytes in little-endian order.
unfoldable pub read_le : ℕ → Bytes → Option (ℕ × Bytes)
read_le k s = Option.map (λ p. (un_le p.0, p.1)) (split? k s)

pub read_le-le : (k v : ℕ) (s : Bytes) → v < 256 ^ k → read_le k (le k v ++ s) ≡ some (v, s)
unfolding read_le
read_le-le k v s h = rw (split?-append (le k v) s k (length-le k v), un_le-le k v h)

-- The slice expression `s[lo:hi]`; none where it panics.
unfoldable pub slice : Bytes → ℕ → ℕ → Option Bytes
slice s lo hi = if ltb hi lo || ltb (length s) hi then none else some (take (hi - lo) (drop lo s))

-- The slice expression `s[lo:]`.
unfoldable pub slice_from : Bytes → ℕ → Option Bytes
slice_from s lo = if ltb (length s) lo then none else some (drop lo s)

-- `copy(buf[off:], src)` in place: the buffer keeps its length. None where `buf[off:]` panics.
unfoldable pub overlay : Bytes → Bytes → Bytes
overlay [] buf = buf
overlay (x ∷ src) [] = []
overlay (x ∷ src) (b ∷ buf) = x ∷ overlay src buf

unfoldable pub copy_at : ℕ → Bytes → Bytes → Option Bytes
unfolding overlay
copy_at zero src buf = some (overlay src buf)
copy_at (suc off) src [] = none
copy_at (suc off) src (b ∷ buf) = Option.map (◌∷◌ b) (copy_at off src buf)

-- `binary.LittleEndian.PutUint32(buf[off:], v)` and its like, on the bytes of `v`: the same write,
-- which panics where the buffer is too short for all of them.
unfoldable pub overlay_whole : Bytes → Bytes → Option Bytes
overlay_whole [] buf = some buf
overlay_whole (x ∷ src) [] = none
overlay_whole (x ∷ src) (b ∷ buf) = Option.map (◌∷◌ x) (overlay_whole src buf)

unfoldable pub put_at : ℕ → Bytes → Bytes → Option Bytes
unfolding overlay_whole
put_at zero src buf = overlay_whole src buf
put_at (suc off) src [] = none
put_at (suc off) src (b ∷ buf) = Option.map (◌∷◌ b) (put_at off src buf)

pub overlay-append :
    (src old rest : Bytes) → length old ≡ length src → overlay src (old ++ rest) ≡ src ++ rest
unfolding overlay
overlay-append [] [] rest h = refl
overlay-append [] (y ∷ old) rest h = absurd (omega arith)
overlay-append (x ∷ src) [] rest h = absurd (omega arith)
overlay-append (x ∷ src) (y ∷ old) rest h = ap (◌∷◌ x) (overlay-append src old rest (omega arith))

-- A copy that fills the whole buffer.
pub overlay_all : (xs : Bytes) → overlay xs (replicate (length xs) 0) ≡ xs
unfolding overlay
overlay_all [] = refl
overlay_all (x ∷ xs) = ap (◌∷◌ x) (overlay_all xs)

-- A copy behind `a` into all that is left.
pub copy_at-end :
    (a src : Bytes) (off : ℕ)
    → length a ≡ off
    → copy_at off src (a ++ replicate (length src) 0) ≡ some (a ++ src)
unfolding copy_at
copy_at-end [] src zero h = ap some (overlay_all src)
copy_at-end [] src (suc off) h = absurd (omega arith)
copy_at-end (x ∷ a) src zero h = absurd (omega arith)
copy_at-end (x ∷ a) src (suc off) h = rw (copy_at-end a src off (omega arith))

-- A copy behind `a` over as many bytes, with more to follow.
pub copy_at-append :
    (a src old rest : Bytes) (off : ℕ)
    → length a ≡ off
    → length old ≡ length src
    → copy_at off src (a ++ (old ++ rest)) ≡ some (a ++ (src ++ rest))
unfolding copy_at
copy_at-append [] src old rest zero e h = ap some (overlay-append src old rest h)
copy_at-append [] src old rest (suc off) e h = absurd (omega arith)
copy_at-append (x ∷ a) src old rest zero e h = absurd (omega arith)
copy_at-append (x ∷ a) src old rest (suc off) e h =
    rw (copy_at-append a src old rest off (omega arith) h)

pub slice-append :
    (a b s : Bytes) {lo hi : ℕ}
    → length a ≡ lo
    → lo + length b ≡ hi
    → slice (a ++ (b ++ s)) lo hi ≡ some b
unfolding slice
slice-append a b s {lo} {hi} e f =
    let n = length-append a (b ++ s) in
    let m = length-append b s in
    rw (
      le→ltb_false hi lo (omega arith),
      le→ltb_false (length (a ++ (b ++ s))) hi (omega arith),
      drop-append a (b ++ s) lo e,
      take-append b s (hi - lo) (omega arith),
    )

pub slice_from-append : (a s : Bytes) {lo : ℕ} → length a ≡ lo → slice_from (a ++ s) lo ≡ some s
unfolding slice_from
slice_from-append a s {lo} e =
    rw (le→ltb_false (length (a ++ s)) lo (omega (arith, length-append a s)), drop-append a s lo e)
