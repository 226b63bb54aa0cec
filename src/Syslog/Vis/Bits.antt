-- ===== src/Syslog/Vis/Bits.antt =====
-- The bits that vis.go sets and flips, on the bytes below 128.
use go_ios.Common.{ℕ, ◌+◌, ◌<◌, ◌≡◌, refl, ltb, ltb→lt, ◌==◌, ==_iff, bit_or}
use Prim.Native.Nat.{bit_xor}
use go_ios.Common.Tables.{all_below-holds}

pub set_high : (c : ℕ) → c < 128 → bit_or c 128 ≡ c + 128
set_high c h =
    (==_iff (bit_or c 128) (c + 128)).0
      (all_below-holds 128 (λ i. bit_or i 128 == i + 128) c refl h)

pub meta_control : (c : ℕ) → c < 128 → 127 < bit_or (bit_xor c 64) 128
meta_control c h =
    ltb→lt 127 (bit_or (bit_xor c 64) 128)
      (all_below-holds 128 (λ i. ltb 127 (bit_or (bit_xor i 64) 128)) c refl h)

pub control_high : (x : ℕ) → x < 32 → bit_or (bit_xor (64 + x) 64) 128 ≡ 128 + x
control_high x h =
    (==_iff (bit_or (bit_xor (64 + x) 64) 128) (128 + x)).0
      (all_below-holds 32 (λ i. bit_or (bit_xor (64 + i) 64) 128 == 128 + i) x refl h)
