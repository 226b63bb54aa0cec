-- ===== src/Tunnel/Manager/Backoff.antt =====
-- How long a device whose tunnel failed is left alone.
use go_ios.Common.{
  ℕ, zero, suc, ◌+◌, ◌-◌, ◌*◌, ◌^◌, ◌≤◌, ◌≡◌, ap, ltb, ltb→lt, ltb_false→le, Bool-cases,
  if◌then◌else◌, inl, inr, min, ◌<◌, arith,
}
use go_ios.Tunnel.Manager.{failed_device_backoff, second}

power_pos : (n : ℕ) → 1 ≤ 2 ^ n
power_pos zero = omega arith
power_pos (suc n) = omega (arith, power_pos n)

power_large : (n : ℕ) → 4 < n → 32 ≤ 2 ^ n
power_large zero h = absurd (omega arith)
power_large (suc n) h = elim (Bool-cases (ltb 4 n)) [
  | inl e ↦ omega (arith, power_large n (ltb→lt 4 n e))
  | inr e ↦ let four : n ≡ 4 = omega (arith, ltb_false→le 4 n e) in rw four (omega arith)
]

power_up : (n : ℕ) → 2 ^ (n - 1) ≤ 2 ^ (n + 1 - 1)
power_up zero = omega arith
power_up (suc n) =
    let e : suc n - 1 ≡ n = omega arith in
    let f : suc n + 1 - 1 ≡ suc n = omega arith in rw (e, f) (omega (arith, power_pos n))

as_min : (s : ℕ) → (if ltb 300 s then 300 else s) ≡ min s 300
as_min s = ground arith

backoff-min : (n : ℕ) → failed_device_backoff n ≡ min (30 * 2 ^ (n - 1)) 300 * second
unfolding failed_device_backoff
backoff-min n = elim (Bool-cases (ltb 4 (n - 1))) [
  | inl e ↦ rw e (omega (arith, power_large (n - 1) (ltb→lt 4 (n - 1) e)))
  | inr e ↦ rw e (ap (λ (s : ℕ). s * second) (as_min (30 * 2 ^ (n - 1))))
]

-- After the failure number n a device is left alone for 30 seconds times 2^(n−1), and for five
-- minutes at most; it is never less than 30 seconds, and never less after one failure more.
pub failed_device_backoff_bounds :
    (n : ℕ)
    → (failed_device_backoff n ≡ min (30 * 2 ^ (n - 1)) 300 * second)
      × (30 * second ≤ failed_device_backoff n)
      × (failed_device_backoff n ≤ 300 * second)
      × (failed_device_backoff n ≤ failed_device_backoff (n + 1))
failed_device_backoff_bounds n =
    let e = backoff-min n in
    let f = backoff-min (n + 1) in
    let p = power_pos (n - 1) in let q = power_up n in (e, omega arith, omega arith, omega arith)
