-- ===== src/Tunnel/Agent/Refresh.antt =====
-- The loop that waits for the tunnel of a device to come back.
use go_ios.Common.{
  ℕ, zero, suc, ◌+◌, ◌*◌, ◌/◌, ◌^◌, ◌≤◌, ◌<◌, ◌≡◌, refl, ap, ◌∙◌, true, false, some, ◌⊎◌, inl, inr,
  Bool-cases, ltb, ltb→lt, ltb_false→le, arith,
}
use go_ios.Common.Result.{Result, Result-cases, ok, err}
use go_ios.Tunnel.Manager.{Tunnel}
use go_ios.Tunnel.Agent.{
  ClientError, tunnel_missing, timed_out, is_missing, wait_for_tunnel, after_stop,
  refresh_tunnel_for_device,
}

-- 500 ms
abbrev pub pause : ℕ
pause = 5 * 10 ^ 8

-- The reading 0 is for the deadline, and each other one is behind the question of a round. Nothing
-- sleeps before the first round; between two rounds the loop sleeps.
pub record IsRunning (clock : ℕ → ℕ) : Type 0 where
  pub starts : clock 0 ≤ clock 1
  pub sleeps : (n : ℕ) → clock (n + 1) + pause ≤ clock (n + 1 + 1)

-- two rounds more than the timeout has pauses
abbrev pub enough : ℕ → ℕ
enough timeout = timeout / pause + 2

module _ (clock : ℕ → ℕ) (info : ℕ → Result ClientError Tunnel) (runs : IsRunning clock) where
  -- the rounds from `n` to before `k` are answered that there is no tunnel
  abbrev pub AreMissing : ℕ → ℕ → Type 0
  AreMissing n k = (j : ℕ) → n ≤ j → j < k → info j ≡ err tunnel_missing

  -- What the loop ends with, from the round `n`: the answer of the first round that is not that there
  -- is no tunnel; or the end of the time, behind a round after which the deadline is over.
  pub data Ends (n deadline : ℕ) : Result ClientError Tunnel → Type 0 where
    found : (k : ℕ) (t : Tunnel) → n ≤ k → AreMissing n k → info k ≡ ok t → Ends n deadline (ok t)
    failed :
        (k : ℕ) (e : ClientError)
        → n ≤ k
        → AreMissing n k
        → info k ≡ err e
        → is_missing e ≡ false
        → Ends n deadline (err e)
    late :
        (k : ℕ)
        → n ≤ k
        → AreMissing n (k + 1)
        → deadline < clock (k + 1)
        → Ends n deadline (err timed_out)

  missing_before : (n k : ℕ) → info n ≡ err tunnel_missing → AreMissing (n + 1) k → AreMissing n k
  missing_before n k e m j h l = elim (Bool-cases (ltb n j)) [
    | inl x ↦ m j (omega (arith, ltb→lt n j x)) l
    | inr x ↦ let here : j ≡ n = omega (arith, ltb_false→le n j x) in ap info here ∙ e
  ]

  later :
      (n deadline : ℕ) (r : Result ClientError Tunnel)
      → info n ≡ err tunnel_missing
      → Ends (n + 1) deadline r
      → Ends n deadline r
  later n deadline r here (found k t h m e) = found k t (omega arith) (missing_before n k here m) e
  later n deadline r here (failed k x h m e s) =
      failed k x (omega arith) (missing_before n k here m) e s
  later n deadline r here (late k h m l) = late k (omega arith) (missing_before n (k + 1) here m) l

  none_before : (n : ℕ) → AreMissing n n
  none_before n j h l = absurd (omega arith)

  one_before : (n : ℕ) → info n ≡ err tunnel_missing → AreMissing n (n + 1)
  one_before n e j h l = let here : j ≡ n = omega arith in ap info here ∙ e

  missing_is : (e : ClientError) → is_missing e ≡ true → e ≡ tunnel_missing
  missing_is tunnel_missing h = refl
  missing_is e h = ground arith

  -- `low` is a time that the clock has reached behind this round.
  wait_for_tunnel-Ends :
      (fuel n deadline low : ℕ)
      → low ≤ clock (n + 1)
      → low ≤ deadline + pause
      → deadline + pause < low + fuel * pause
      → (r : Result ClientError Tunnel) × (wait_for_tunnel clock info fuel n deadline ≡ some r)
        × Ends n deadline r
  unfolding wait_for_tunnel
  wait_for_tunnel-Ends zero n deadline low g h l = absurd (omega arith)
  wait_for_tunnel-Ends (suc fuel) n deadline low g h l = elim (Result-cases (info n)) [
    | inl (t, e) ↦ (ok t, rw (wait_for_tunnel, e) refl, found n t (omega arith) (none_before n) e)
    | inr (x, e) ↦ elim (Bool-cases (is_missing x)) [
      | inr s ↦
          (err x, rw (wait_for_tunnel, e, s) refl, failed n x (omega arith) (none_before n) e s)
      | inl s ↦
          let missing : info n ≡ err tunnel_missing = e ∙ ap err (missing_is x s) in
          elim (Bool-cases (ltb deadline (clock (n + 1)))) [
            | inl d ↦ (
              err timed_out,
              rw (wait_for_tunnel, e, s, d) refl,
              late n (omega arith) (one_before n missing) (ltb→lt deadline (clock (n + 1)) d),
            )
            | inr d ↦
                let step = runs.sleeps n in
                let open_yet = ltb_false→le deadline (clock (n + 1)) d in
                let (r, p, q) =
                  wait_for_tunnel-Ends fuel (n + 1) deadline (low + pause) (omega arith)
                    (omega arith) (omega arith) in
                (r, rw (wait_for_tunnel, e, s, d) p, later n deadline r missing q)
          ]
    ]
  ]

  waits :
      (timeout : ℕ)
      → (r : Result ClientError Tunnel) × (wait_for_tunnel clock info
            (enough timeout)
            0
            (clock 0 + timeout)
          ≡ some r)
        × Ends 0 (clock 0 + timeout) r
  waits timeout =
      wait_for_tunnel-Ends (enough timeout) 0 (clock 0 + timeout) (clock 0) runs.starts
        (omega arith) (omega arith)

  -- what refreshing makes of how the tunnel was stopped
  pub data Refreshes (timeout : ℕ)
      : Result ClientError (Unit {0}) → Result ClientError Tunnel → Type 0 where
    not_stopped : (e : ClientError) → is_missing e ≡ false → Refreshes timeout (err e) (err e)
    waited :
        (s : Result ClientError (Unit {0})) (r : Result ClientError Tunnel)
        → (s ≡ ok tt) ⊎ (s ≡ err tunnel_missing)
        → Ends 0 (clock 0 + timeout) r
        → Refreshes timeout s r

  -- Where the clock does not go back before the first round's reading and moves by 500 ms at least
  -- from one round's reading to the next one's, refreshing ends, within two rounds more than the
  -- timeout has whole halves of a second: an error of the stop, but that there was no tunnel, is
  -- the result; else the result is that of the first question that is not answered that there is no
  -- tunnel, or that the time is over, behind a round after which the deadline is.
  pub refresh_tunnel_for_device_ends :
      (timeout : ℕ) (s : Result ClientError (Unit {0}))
      → (r : Result ClientError Tunnel) × (refresh_tunnel_for_device clock info
            (enough timeout)
            timeout
            s
          ≡ some r)
        × Refreshes timeout s r
  unfolding refresh_tunnel_for_device after_stop
  refresh_tunnel_for_device_ends timeout (ok tt) =
      let (r, p, q) = waits timeout in (r, p, waited (ok tt) r (inl refl) q)
  refresh_tunnel_for_device_ends timeout (err e) = elim (Bool-cases (is_missing e)) [
    | inr s ↦ (err e, rw (refresh_tunnel_for_device, s) refl, not_stopped e s)
    | inl s ↦
        let (r, p, q) = waits timeout in
        (r, rw (refresh_tunnel_for_device, s) p, waited (err e) r (inr (ap err (missing_is e s))) q)
  ]
