-- ===== src/Dtx/Channel/Events.antt =====
-- The queue of a registered method holds the newest calls.
use go_ios.Common.{
  ℕ, zero, suc, ◌+◌, ◌-◌, ◌<◌, ◌≤◌, ◌≡◌, ap, List, [], ◌∷◌, ◌++◌, arith, length, length-append,
  drop, ltb, lt→ltb, Bool-cases, inl, inr,
}
use go_ios.Dtx.Message.{Message}
use go_ios.Dtx.Channel.{Queue, deliver, deliver_event}

module _ {O : Type 0} where
  -- the last `c` of the messages
  abbrev pub newest : ℕ → List (Message O) → List (Message O)
  newest c ms = drop (length ms - c) ms

  newest_short : (c : ℕ) (ms : List (Message O)) → length ms ≤ c → newest c ms ≡ ms
  newest_short c ms h = let e : length ms - c ≡ 0 = omega arith in ap (λ k. drop k ms) e

  newest-cons :
      (c : ℕ) (m : Message O) (ms : List (Message O))
      → c ≤ length ms
      → newest c (m ∷ ms) ≡ newest c ms
  newest-cons c m ms h =
      let e : suc (length ms) - c ≡ suc (length ms - c) = omega arith in ap (λ k. drop k (m ∷ ms)) e

  deliver-newest :
      (fuel c : ℕ) (msg : Message O) (ms : List (Message O))
      → 0 < c
      → length ms < fuel
      → deliver fuel msg (record { capacity = c; messages = ms })
        ≡ record { capacity = c; messages = newest c (ms ++ (msg ∷ [])) }
  unfolding deliver
  deliver-newest zero c msg ms pos h = absurd (omega arith)
  deliver-newest (suc fuel) c msg [] pos h =
      rw (deliver, lt→ltb 0 c pos, newest_short c (msg ∷ []) (omega arith))
  deliver-newest (suc fuel) c msg (m ∷ ms) pos h = elim (Bool-cases (ltb (suc (length ms)) c)) [
    | inl room ↦ rw (
      deliver,
      room,
      newest_short c (m ∷ (ms ++ (msg ∷ []))) (ground (arith, length-append ms (msg ∷ []))),
    )
    | inr full ↦
        rw
          (
            deliver,
            full,
            newest-cons c m (ms ++ (msg ∷ [])) (ground (arith, length-append ms (msg ∷ []))),
          )
          (deliver-newest fuel c msg ms pos (omega arith))
  ]

  -- A method call that arrives for a selector whose queue has room for `capacity` messages is put
  -- behind those that wait, and of all these the queue then holds the last `capacity`: the loop
  -- ends, the newest call is kept, the order is kept, and what is lost is the oldest.
  pub deliver_event-newest :
      (msg : Message O) (q : Queue O)
      → 0 < q.capacity
      → deliver_event msg q ≡ record q { messages = newest q.capacity (q.messages ++ (msg ∷ [])) }
  unfolding deliver_event
  deliver_event-newest msg q pos =
      deliver-newest (length q.messages + 1) q.capacity msg q.messages pos (omega arith)
