-- ===== src/Dtx/Connection/Upkeep.antt =====
-- The reader keeps the channels of a connection in order.
use go_ios.Common.{
  subst, Bool, true, false, Option, List, [], ◌∷◌, ◌++◌, inl, inr, Option-cases, if◌then◌else◌,
}
use go_ios.Common.Bytes.{Bytes}
use go_ios.Common.Maps.{bytes_same}
use go_ios.Common.Result.{Result, ok, err, Result-cases, ◌>>=◌}
use go_ios.Dtx.Auxiliary.{Value, as_bytes}
use go_ios.Dtx.Message.{Message}
use go_ios.Dtx.Channel.{Channel, dispatch, selector_of}
use go_ios.Dtx.Channel.Identifiers.{new_channel-Inv}
use go_ios.Dtx.Channel.Upkeep.{Keeps, dispatch-Keeps}
use go_ios.Dtx.Channel.Identifiers
use go_ios.Dtx.Connection.{
  Key_eq, an_int, Connection, Fault, channel_for, settle_global, emptied, route, send_ack_if_needed,
  forward, queue_request, log_output, log_text, dispatch_selector, global_dispatch,
  dispatch_handed_over, request_channel, notify_published_caps, output_received,
}
use go_ios.Dtx.Connection.Entries.{
  Inv, SameChannels, Leaves, Logs, lookup-AreEntries, IsEntry-channel, emptied-Inv, settle-Inv,
  send_ack_if_needed-SameChannels, forward-SameChannels, queue_request-SameChannels,
  SameChannels-refl, Leaves-trans, >>=-Leaves, SameChannels-Inv,
}

module _ {O : Type 0} (unarchive : Bytes → Option (List O)) (as_string : O → Option Bytes) where
  log_text-Logs : (v : Value) → Logs (log_text unarchive as_string v)
  unfolding log_text
  log_text-Logs v = elim (Option-cases (as_bytes v)) [
    | inl e ↦ rw (log_text, e) tt
    | inr (b, e) ↦ elim (Option-cases (unarchive b)) [
      | inl u ↦ rw (log_text, e, u) tt
      | inr ([], u) ↦ rw (log_text, e, u) tt
      | inr (o ∷ os, u) ↦ rw (log_text, e, u) tt
    ]
  ]

  log_output-Logs : (vs : List Value) → Logs (log_output unarchive as_string vs)
  unfolding log_output
  log_output-Logs (v ∷ (w ∷ (x ∷ vs))) = log_text-Logs v
  log_output-Logs [] = tt
  log_output-Logs (v ∷ []) = tt
  log_output-Logs (v ∷ (w ∷ [])) = tt

  dispatch_selector-SameChannels :
      (selector : Bytes) (m : Message O) (c : Connection O)
      → Leaves (SameChannels c) (dispatch_selector unarchive as_string selector m c)
  unfolding dispatch_selector
  dispatch_selector-SameChannels selector m c =
      >>=-Leaves (SameChannels c) (SameChannels c)
        (if bytes_same request_channel selector then queue_request m c else ok c) _
        (queued (bytes_same request_channel selector))
        λ q p.
          Leaves-trans c q _ p (
            rest q (bytes_same selector notify_published_caps)
              (bytes_same output_received selector))
    where
      queued : (b : Bool) → Leaves (SameChannels c) (if b then queue_request m c else ok c)
      queued true = queue_request-SameChannels m c
      queued false = SameChannels-refl c

      logged :
          (q : Connection O) (r : Result Fault (Unit {0}))
          → Logs r
          → Leaves (SameChannels q) (r >>= λ u. ok q)
      logged q (ok u) l = SameChannels-refl q
      logged q (err e) l = l

      rest :
          (q : Connection O) (a b : Bool)
          → Leaves (SameChannels q) (
              if a
              then ok q
              else if b
              then (log_output unarchive as_string m.auxiliary.values >>= λ u. ok q)
              else ok (forward m q))
      rest q true b = SameChannels-refl q
      rest q false true =
          logged q (log_output unarchive as_string m.auxiliary.values)
            (log_output-Logs m.auxiliary.values)
      rest q false false = forward-SameChannels m q

  global_dispatch-SameChannels :
      (a : Bool) (m : Message O) (c : Connection O)
      → Leaves (SameChannels c) (global_dispatch unarchive as_string a m c)
  unfolding global_dispatch
  global_dispatch-SameChannels a m c =
      let acked = send_ack_if_needed a m c in
      Leaves-trans c acked _ (send_ack_if_needed-SameChannels a m c)
        (elim m.payload
          as (λ items. Leaves (SameChannels acked) (elim items [
            | [] ↦ ok (forward m acked)
            | _ ∷ _ ↦
                dispatch_selector unarchive as_string (selector_of unarchive as_string m) m acked
          ])) [
            | [] ↦ forward-SameChannels m acked
            | _ ∷ _ ↦ dispatch_selector-SameChannels (selector_of unarchive as_string m) m acked
          ])

  dispatch_handed_over-SameChannels :
      (a : Bool) (ms : List (Message O)) (c : Connection O)
      → Leaves (SameChannels c) (dispatch_handed_over unarchive as_string a ms c)
  unfolding dispatch_handed_over
  dispatch_handed_over-SameChannels a [] c = SameChannels-refl c
  dispatch_handed_over-SameChannels a (m ∷ ms) c =
      >>=-Leaves (SameChannels c) (SameChannels c) (global_dispatch unarchive as_string a m c) _
        (global_dispatch-SameChannels a m c)
        λ d p. Leaves-trans c d _ p (dispatch_handed_over-SameChannels a ms d)

  pub settle_global-Inv :
      (a : Bool) (d : Channel O) (c : Connection O)
      → Identifiers.Inv d
      → Inv c
      → Leaves Inv (settle_global unarchive as_string a d c)
  unfolding settle_global
  settle_global-Inv a d c v i =
      let c' : Connection O = record c { sent = c.sent ++ d.sent; global_channel = emptied d } in
      let i' : Inv c' = record { entries = i.entries; global = emptied-Inv d v } in
      kept (dispatch_handed_over unarchive as_string a d.dispatched c')
        (dispatch_handed_over-SameChannels a d.dispatched c') i'
    where
      kept :
          {b : Connection O} (r : Result Fault (Connection O))
          → Leaves (SameChannels b) r
          → Inv b
          → Leaves Inv r
      kept {b} (ok e) s i = SameChannels-Inv b e s i
      kept (err f) s i = s

  pub route-Inv :
      (a : Bool) (m : Message O) (c : Connection O)
      → Inv c
      → Leaves Inv (route unarchive as_string a m c)
  unfolding route channel_for
  route-Inv a m c i = elim (Option-cases (channel_for m c)) [
    | inl missing ↦ elim (Result-cases (dispatch unarchive as_string a m c.global_channel)) [
      | inl (d, e) ↦
          rw (route, missing, e, ◌>>=◌)
            (settle_global-Inv a d c
              (subst Keeps e (dispatch-Keeps unarchive as_string a m c.global_channel i.global)) i)
      | inr (f, e) ↦ rw (route, missing, e, ◌>>=◌) tt
    ]
    | inr (d, found) ↦ elim (Result-cases (dispatch unarchive as_string a m d)) [
      | inl (d', e) ↦
          let v = IsEntry-channel c.channel_code_counter (an_int m.channel_code) d (
            lookup-AreEntries c.channel_code_counter (an_int m.channel_code) c.active_channels
              i.entries found) in
          rw (route, found, e, ◌>>=◌)
            (settle-Inv (an_int m.channel_code) d d' c found
              (subst Keeps e (dispatch-Keeps unarchive as_string a m d v)) i)
      | inr (f, e) ↦ rw (route, found, e, ◌>>=◌) tt
    ]
  ]
