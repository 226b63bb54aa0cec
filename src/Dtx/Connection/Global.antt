-- ===== src/Dtx/Connection/Global.antt =====
-- What the reader does with a message on which the device asks for a channel.
use go_ios.Common.{
  ℕ, ◌≤◌, ◌≡◌, refl, ap, ◌∙◌, Bool, false, ◌||◌, Option, none, List, [], ◌∷◌, ◌++◌, length,
  Bool-cases, inl, inr, if◌then◌else◌, ltb, arith,
}
use go_ios.Common.Bytes.{Bytes}
use go_ios.Common.Maps.{lookup, Bytes_eq}
use go_ios.Common.Result.{Result, ok, err, ◌>>=◌}
use go_ios.Dtx.Message.{Message, Item, is_fragment}
use go_ios.Dtx.Channel.{
  Channel, note_identifier, hand_over, registered_queue, dispatch, selector_of,
}
use go_ios.Dtx.Channel.Replies.{note_identifier-eq}
use go_ios.Dtx.Connection.{
  Connection, Fault, blocked, request_channel, notify_published_caps, output_received, channel_for,
  emptied, queue_request, send_ack_if_needed, forward, connection_dispatch, dispatch_selector,
  global_dispatch, dispatch_handed_over, settle_global, route,
}
use go_ios.Dtx.Connection.Routing.{IsTaken}

module _ {O : Type 0} where
  send_ack_if_needed-eq :
      (a : Bool) (m : Message O) (c : Connection O)
      → send_ack_if_needed a m c ≡ record c { sent = (send_ack_if_needed a m c).sent }
  unfolding send_ack_if_needed
  send_ack_if_needed-eq a m c = ground arith

  forward-eq :
      (m : Message O) (c : Connection O)
      → forward m c ≡ record c { forwarded = (forward m c).forwarded }
  unfolding forward connection_dispatch
  forward-eq m c = ground arith

  with_request : Message O → Connection O → Connection O
  with_request m c = record c {
    request_channel_messages = record c.request_channel_messages {
      messages = c.request_channel_messages.messages ++ (m ∷ []);
    };
  }

  queued-forward :
      (m : Message O) (c : Connection O)
      → (queue_request m c >>= λ q. ok (forward m q)) ≡ (
          if ltb (length c.request_channel_messages.messages) c.request_channel_messages.capacity
          then ok (forward m (with_request m c))
          else err blocked)
  unfolding queue_request with_request
  queued-forward m c =
      elim (Bool-cases
        (ltb (length c.request_channel_messages.messages) c.request_channel_messages.capacity)) [
          | inl e ↦ rw (queue_request, e)
          | inr e ↦ rw (queue_request, e)
        ]

module _ {O : Type 0} (unarchive : Bytes → Option (List O)) (as_string : O → Option Bytes) where
  -- A message on which the device asks for a channel: in one piece, no answer, and on no channel
  -- that is there.
  pub record AsksForChannel (msg : Message O) (c : Connection O) : Type 0 where
    pub item : Item O
    pub items : List (Item O)
    pub has_items : msg.payload ≡ item ∷ items
    pub asks : selector_of unarchive as_string msg ≡ request_channel
    pub whole : msg.fragments ≤ 1
    pub no_answer : msg.conversation_index ≡ 0
    pub unregistered : lookup request_channel c.global_channel.registered_methods ≡ none
    pub global : channel_for msg c ≡ none
    pub taken : IsTaken c.global_channel

  dispatch-hand_over :
      (accepts : Bool) (msg : Message O) (d : Channel O)
      → lookup (selector_of unarchive as_string msg) d.registered_methods ≡ none
      → msg.fragments ≤ 1
      → msg.conversation_index ≡ 0
      → (n : ℕ) × (dispatch unarchive as_string accepts msg d
          ≡ ok (hand_over msg (record d { message_identifier = n })))
  unfolding dispatch registered_queue is_fragment
  dispatch-hand_over accepts msg d unregistered whole no_answer =
      let (n, e) = note_identifier-eq msg d in
      let a : (ltb 0 msg.conversation_index || ltb 1 msg.fragments) ≡ false = ground arith in
      let b : registered_queue unarchive as_string msg (record d { message_identifier = n })
          ≡ none =
        ground arith in
      let b' : registered_queue unarchive as_string msg (note_identifier msg d) ≡ none =
        ap (registered_queue unarchive as_string msg) e ∙ b in
      (n, rw (dispatch, b', is_fragment, a) (ap (λ x. ok (hand_over msg x)) e))

  dispatch_selector-request :
      (msg : Message O) (c : Connection O)
      → dispatch_selector unarchive as_string request_channel msg c
        ≡ (queue_request msg c >>= λ queued. ok (forward msg queued))
  unfolding dispatch_selector request_channel notify_published_caps output_received
  dispatch_selector-request msg c = refl

  global_dispatch-request :
      (accepts : Bool) (msg : Message O) (c : Connection O) {item : Item O} {items : List (Item O)}
      → msg.payload ≡ item ∷ items
      → selector_of unarchive as_string msg ≡ request_channel
      → global_dispatch unarchive as_string accepts msg c ≡ (
          queue_request msg (send_ack_if_needed accepts msg c) >>= λ queued.
          ok (forward msg queued))
  unfolding global_dispatch
  global_dispatch-request accepts msg c {item} {items} has asks =
      ap
        (λ p. elim p [
          | [] ↦ ok (forward msg (send_ack_if_needed accepts msg c))
          | _ ∷ _ ↦
              dispatch_selector unarchive as_string (selector_of unarchive as_string msg) msg
                (send_ack_if_needed accepts msg c)
        ])
        has
      ∙ ap (λ s. dispatch_selector unarchive as_string s msg (send_ack_if_needed accepts msg c))
          asks
      ∙ dispatch_selector-request msg (send_ack_if_needed accepts msg c)

  handed_over_once :
      (accepts : Bool) (r : Result Fault (Connection O))
      → (r >>= dispatch_handed_over unarchive as_string accepts []) ≡ r
  unfolding dispatch_handed_over
  handed_over_once accepts (ok c) = refl
  handed_over_once accepts (err e) = refl

  -- The global channel hands one message over.
  route-handed_over :
      (accepts : Bool) (msg : Message O) (c : Connection O) (d : Channel O)
      → dispatch unarchive as_string accepts msg c.global_channel ≡ ok d
      → channel_for msg c ≡ none
      → d.dispatched ≡ msg ∷ []
      → route unarchive as_string accepts msg c
        ≡ global_dispatch unarchive as_string accepts msg
            (record c { sent = c.sent ++ d.sent; global_channel = emptied d })
  unfolding route settle_global dispatch_handed_over
  route-handed_over accepts msg c d step global one =
      let c1 : Connection O = record c { sent = c.sent ++ d.sent; global_channel = emptied d } in
      let routed : route unarchive as_string accepts msg c
          ≡ settle_global unarchive as_string accepts d c =
        rw (route, global, step, ◌>>=◌) in
      routed
      ∙ ap (λ ms. dispatch_handed_over unarchive as_string accepts ms c1) one
      ∙ handed_over_once accepts (global_dispatch unarchive as_string accepts msg c1)

  -- A message on which the device asks for a channel: where the queue of requests has room the
  -- request is put behind those that wait, and the other channels are as they were; where the queue
  -- is full the reader is blocked.
  pub route-AsksForChannel :
      (accepts : Bool) (msg : Message O) (c : Connection O)
      → AsksForChannel msg c
      → let q = c.request_channel_messages in
        (c' : Connection O) × (route unarchive as_string accepts msg c
          ≡ (if ltb (length q.messages) q.capacity then ok c' else err blocked))
        × (c'.request_channel_messages ≡ record q { messages = q.messages ++ (msg ∷ []) })
        × (c'.active_channels ≡ c.active_channels)
  unfolding route settle_global dispatch_handed_over with_request hand_over
  route-AsksForChannel accepts msg c a =
      let (n, step) =
        dispatch-hand_over accepts msg c.global_channel
          (ap (λ s. lookup s c.global_channel.registered_methods) a.asks ∙ a.unregistered) a.whole
          a.no_answer in
      let d : Channel O = record c.global_channel {
        message_identifier = n;
        dispatched = msg ∷ [];
      } in
      let handed : hand_over msg (record c.global_channel { message_identifier = n }) ≡ d =
        ap (λ ms. record d { dispatched = ms ++ (msg ∷ []) }) a.taken.nothing_to_deliver in
      let c1 : Connection O = record c { sent = c.sent ++ d.sent; global_channel = emptied d } in
      let c2 : Connection O = record c1 { sent = (send_ack_if_needed accepts msg c1).sent } in
      (
        forward msg (with_request msg c2),
        route-handed_over accepts msg c d (step ∙ ap ok handed) a.global refl
            ∙ global_dispatch-request accepts msg c1 a.has_items a.asks
            ∙ ap (λ x. queue_request msg x >>= λ q. ok (forward msg q))
                (send_ack_if_needed-eq accepts msg c1)
            ∙ queued-forward msg c2,
        ap (λ x. x.request_channel_messages) (forward-eq msg (with_request msg c2)),
        ap (λ x. x.active_channels) (forward-eq msg (with_request msg c2)),
      )
