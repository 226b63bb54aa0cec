-- ===== src/Dtx/Connection/Routing.antt =====
-- Which channel a message that was read comes to.
use go_ios.Common.{
  ℕ, suc, ◌^◌, ◌<◌, ◌≡◌, refl, ap, ◌∙◌, Bool, false, Option, some, List, [], ◌++◌, map, append-nil,
  get_elem?-lt, if◌then◌else◌, ◌==◌, arith,
}
use go_ios.Common.Bytes.{Bytes}
use go_ios.Common.Maps.{lookup, insert, lookup-insert, ℕ_eq}
use go_ios.Common.Result.{ok, ◌>>=◌}
use go_ios.Dtx.Message.{Message}
use go_ios.Dtx.Decoder.{read_message}
use go_ios.Dtx.Channel.{Channel, new_channel, await_reply, dispatch}
use go_ios.Dtx.Channel.Replies.{
  IsAwaiting, IsReply, IsAnswered, answered, answered-IsAnswered, raised, note_identifier-raised,
  dispatch-IsReply, respond-IsAwaiting, receive-answered,
}
use go_ios.Dtx.Connection.{
  Key, key_same, Key_eq, an_int, a_uint32, Connection, channel_for, store, settle, emptied, route,
  reader, max_uint32, minus_one, add_default_channel_receiver, for_channel_request,
}

-- what the channel had for the device and its dispatcher has been taken
pub record IsTaken {O : Type 0} (d : Channel O) : Type 0 where
  pub nothing_to_send : d.sent ≡ []
  pub nothing_to_deliver : d.dispatched ≡ []

module _ {O : Type 0} where
  -- What a channel that gave nothing away leaves as it was.
  settled-eq :
      (key : Key) (d : Channel O) (c : Connection O)
      → d.sent ≡ []
      → d.dispatched ≡ []
      → settle key d c ≡ record c { active_channels = (settle key d c).active_channels }
  unfolding settle store
  settled-eq key d c e f =
      let sent : c.sent ++ d.sent ≡ c.sent = ap (λ t. c.sent ++ t) e ∙ append-nil c.sent in
      let delivered : c.delivered ++ map (λ m. (key, m)) d.dispatched ≡ c.delivered =
        ap (λ t. c.delivered ++ map (λ m. (key, m)) t) f ∙ append-nil c.delivered in
      rw (sent, delivered) refl

  -- The channel that `AddDefaultChannelReceiver` adds gets no message, whatever its channel code.
  default_receiver :
      (msg : Message O) (c : Connection O)
      → channel_for msg (add_default_channel_receiver c) ≡ channel_for msg c
  unfolding channel_for add_default_channel_receiver store
  default_receiver msg c =
      lookup-insert (a_uint32 max_uint32) (an_int msg.channel_code) _ c.active_channels

module _ {O : Type 0} (unarchive : Bytes → Option (List O)) (as_string : O → Option Bytes) where
  pub stored_request :
      (c c' : Connection O)
      → for_channel_request unarchive as_string c ≡ some (ok c')
      → (c'.active_channels ≡ insert (an_int minus_one) (new_channel minus_one 1) c.active_channels)
        × (c'.channel_code_counter ≡ c.channel_code_counter)
        × (c'.global_channel ≡ c.global_channel)
  unfolding for_channel_request store
  stored_request c c' e = ground arith

  -- The channel that `ForChannelRequest` adds under −1 gets no message whose channel code is read
  -- from the 32 bits of a message's header.
  requested_receiver :
      (msg : Message O) (c c' : Connection O)
      → msg.channel_code < 2 ^ 32
      → for_channel_request unarchive as_string c ≡ some (ok c')
      → channel_for msg c' ≡ channel_for msg c
  unfolding channel_for
  requested_receiver msg c c' small e =
      let differs : (minus_one == msg.channel_code) ≡ false = ground arith in
      ap (lookup (an_int msg.channel_code)) (stored_request c c' e).0
      ∙ lookup-insert (an_int minus_one) (an_int msg.channel_code) (new_channel minus_one 1)
          c.active_channels
      ∙ rw differs

  -- Where a channel was asked for by the device, and also where a default receiver was added after
  -- that, a message whose channel code is read from 32 bits comes to the same channel as before, or to
  -- none as before.
  pub channel_for_minus_one :
      (msg : Message O) (c c' : Connection O)
      → msg.channel_code < 2 ^ 32
      → for_channel_request unarchive as_string c ≡ some (ok c')
      → (channel_for msg c' ≡ channel_for msg c)
        × (channel_for msg (add_default_channel_receiver c') ≡ channel_for msg c)
  channel_for_minus_one msg c c' small e = (
    requested_receiver msg c c' small e,
    default_receiver msg c' ∙ requested_receiver msg c c' small e,
  )

  -- A reply in one piece that the reader finds at the front of the stream, on a channel where its
  -- call waits and that has nothing left to send or to hand over: the reader goes on with the bytes
  -- behind the reply, and the call receives it. Of the connection only this channel changes, and of
  -- this channel only the next identifier, which is raised past the reply's where it was not above it,
  -- the waiter and the fragments under the reply's identifier, which are forgotten, and the queue of
  -- the call.
  pub reader-IsReply :
      (accepts : ℕ → Bool) (fuel : ℕ) (s rest : Bytes) (msg : Message O) (c : Connection O)
      (d : Channel O) (h : ℕ)
      → read_message unarchive s ≡ ok (msg, rest)
      → IsReply msg
      → channel_for msg c ≡ some d
      → IsTaken d
      → IsAwaiting d msg.identifier h
      → (c' : Connection O) × (d' : Channel O) × (after : Channel O) × (reader unarchive as_string
            accepts
            (suc fuel)
            s
            c
          ≡ reader unarchive as_string accepts fuel rest c')
        × ((k : Key)
            → lookup k c'.active_channels ≡ (
                if key_same (an_int msg.channel_code) k
                then some d'
                else lookup k c.active_channels))
        × (await_reply h d' ≡ some (msg, after))
        × IsAnswered h msg d d'
        × (c' ≡ record c { active_channels = c'.active_channels })
  unfolding reader route settle store await_reply
  reader-IsReply accepts fuel s rest msg c d h read r found taken w =
      let noted : Channel O = record d { message_identifier = raised msg d } in
      let there = get_elem?-lt d.queues h w.room in
      let d' = answered h msg (emptied noted) in
      let step : dispatch unarchive as_string (accepts fuel) msg d ≡ ok (answered h msg noted) =
        dispatch-IsReply unarchive as_string (accepts fuel) msg d r
        ∙ rw (note_identifier-raised msg d)
            (ap ok (respond-IsAwaiting msg noted (record { waits = w.waits; room = w.room }))) in
      let routed : route unarchive as_string (accepts fuel) msg c
          ≡ ok (settle (an_int msg.channel_code) (answered h msg noted) c) =
        rw (route, found, step, ◌>>=◌) in
      let (after, got) = receive-answered msg (emptied noted) h there in
      (
        settle (an_int msg.channel_code) (answered h msg noted) c,
        d',
        after,
        rw (reader, read) (ap (λ r. r >>= reader unarchive as_string accepts fuel rest) routed),
        λ k. lookup-insert (an_int msg.channel_code) k d' c.active_channels,
        got,
        answered-IsAnswered h msg d there taken.nothing_to_send taken.nothing_to_deliver,
        settled-eq (an_int msg.channel_code) (answered h msg noted) c taken.nothing_to_send
            taken.nothing_to_deliver,
      )
