-- ===== src/Dtx/Channel/Replies.antt =====
-- What `Dispatch` does with a reply that came in one piece, and with one that nobody waits for.
use go_ios.Common.{
  ℕ, ◌+◌, ◌<◌, ◌≤◌, ◌≡◌, ◌≢◌, refl, sym, ap, ◌∙◌, Bool, true, false, Option, none, some, List, [],
  ◌∷◌, arith, length, get_elem?, get_elem?-lt, get_elem?-set_self, get_elem?-set_ne, set, ltb, leb,
  ◌==◌, ==_self, ne→==_false, if◌then◌else◌, Bool-cases, inl, inr,
}
use go_ios.Common.Bytes.{Bytes}
use go_ios.Common.Maps.{lookup, delete, lookup-delete, ℕ_eq, Bytes_eq}
use go_ios.Common.Result.{ok}
use go_ios.Dtx.Message.{Message, method_invocation, is_fragment, is_first_fragment}
use go_ios.Dtx.Channel.{
  Channel, update_queue, try_send, remove_response_waiter, send_response, respond, note_identifier,
  receive, await_reply, time_out, dispatch, dispatch_reply, registered_queue,
}

-- A call waits: its identifier leads to a queue that has room for the reply.
pub record IsAwaiting {O : Type 0} (d : Channel O) (identifier h : ℕ) : Type 0 where
  pub waits : lookup identifier d.response_waiters ≡ some h
  pub room : get_elem? d.queues h ≡ some (record { capacity = 1; messages = [] })

-- An answer in one piece, which is no method call.
pub record IsReply {O : Type 0} (m : Message O) : Type 0 where
  pub whole : m.fragments ≤ 1
  pub answers : 0 < m.conversation_index
  pub no_call : m.payload_header.message_type ≢ method_invocation

-- the next identifier of a channel that has seen a message
abbrev pub raised : {O : Type 0} → Message O → Channel O → ℕ
raised m d =
    if leb d.message_identifier m.identifier then m.identifier + 1 else d.message_identifier

module _ {O : Type 0} where
  -- the channel once the waiter of the reply has it
  abbrev pub answered : ℕ → Message O → Channel O → Channel O
  answered h m d = record d {
    response_waiters = delete m.identifier d.response_waiters;
    defragmenters = delete m.identifier d.defragmenters;
    queues = set d.queues h (record { capacity = 1; messages = m ∷ [] });
  }

  pub respond-IsAwaiting :
      (m : Message O) (d : Channel O) {h : ℕ}
      → IsAwaiting d m.identifier h
      → respond m d ≡ answered h m d
  unfolding respond send_response update_queue try_send remove_response_waiter
  respond-IsAwaiting m d {h} w = rw (w.waits, update_queue, w.room)

  pub receive-answered :
      (m : Message O) (d : Channel O) (h : ℕ)
      → h < length d.queues
      → (d' : Channel O) × (receive h (answered h m d) ≡ some (m, d'))
  unfolding receive
  receive-answered m d h there =
      let e = get_elem?-set_self d.queues h (record { capacity = 1; messages = m ∷ [] }) there in
      (
        record (answered h m d) {
          queues =
              set (set d.queues h (record { capacity = 1; messages = m ∷ [] })) h
                (record { capacity = 1; messages = [] });
        },
        rw (receive, e),
      )

  pub note_identifier-raised :
      (m : Message O) (d : Channel O)
      → note_identifier m d ≡ record d { message_identifier = raised m d }
  unfolding note_identifier
  note_identifier-raised m d = elim (Bool-cases (leb d.message_identifier m.identifier)) [
    | inl e ↦ rw e
    | inr e ↦ rw e
  ]

  pub note_identifier-eq :
      (m : Message O) (d : Channel O)
      → (n : ℕ) × (note_identifier m d ≡ record d { message_identifier = n })
  note_identifier-eq m d = (raised m d, note_identifier-raised m d)

  pub note_identifier-IsAwaiting :
      (m : Message O) (d : Channel O) {k h : ℕ}
      → IsAwaiting d k h
      → IsAwaiting (note_identifier m d) k h
  unfolding note_identifier
  note_identifier-IsAwaiting m d w = elim (Bool-cases (leb d.message_identifier m.identifier)) [
    | inl e ↦ rw e (record { waits = w.waits; room = w.room })
    | inr e ↦ rw e w
  ]

  respond_unwaited :
      (m : Message O) (d : Channel O)
      → lookup m.identifier d.response_waiters ≡ none
      → respond m d ≡ remove_response_waiter m.identifier d
  unfolding respond send_response
  respond_unwaited m d e = rw e

-- What became of a channel `d` whose call with the queue `h` was answered by `m`.
pub record IsAnswered {O : Type 0} (h : ℕ) (m : Message O) (d d' : Channel O) : Type 0 where
  pub waiters :
      (k : ℕ)
      → lookup k d'.response_waiters
        ≡ (if m.identifier == k then none else lookup k d.response_waiters)
  pub fragments :
      (k : ℕ)
      → lookup k d'.defragmenters ≡ (if m.identifier == k then none else lookup k d.defragmenters)
  pub queue : get_elem? d'.queues h ≡ some (record { capacity = 1; messages = m ∷ [] })
  pub other_queues : (k : ℕ) → h ≢ k → get_elem? d'.queues k ≡ get_elem? d.queues k
  pub next : d'.message_identifier ≡ raised m d
  pub same_code : d'.channel_code ≡ d.channel_code
  pub same_methods : d'.registered_methods ≡ d.registered_methods
  pub same_sent : d'.sent ≡ d.sent
  pub same_dispatched : d'.dispatched ≡ d.dispatched

module _ {O : Type 0} where
  pub answered-IsAnswered :
      (h : ℕ) (m : Message O) (d : Channel O)
      → h < length d.queues
      → d.sent ≡ []
      → d.dispatched ≡ []
      → IsAnswered h m d
          (answered h m (record d { message_identifier = raised m d; sent = []; dispatched = [] }))
  answered-IsAnswered h m d there s t = record {
    waiters = λ k. lookup-delete m.identifier k d.response_waiters;
    fragments = λ k. lookup-delete m.identifier k d.defragmenters;
    queue = get_elem?-set_self d.queues h (record { capacity = 1; messages = m ∷ [] }) there;
    other_queues = λ k n. get_elem?-set_ne d.queues h k _ n;
    next = refl;
    same_code = refl;
    same_methods = refl;
    same_sent = sym s;
    same_dispatched = sym t;
  }

module _ {O : Type 0} (unarchive : Bytes → Option (List O)) (as_string : O → Option Bytes) where
  pub dispatch-IsReply :
      (accepts : Bool) (m : Message O) (d : Channel O)
      → IsReply m
      → dispatch unarchive as_string accepts m d ≡ ok (respond m (note_identifier m d))
  unfolding dispatch dispatch_reply registered_queue is_fragment is_first_fragment
  dispatch-IsReply accepts m d r =
      let a : ltb 1 m.fragments ≡ false = let h = r.whole in ground arith in
      let b : ltb 0 m.conversation_index ≡ true = let h = r.answers in ground arith in
      rw (
        dispatch,
        registered_queue,
        ne→==_false m.payload_header.message_type method_invocation r.no_call,
        dispatch_reply,
        is_first_fragment,
        is_fragment,
        a,
        b,
      )

  -- A reply in one piece, to a call that waits: the dispatcher gives it to this call, which then
  -- receives it, and forgets the call's waiter and fragments. The other calls wait as before, and
  -- neither the service's dispatcher nor the device gets anything.
  pub await_reply-dispatch :
      (accepts : Bool) (m : Message O) (d : Channel O) (h : ℕ)
      → IsReply m
      → IsAwaiting d m.identifier h
      → (d' : Channel O) × (after : Channel O) × (dispatch unarchive as_string accepts m d ≡ ok d')
        × (await_reply h d' ≡ some (m, after))
        × ((k : ℕ)
            → lookup k d'.response_waiters
              ≡ (if m.identifier == k then none else lookup k d.response_waiters))
        × (lookup m.identifier d'.defragmenters ≡ none)
        × (d'.dispatched ≡ d.dispatched)
        × (d'.sent ≡ d.sent)
  unfolding await_reply
  await_reply-dispatch accepts m d h r w =
      let (n, e) = note_identifier-eq m d in
      let (after, got) =
        receive-answered m (record d { message_identifier = n }) h
          (get_elem?-lt d.queues h w.room) in
      (
        answered h m (record d { message_identifier = n }),
        after,
        rw (dispatch-IsReply accepts m d r, e)
            (ap ok (
              respond-IsAwaiting m (record d { message_identifier = n })
                (record { waits = w.waits; room = w.room }))),
        got,
        λ k. lookup-delete m.identifier k d.response_waiters,
        lookup-delete m.identifier m.identifier d.defragmenters ∙ rw (==_self m.identifier),
        refl,
        refl,
      )

  -- A reply in one piece to a call that has timed out reaches nobody: no queue and no message to the
  -- device or the service's dispatcher comes of it, and the other calls wait as before.
  pub dispatch-time_out :
      (accepts : Bool) (m : Message O) (d : Channel O)
      → IsReply m
      → (d' : Channel O) × (dispatch unarchive as_string accepts m (time_out m.identifier d)
          ≡ ok d')
        × (d'.queues ≡ d.queues)
        × (d'.dispatched ≡ d.dispatched)
        × (d'.sent ≡ d.sent)
        × ((k : ℕ)
            → lookup k d'.response_waiters
              ≡ (if m.identifier == k then none else lookup k d.response_waiters))
  unfolding time_out remove_response_waiter
  dispatch-time_out accepts m d r =
      let (n, e) = note_identifier-eq m (time_out m.identifier d) in
      let gone : Channel O = record d {
        message_identifier = n;
        response_waiters = delete m.identifier d.response_waiters;
        defragmenters = delete m.identifier d.defragmenters;
      } in
      let unwaited : lookup m.identifier gone.response_waiters ≡ none =
        lookup-delete m.identifier m.identifier d.response_waiters ∙ rw (==_self m.identifier) in
      (
        remove_response_waiter m.identifier gone,
        rw (dispatch-IsReply accepts m (time_out m.identifier d) r, e)
            (ap ok (respond_unwaited m gone unwaited)),
        refl,
        refl,
        refl,
        λ k. ground (
          arith,
          lookup-delete m.identifier k (delete m.identifier d.response_waiters),
          lookup-delete m.identifier k d.response_waiters,
        ),
      )
