-- ===== src/Dtx/Channel/Upkeep.antt =====
-- Every operation of a channel keeps its identifiers and queues in order.
use go_ios.Common.{
  ℕ, ◌+◌, ◌<◌, ◌≡◌, Bool, true, false, ◌||◌, Option, none, some, List, [], ◌∷◌, arith, length,
  length-append, drop, get_elem?, set, ltb, leb, if◌then◌else◌, Bool-cases, Option-cases, inl, inr,
}
use go_ios.Common.Bytes.{Bytes}
use go_ios.Common.Maps.{lookup, ℕ_eq, Bytes_eq}
use go_ios.Common.Result.{Result, ok, err, Result-cases, wrap, ◌>>=◌}
use go_ios.Dtx.Auxiliary.{PrimitiveDictionary}
use go_ios.Dtx.Message.{Message, is_fragment, is_first_fragment, is_last_fragment}
use go_ios.Dtx.Encoder.{encode, build_ack_message}
use go_ios.Dtx.Decoder.{decode_non_blocking}
use go_ios.Dtx.Fragment.{new_fragment_decoder, add_fragment, extract}
use go_ios.Dtx.Channel.{
  Queue, Channel, Fault, make_queue, update_queue, try_send, deliver_event, add_response_waiter,
  transmit, hand_over, send_response, respond, note_identifier, receive, receive_method_call,
  send_ack_if_needed, send, begin_call, decoded, registered_queue, finish_fragments,
  collect_fragment, dispatch_reply, dispatch, extract_fault,
}
use go_ios.Dtx.Channel.Identifiers.{
  Inv, make_queue-Inv, set-Inv, raise-Inv, add_response_waiter-Inv, remove_response_waiter-Inv,
  defragmenters-Inv,
}

module _ {O : Type 0} where
  update_queue-Inv :
      (f : Queue O → Queue O) (h : ℕ) (d : Channel O) → Inv d → Inv (update_queue f h d)
  unfolding update_queue
  update_queue-Inv f h d v =
      elim (get_elem? d.queues h)
        as (λ o. Inv (elim o [ none ↦ d | some q ↦ record d { queues = set d.queues h (f q) } ])) [
          | none ↦ v
          | some q ↦ set-Inv h (f q) d v
        ]

  -- A queue is left without its first message.
  pub receive-eq-some :
      (h : ℕ) (d : Channel O) {msg : Message O} {d' : Channel O}
      → receive h d ≡ some (msg, d')
      → (q : Queue O) × (d' ≡ record d { queues = set d.queues h q })
  unfolding receive
  receive-eq-some h d {msg} {d'} e = elim (Option-cases (get_elem? d.queues h)) [
    | inl missing ↦ ground arith
    | inr (q, there) ↦ (record q { messages = drop 1 q.messages }, ground arith)
  ]

  pub receive-Inv :
      (h : ℕ) (d : Channel O) {msg : Message O} {d' : Channel O}
      → receive h d ≡ some (msg, d')
      → Inv d
      → Inv d'
  receive-Inv h d e v = let (q, eq) = receive-eq-some h d e in rw eq (set-Inv h q d v)

  pub receive_method_call-Inv :
      (s : Bytes) (d : Channel O) {msg : Message O} {d' : Channel O}
      → receive_method_call s d ≡ some (msg, d')
      → Inv d
      → Inv d'
  unfolding receive_method_call
  receive_method_call-Inv s d {msg} {d'} e v = elim (Option-cases (lookup s d.registered_methods)) [
    | inl missing ↦ absurd (ground arith)
    | inr (h, there) ↦ receive-Inv h d {msg = msg} {d' = d'} (ground arith) v
  ]

  transmit-Inv : (a : Bool) (bytes : Bytes) (d : Channel O) → Inv d → Inv (transmit a bytes d)
  unfolding transmit
  transmit-Inv true bytes d v = record {
    waiters_below = v.waiters_below;
    defragmenters_below = v.defragmenters_below;
    waiters_queued = v.waiters_queued;
    methods_queued = v.methods_queued;
  }
  transmit-Inv false bytes d v = v

  hand_over-Inv : (msg : Message O) (d : Channel O) → Inv d → Inv (hand_over msg d)
  unfolding hand_over
  hand_over-Inv msg d v = record {
    waiters_below = v.waiters_below;
    defragmenters_below = v.defragmenters_below;
    waiters_queued = v.waiters_queued;
    methods_queued = v.methods_queued;
  }

  send_ack_if_needed-Inv :
      (a : Bool) (msg : Message O) (d : Channel O) → Inv d → Inv (send_ack_if_needed a msg d)
  unfolding send_ack_if_needed
  send_ack_if_needed-Inv a msg d v =
      elim msg.expects_reply
        as (λ b. Inv (
          if b
          then elim (build_ack_message msg) [ ok bytes ↦ transmit a bytes d | err e ↦ d ]
          else d)) [
            | false ↦ v
            | true ↦
                elim (build_ack_message msg)
                  as (λ r. Inv (elim r [ ok bytes ↦ transmit a bytes d | err e ↦ d ])) [
                    | ok bytes ↦ transmit-Inv a bytes d v
                    | err e ↦ v
                  ]
          ]

  send_response-Inv :
      (w : Option ℕ) (msg : Message O) (d : Channel O) → Inv d → Inv (send_response w msg d)
  unfolding send_response
  send_response-Inv none msg d v = v
  send_response-Inv (some h) msg d v = update_queue-Inv (try_send msg) h d v

  respond-Inv : (msg : Message O) (d : Channel O) → Inv d → Inv (respond msg d)
  unfolding respond
  respond-Inv msg d v =
      remove_response_waiter-Inv msg.identifier _
        (send_response-Inv (lookup msg.identifier d.response_waiters) msg d v)

  note_identifier-Inv : (msg : Message O) (d : Channel O) → Inv d → Inv (note_identifier msg d)
  unfolding note_identifier
  note_identifier-Inv msg d v = elim (Bool-cases (leb d.message_identifier msg.identifier)) [
    | inl e ↦ rw e (raise-Inv (msg.identifier + 1) d (ground arith) v)
    | inr e ↦ rw e v
  ]

  -- A message's own identifier is below the next one once it is noted.
  note_identifier-lt :
      (msg : Message O) (d : Channel O)
      → msg.identifier < (note_identifier msg d).message_identifier
  unfolding note_identifier
  note_identifier-lt msg d = ground arith

  pub send-Inv :
      (a x : Bool) (t : ℕ) (p : Bytes) (aux : PrimitiveDictionary) (d : Channel O)
      → Inv d
      → Inv (send a x t p aux d).0
  unfolding send
  send-Inv a x t p aux d v =
      let v' : Inv (record d { message_identifier = d.message_identifier + 1 }) =
        raise-Inv (d.message_identifier + 1) d (omega arith) v in
      elim (Result-cases (encode d.message_identifier 0 d.channel_code x t p aux)) [
        | inl (bytes, e) ↦ rw (send, e) (transmit-Inv a bytes _ v')
        | inr (e, refused) ↦ rw (send, refused) v'
      ]

  pub begin_call-Inv :
      (a x : Bool) (t : ℕ) (p : Bytes) (aux : PrimitiveDictionary) (d : Channel O)
      → Inv d
      → Inv (begin_call a x t p aux d).0
  unfolding begin_call
  begin_call-Inv a x t p aux d v =
      let v' : Inv (record d { message_identifier = d.message_identifier + 1 }) =
        raise-Inv (d.message_identifier + 1) d (omega arith) v in
      let next : Channel O =
        make_queue 1 (record d { message_identifier = d.message_identifier + 1 }) in
      let waiting : Inv (add_response_waiter d.message_identifier (length d.queues) next) =
        add_response_waiter-Inv d.message_identifier (length d.queues) next
          (unfold make_queue in omega arith)
          (unfold make_queue in
            omega (arith, length-append d.queues (record { capacity = 1; messages = [] } ∷ [])))
          (make_queue-Inv 1 _ v') in
      elim (Result-cases (encode d.message_identifier 0 d.channel_code x t p aux)) [
        | inr (e, refused) ↦ rw (begin_call, refused) v'
        | inl (bytes, e) ↦ elim (Bool-cases a) [
          | inl taken ↦ rw (begin_call, e, taken) (transmit-Inv true bytes _ waiting)
          | inr refused ↦
              rw (begin_call, e, refused)
                (remove_response_waiter-Inv d.message_identifier _ waiting)
        ]
      ]

  finish_fragments-Inv : (msg : Message O) (d : Channel O) → Inv d → Inv (finish_fragments msg d)
  unfolding finish_fragments
  finish_fragments-Inv msg d v = elim (Bool-cases (ltb 0 msg.conversation_index)) [
    | inl e ↦ rw (e) (respond-Inv msg d v)
    | inr e ↦ rw (e) (remove_response_waiter-Inv msg.identifier _ (hand_over-Inv msg d v))
  ]

-- What a fallible step gives, where it gives something.
abbrev pub Keeps : {O : Type 0} → Result Fault (Channel O) → Type 0
Keeps (ok d) = Inv d
Keeps (err _) = Unit

module _ {O : Type 0} (unarchive : Bytes → Option (List O)) (as_string : O → Option Bytes) where
  complete-Inv :
      (r : Result Fault Bytes) (d : Channel O)
      → Inv d
      → Keeps (
          r >>= λ bytes.
          decoded (decode_non_blocking unarchive bytes) >>= λ whole. ok (finish_fragments whole d))
  complete-Inv (err f) d v = tt
  complete-Inv (ok bytes) d v =
      elim (Result-cases (decoded (decode_non_blocking unarchive bytes))) [
        | inl (whole, e) ↦ rw (e) (finish_fragments-Inv whole d v)
        | inr (f, e) ↦ rw (e) tt
      ]

  collect_fragment-Inv :
      (msg : Message O) (d : Channel O)
      → msg.identifier < d.message_identifier
      → Inv d
      → Keeps (collect_fragment unarchive as_string msg d)
  unfolding collect_fragment
  collect_fragment-Inv msg d below v = elim (Option-cases (lookup msg.identifier d.defragmenters)) [
    | inl missing ↦
        rw (collect_fragment, Keeps, missing) (remove_response_waiter-Inv msg.identifier d v)
    | inr (f, there) ↦
        let v' = defragmenters-Inv msg.identifier (add_fragment f msg).0 d below v in
        elim (Bool-cases (is_last_fragment msg)) [
          | inl last ↦
              rw (collect_fragment, Keeps, there, last)
                (complete-Inv (wrap extract_fault (extract (add_fragment f msg).0)) _ v')
          | inr more ↦ rw (collect_fragment, Keeps, there, more) v'
        ]
  ]

  dispatch_reply-Inv :
      (a : Bool) (msg : Message O) (d : Channel O)
      → msg.identifier < d.message_identifier
      → Inv d
      → Keeps (dispatch_reply unarchive as_string a msg d)
  unfolding dispatch_reply
  dispatch_reply-Inv a msg d below v = elim (Bool-cases (is_first_fragment msg)) [
    | inl first ↦ elim (Option-cases (new_fragment_decoder msg)) [
      | inl e ↦ rw (dispatch_reply, Keeps, first, e) tt
      | inr (f, e) ↦
          rw (dispatch_reply, Keeps, first, e)
            (send_ack_if_needed-Inv a msg _ (defragmenters-Inv msg.identifier f d below v))
    ]
    | inr later ↦ elim (Bool-cases (is_fragment msg)) [
      | inl e ↦ rw (dispatch_reply, Keeps, later, e) (collect_fragment-Inv msg d below v)
      | inr e ↦ rw (dispatch_reply, Keeps, later, e) (respond-Inv msg d v)
    ]
  ]

  pub dispatch-Keeps :
      (a : Bool) (msg : Message O) (d : Channel O)
      → Inv d
      → Keeps (dispatch unarchive as_string a msg d)
  unfolding dispatch
  dispatch-Keeps a msg d v =
      let v' = note_identifier-Inv msg d v in
      elim (Option-cases (registered_queue unarchive as_string msg (note_identifier msg d))) [
        | inr (h, e) ↦ rw (dispatch, Keeps, e) (update_queue-Inv (deliver_event msg) h _ v')
        | inl e ↦ elim (Bool-cases (ltb 0 msg.conversation_index || is_fragment msg)) [
          | inl r ↦
              rw (dispatch, Keeps, e, r) (dispatch_reply-Inv a msg _ (note_identifier-lt msg d) v')
          | inr r ↦ rw (dispatch, Keeps, e, r) (hand_over-Inv msg _ v')
        ]
      ]
