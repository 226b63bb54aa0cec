-- ===== src/Dtx/Channel.antt =====
-- ios/dtx_codec/channel.go: the calls that wait for replies, the fragments that are being collected,
-- and the queues of method calls that the device makes. A Go channel is a queue, and is named by its
-- place in `queues`, so that a waiter and the caller that made it share one. What the dispatcher of
-- the service gets and what the device connection has been given are listed in their order.
-- `as_string` is the type assertion `.(string)` on an unarchived object.
pub mod Events
pub mod Identifiers
pub mod Upkeep
pub mod Steps
pub mod Replies
pub mod Fragments
pub mod Assembly
pub mod Panics
pub mod Calls
use go_ios.Common.{
  ℕ, zero, suc, ◌+◌, ◌-◌, ◌<◌, Bool, true, false, not, ◌&&◌, ◌||◌, Option, none, some, List, [],
  ◌∷◌, ◌++◌, length, drop, get_elem?, set, ltb, leb, ◌==◌, if◌then◌else◌,
}
use go_ios.Common.Bytes.{Bytes}
use go_ios.Common.Maps.{lookup, insert, delete, ℕ_eq, Bytes_eq}
use go_ios.Common.Result.{Result, ok, err, need, wrap, ◌>>=◌}
use go_ios.Dtx.Auxiliary.{PrimitiveDictionary, WriteError}
use go_ios.Dtx.Message.{
  Message, Item, raw, object, method_invocation, is_fragment, is_first_fragment, is_last_fragment,
  has_error,
}
use go_ios.Dtx.Encoder.{encode, build_ack_message}
use go_ios.Dtx.Decoder.{DecodeError, slice_panicked, auxiliary_fault, decode_non_blocking}
use go_ios.Dtx.Fragment.{
  FragmentDecoder, empty_message, new_fragment_decoder, add_fragment, ExtractFault, extract,
}

-- A Go channel of messages with a buffer.
pub record Queue (O : Type 0) : Type 0 where
  pub capacity : ℕ
  pub messages : List (Message O)

pub record Channel (O : Type 0) : Type 0 where
  pub channel_code : ℕ
  pub message_identifier : ℕ
  pub response_waiters : List (ℕ × ℕ)
  pub defragmenters : List (ℕ × FragmentDecoder O)
  pub registered_methods : List (Bytes × ℕ)
  pub queues : List (Queue O)
  pub sent : List Bytes
  pub dispatched : List (Message O)

abbrev pub registered_method_buffer : ℕ
registered_method_buffer = 16

-- A channel as the connection makes it: no calls, no fragments, no methods.
unfoldable pub new_channel : {O : Type 0} → ℕ → ℕ → Channel O
new_channel code first_identifier = record {
  channel_code = code;
  message_identifier = first_identifier;
  response_waiters = [];
  defragmenters = [];
  registered_methods = [];
  queues = [];
  sent = [];
  dispatched = [];
}

-- the panics that a message can cause
pub data Fault : Type 0 where
  not_a_first_fragment : Fault
  extract_fault : ExtractFault → Fault
  decode_fault : DecodeError → Fault

pub data CallError : Type 0 where
  not_encoded : WriteError → CallError
  not_sent : CallError

module _ {O : Type 0} where
  -- `make(chan Message, capacity)`; its name is the number of queues before.
  unfoldable pub make_queue : ℕ → Channel O → Channel O
  make_queue capacity d = record d {
    queues = d.queues ++ (record { capacity = capacity; messages = [] } ∷ []);
  }

  unfoldable pub update_queue : (Queue O → Queue O) → ℕ → Channel O → Channel O
  update_queue f h d = elim (get_elem? d.queues h) [
    | none ↦ d
    | some q ↦ record d { queues = set d.queues h (f q) }
  ]

  -- `select { case q <- msg: default: }`
  unfoldable pub try_send : Message O → Queue O → Queue O
  try_send msg q =
      if ltb (length q.messages) q.capacity
      then record q { messages = q.messages ++ (msg ∷ []) }
      else q

  unfoldable pub register_method_for_remote : Bytes → Channel O → Channel O
  unfolding make_queue
  register_method_for_remote selector d = record (make_queue registered_method_buffer d) {
    registered_methods = insert selector (length d.queues) d.registered_methods;
  }

  -- `ReceiveMethodCall` where a call is there; none where it blocks.
  unfoldable pub receive : ℕ → Channel O → Option (Message O × Channel O)
  receive h d = elim (get_elem? d.queues h) [
    | none ↦ none
    | some q ↦ elim q.messages [
      | [] ↦ none
      | msg ∷ rest ↦ some (msg, record d { queues = set d.queues h (record q { messages = rest }) })
    ]
  ]

  unfoldable pub receive_method_call : Bytes → Channel O → Option (Message O × Channel O)
  receive_method_call selector d = elim (lookup selector d.registered_methods) [
    | none ↦ none
    | some h ↦ receive h d
  ]

  -- The loop drops the oldest message until the new one finds room.
  unfoldable pub deliver : ℕ → Message O → Queue O → Queue O
  deliver zero msg q = q
  deliver (suc fuel) msg q = elim (ltb (length q.messages) q.capacity) [
    | true ↦ record q { messages = q.messages ++ (msg ∷ []) }
    | false ↦ deliver fuel msg (record q { messages = drop 1 q.messages })
  ]

  unfoldable pub deliver_event : Message O → Queue O → Queue O
  deliver_event msg q = deliver (length q.messages + 1) msg q

  -- `connection.Send`, which the device connection takes or refuses
  unfoldable pub transmit : Bool → Bytes → Channel O → Channel O
  transmit accepts bytes d = if accepts then record d { sent = d.sent ++ (bytes ∷ []) } else d

  unfoldable pub send_ack_if_needed : Bool → Message O → Channel O → Channel O
  send_ack_if_needed accepts msg d =
      if msg.expects_reply
      then elim (build_ack_message msg) [ ok bytes ↦ transmit accepts bytes d | err e ↦ d ]
      else d

  unfoldable pub send :
      Bool → Bool → ℕ → Bytes → PrimitiveDictionary → Channel O → Channel O × Option CallError
  send accepts expects_reply message_type payload aux d =
      let next = record d { message_identifier = d.message_identifier + 1 } in
      elim (encode d.message_identifier 0 d.channel_code expects_reply message_type payload aux) [
        | err e ↦ (next, some (not_encoded e))
        | ok bytes ↦ (transmit accepts bytes next, if accepts then none else some not_sent)
      ]

  unfoldable pub add_response_waiter : ℕ → ℕ → Channel O → Channel O
  add_response_waiter identifier h d = record d {
    response_waiters = insert identifier h d.response_waiters;
  }

  unfoldable pub remove_response_waiter : ℕ → Channel O → Channel O
  remove_response_waiter identifier d = record d {
    response_waiters = delete identifier d.response_waiters;
    defragmenters = delete identifier d.defragmenters;
  }

  -- `sendAndAwaitReply` up to its `select`: the identifier of the message and the queue for its
  -- reply. The waiter is there before the message is sent.
  unfoldable pub begin_call :
      Bool
      → Bool
      → ℕ
      → Bytes
      → PrimitiveDictionary
      → Channel O
      → Channel O × Result CallError (ℕ × ℕ)
  begin_call accepts expects_reply message_type payload aux d =
      let identifier = d.message_identifier in
      let next = record d { message_identifier = identifier + 1 } in
      elim (encode identifier 0 d.channel_code expects_reply message_type payload aux) [
        | err e ↦ (next, err (not_encoded e))
        | ok bytes ↦
            let waiting = add_response_waiter identifier (length d.queues) (make_queue 1 next) in
            if accepts
            then (transmit true bytes waiting, ok (identifier, length d.queues))
            else (remove_response_waiter identifier waiting, err not_sent)
      ]

  -- the two cases of the `select`: a reply, or the end of the context
  unfoldable pub await_reply : ℕ → Channel O → Option (Message O × Channel O)
  await_reply h d = receive h d

  unfoldable pub time_out : ℕ → Channel O → Channel O
  time_out identifier d = remove_response_waiter identifier d

  unfoldable pub hand_over : Message O → Channel O → Channel O
  hand_over msg d = record d { dispatched = d.dispatched ++ (msg ∷ []) }

  unfoldable pub send_response : Option ℕ → Message O → Channel O → Channel O
  send_response none msg d = d
  send_response (some h) msg d = update_queue (try_send msg) h d

  -- the reply's waiter and fragments are forgotten
  unfoldable pub respond : Message O → Channel O → Channel O
  respond msg d =
      remove_response_waiter msg.identifier
        (send_response (lookup msg.identifier d.response_waiters) msg d)

  unfoldable pub note_identifier : Message O → Channel O → Channel O
  note_identifier msg d =
      if leb d.message_identifier msg.identifier
      then record d { message_identifier = msg.identifier + 1 }
      else d

  -- the message that the last fragment completed
  unfoldable pub finish_fragments : Message O → Channel O → Channel O
  finish_fragments msg d =
      if ltb 0 msg.conversation_index
      then respond msg d
      else remove_response_waiter msg.identifier (hand_over msg d)

-- The message that `DecodeNonBlocking` returns: the zero value with an error, unless it panics.
unfoldable pub decoded :
    {O : Type 0} → Result DecodeError (Message O × Bytes) → Result Fault (Message O)
decoded (ok (msg, rest)) = ok msg
decoded (err slice_panicked) = err (decode_fault slice_panicked)
decoded (err (auxiliary_fault f)) = err (decode_fault (auxiliary_fault f))
decoded (err _) = ok empty_message

module _ {O : Type 0} (unarchive : Bytes → Option (List O)) (as_string : O → Option Bytes) where
  -- `selector, _ = msg.Payload[0].(string)`
  unfoldable pub selector_of : Message O → Bytes
  selector_of msg = elim msg.payload [
    | [] ↦ []
    | raw _ ∷ _ ↦ []
    | object o ∷ _ ↦ elim (as_string o) [ none ↦ [] | some s ↦ s ]
  ]

  unfoldable pub registered_queue : Message O → Channel O → Option ℕ
  registered_queue msg d =
      if msg.payload_header.message_type == method_invocation
      then lookup (selector_of msg) d.registered_methods
      else none

  unfoldable pub collect_fragment : Message O → Channel O → Result Fault (Channel O)
  collect_fragment msg d = elim (lookup msg.identifier d.defragmenters) [
    | none ↦ ok (remove_response_waiter msg.identifier d)
    | some f ↦
        let f' = (add_fragment f msg).0 in
        let d' = record d { defragmenters = insert msg.identifier f' d.defragmenters } in
        if not (is_last_fragment msg) then ok d' else (do
          bytes ← wrap extract_fault (extract f')
          whole ← decoded (decode_non_blocking unarchive bytes)
          ok (finish_fragments whole d'))
  ]

  unfoldable pub dispatch_reply : Bool → Message O → Channel O → Result Fault (Channel O)
  dispatch_reply accepts msg d =
      if is_first_fragment msg
      then (do
        f ← need not_a_first_fragment (new_fragment_decoder msg)
        ok (
            send_ack_if_needed accepts msg
              (record d { defragmenters = insert msg.identifier f d.defragmenters })))
      else if is_fragment msg
      then collect_fragment msg d
      else ok (respond msg d)

  -- The reader of the connection calls this for each message of the channel.
  unfoldable pub dispatch : Bool → Message O → Channel O → Result Fault (Channel O)
  dispatch accepts msg d =
      let noted = note_identifier msg d in
      elim (registered_queue msg noted) [
        | some h ↦ ok (update_queue (deliver_event msg) h noted)
        | none ↦
            if ltb 0 msg.conversation_index || is_fragment msg
            then dispatch_reply accepts msg noted
            else ok (hand_over msg noted)
      ]
