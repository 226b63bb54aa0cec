-- ===== src/Dtx/Connection.antt =====
-- ios/dtx_codec/connection.go: the channels of a connection, the reader that gives each message to
-- its channel, and what the global channel's dispatcher does. What a channel gives to the device or
-- to its service's dispatcher is listed in the connection, in one order for all channels.
-- `accepts` tells whether the device takes what is sent, `archive_bin` and `unarchive` are the
-- archiver, and `as_string` is the type assertion `.(string)` on an unarchived object.
pub mod Closing
pub mod Routing
pub mod Entries
pub mod Upkeep
pub mod Steps
pub mod Global
pub mod Reading
use go_ios.Common.{
  ℕ, zero, suc, ◌+◌, ◌-◌, ◌^◌, ◌<◌, ◌≡◌, refl, ap, Bool, true, false, not, ◌&&◌, ◌||◌, ◌↔◌, Option,
  none, some, List, [], ◌∷◌, ◌++◌, map, length, get_elem?, ltb, leb, ◌==◌, ==_iff, if◌then◌else◌,
  arith,
}
use go_ios.Common.Bytes.{Bytes}
use go_ios.Common.Text.{codes}
use go_ios.Common.Maps.{Eq, lookup, insert, bytes_same}
use go_ios.Common.Result.{Result, ok, err, need, wrap, ◌>>=◌, ◌>>◌}
use go_ios.Dtx.Auxiliary.{
  PrimitiveDictionary, Value, new_primitive_dictionary, add_int32, add_bytes, as_bytes,
}
use go_ios.Dtx.Message.{Message, Item, unknown_type_one, method_invocation}
use go_ios.Dtx.Encoder.{build_ack_message}
use go_ios.Dtx.Decoder.{DecodeError, slice_panicked, auxiliary_fault, read_message}
use go_ios.Dtx.Channel.{Queue, Channel, CallError, new_channel, begin_call, dispatch, selector_of}
use go_ios.Dtx.Channel

-- A key of a `sync.Map`: an interface value, which is equal to another of its own type only.
pub data Key : Type 0 where
  an_int a_uint32 : ℕ → Key

abbrev pub key_same : Key → Key → Bool
key_same (an_int a) (an_int b) = a == b
key_same (a_uint32 a) (a_uint32 b) = a == b
key_same _ _ = false

pub key_same_iff : (a b : Key) → (key_same a b ≡ true) ↔ (a ≡ b)
key_same_iff (an_int a) (an_int b) = ground arith
key_same_iff (a_uint32 a) (a_uint32 b) = ground arith
key_same_iff (an_int a) (a_uint32 b) = ground arith
key_same_iff (a_uint32 a) (an_int b) = ground arith

instance abbrev pub Key_eq : Eq Key
Key_eq = record { same = key_same; same_iff = key_same_iff }

-- The error that `Err` returns.
pub data ConnectionError : Type 0 where
  connection_closed : ConnectionError
  device_error : ℕ → ConnectionError
  read_failed : DecodeError → ConnectionError

pub record Connection (O : Type 0) : Type 0 where
  pub channel_code_counter : ℕ
  pub active_channels : List (Key × Channel O)
  pub global_channel : Channel O
  pub request_channel_messages : Queue O
  pub has_message_dispatcher : Bool
  pub sent : List Bytes
  pub delivered : List (Key × Message O)
  pub forwarded : List (Message O)
  pub closed : Bool
  pub error : Option ConnectionError

-- The panics of the reader, and the send that blocks it. `stuck` is no Go value.
pub data Fault : Type 0 where
  channel_fault : Channel.Fault → Fault
  blocked log_panicked read_panicked stuck : Fault

unfoldable pub request_channel : Bytes
request_channel = codes "_requestChannelWithCode:identifier:"

unfoldable pub notify_published_caps : Bytes
notify_published_caps = codes "_notifyOfPublishedCapabilities:"

unfoldable pub output_received : Bytes
output_received = codes "outputReceived:fromProcess:atTime:"

abbrev pub response_with_return_value_in_payload : ℕ
response_with_return_value_in_payload = 3

-- the `int` −1 and the greatest `uint32`
abbrev pub minus_one : ℕ
minus_one = 2 ^ 64 - 1

abbrev pub max_uint32 : ℕ
max_uint32 = 2 ^ 32 - 1

module _ {O : Type 0} where
  unfoldable pub new_dtx_connection : Connection O
  new_dtx_connection = record {
    channel_code_counter = 1;
    active_channels = [];
    global_channel = new_channel 0 5;
    request_channel_messages = record { capacity = 5; messages = [] };
    has_message_dispatcher = false;
    sent = [];
    delivered = [];
    forwarded = [];
    closed = false;
    error = none;
  }

  -- `close`, whose body runs once
  unfoldable pub close : Option ConnectionError → Connection O → Connection O
  close e c = if c.closed then c else record c { closed = true; error = e }

  -- `Close`: the argument is what closing the device connection returned, if there is one.
  unfoldable pub close_device : Option (Option ConnectionError) → Connection O → Connection O
  unfolding close
  close_device none c = close (some connection_closed) c
  close_device (some returned) c = close returned c

  unfoldable pub send_ack_if_needed : Bool → Message O → Connection O → Connection O
  send_ack_if_needed accepts msg c =
      if msg.expects_reply
      then elim (build_ack_message msg) [
        | ok bytes ↦ if accepts then record c { sent = c.sent ++ (bytes ∷ []) } else c
        | err e ↦ c
      ]
      else c

  -- `Connection.Dispatch`
  unfoldable pub connection_dispatch : Message O → Connection O → Connection O
  connection_dispatch msg c =
      if c.has_message_dispatcher then record c { forwarded = c.forwarded ++ (msg ∷ []) } else c

  -- `requestChannelMessages <- msg`, which waits for room
  unfoldable pub queue_request : Message O → Connection O → Result Fault (Connection O)
  queue_request msg c =
      if ltb (length c.request_channel_messages.messages) c.request_channel_messages.capacity
      then ok (record c {
        request_channel_messages = record c.request_channel_messages {
          messages = c.request_channel_messages.messages ++ (msg ∷ []);
        };
      })
      else err blocked

  -- the end of `GlobalDispatcher.Dispatch`
  unfoldable pub forward : Message O → Connection O → Connection O
  forward msg c =
      if msg.payload_header.message_type == unknown_type_one
        || msg.payload_header.message_type == response_with_return_value_in_payload
        || msg.payload_header.message_type == method_invocation
      then connection_dispatch msg c
      else c

  -- The channel has handed over what it had for the device and for its dispatcher.
  abbrev pub emptied : Channel O → Channel O
  emptied d = record d { sent = []; dispatched = [] }

  -- `activeChannels.Store`
  unfoldable pub store : Key → Channel O → Connection O → Connection O
  store key d c = record c { active_channels = insert key d c.active_channels }

  -- what a channel of a service did becomes the connection's
  unfoldable pub settle : Key → Channel O → Connection O → Connection O
  settle key d c = store key (emptied d) (record c {
    sent = c.sent ++ d.sent;
    delivered = c.delivered ++ map (λ msg. (key, msg)) d.dispatched;
  })

  -- `activeChannels.Load(msg.ChannelCode)`, whose key is an `int`
  unfoldable pub channel_for : Message O → Connection O → Option (Channel O)
  channel_for msg c = lookup (an_int msg.channel_code) c.active_channels

module _ {O : Type 0} (unarchive : Bytes → Option (List O)) (as_string : O → Option Bytes) where
  -- the text of a process's output, which is only logged: the panic is `logmsg[0]` of an empty
  -- archive
  unfoldable pub log_text : Value → Result Fault (Unit {0})
  log_text v = elim (as_bytes v) [
    | none ↦ ok tt
    | some b ↦ elim (unarchive b) [
      | none ↦ ok tt
      | some [] ↦ err log_panicked
      | some (_ ∷ _) ↦ ok tt
    ]
  ]

  unfoldable pub log_output : List Value → Result Fault (Unit {0})
  log_output (v ∷ (_ ∷ (_ ∷ _))) = log_text v
  log_output _ = ok tt

  unfoldable pub dispatch_selector : Bytes → Message O → Connection O → Result Fault (Connection O)
  dispatch_selector selector msg c = do
    queued ← if bytes_same request_channel selector then queue_request msg c else ok c
    if bytes_same selector notify_published_caps
        then ok queued
        else if bytes_same output_received selector
        then (do log_output msg.auxiliary.values; ok queued)
        else ok (forward msg queued)

  -- `GlobalDispatcher.Dispatch`
  unfoldable pub global_dispatch : Bool → Message O → Connection O → Result Fault (Connection O)
  global_dispatch accepts msg c =
      let acked = send_ack_if_needed accepts msg c in
      elim msg.payload [
        | [] ↦ ok (forward msg acked)
        | _ ∷ _ ↦ dispatch_selector (selector_of unarchive as_string msg) msg acked
      ]

  unfoldable pub dispatch_handed_over :
      Bool → List (Message O) → Connection O → Result Fault (Connection O)
  dispatch_handed_over accepts [] c = ok c
  dispatch_handed_over accepts (msg ∷ msgs) c =
      global_dispatch accepts msg c >>= dispatch_handed_over accepts msgs

  -- what the global channel did becomes the connection's
  unfoldable pub settle_global : Bool → Channel O → Connection O → Result Fault (Connection O)
  settle_global accepts d c =
      dispatch_handed_over accepts d.dispatched
        (record c { sent = c.sent ++ d.sent; global_channel = emptied d })

  -- One round of `reader`, for a message that was read.
  unfoldable pub route : Bool → Message O → Connection O → Result Fault (Connection O)
  route accepts msg c = elim (channel_for msg c) [
    | some d ↦ (do
      d' ← wrap channel_fault (dispatch unarchive as_string accepts msg d)
      ok (settle (an_int msg.channel_code) d' c))
    | none ↦ (do
      d' ← wrap channel_fault (dispatch unarchive as_string accepts msg c.global_channel)
      settle_global accepts d' c)
  ]

  -- the end of `reader`, with an error of `ReadMessage` or by a panic of it
  unfoldable pub ended : DecodeError → Connection O → Result Fault (Connection O)
  ended slice_panicked c = err read_panicked
  ended (auxiliary_fault f) c = err read_panicked
  ended e c = ok (close (some (read_failed e)) c)

  -- `reader`, for a connection that delivers `s` and then ends. In the round with `fuel` left the
  -- device takes what is sent where `accepts fuel` is true.
  unfoldable pub reader : (ℕ → Bool) → ℕ → Bytes → Connection O → Result Fault (Connection O)
  reader accepts zero s c = err stuck
  reader accepts (suc fuel) s c = elim (read_message unarchive s) [
    | err e ↦ ended e c
    | ok (msg, rest) ↦ route (accepts fuel) msg c >>= reader accepts fuel rest
  ]

  -- the name that the device asks a channel by: the panics are those of the index and the type
  -- assertions
  unfoldable pub requested_name : Message O → Option Bytes
  requested_name msg = elim (get_elem? msg.auxiliary.values 1) [
    | none ↦ none
    | some argument ↦ elim (as_bytes argument) [
      | none ↦ none
      | some bytes ↦ elim (unarchive bytes) [ some (o ∷ _) ↦ as_string o | _ ↦ none ]
    ]
  ]

  -- `ForChannelRequest` where a request is there: the error is its panic. None where it waits.
  unfoldable pub for_channel_request : Connection O → Option (Result (Unit {0}) (Connection O))
  for_channel_request c = elim c.request_channel_messages.messages [
    | [] ↦ none
    | msg ∷ rest ↦ elim (requested_name msg) [
      | none ↦ some (err tt)
      | some channel_name ↦ some (
          ok (
            store (an_int minus_one) (new_channel minus_one 1) (record c {
              request_channel_messages = record c.request_channel_messages { messages = rest };
            })))
    ]
  ]

module _ {O : Type 0} where
  unfoldable pub add_default_channel_receiver : Connection O → Connection O
  add_default_channel_receiver c = store (a_uint32 max_uint32) (new_channel minus_one 1) c

  -- `RequestChannelIdentifier` up to the wait for the reply: the channel's code is taken and the
  -- call on the global channel is made. The result of the call is only logged.
  unfoldable pub begin_request :
      (Bytes → Bytes) → Bool → Bytes → Connection O → Connection O × ℕ × Result CallError (ℕ × ℕ)
  begin_request archive_bin accepts identifier c =
      let code = c.channel_code_counter in
      let aux = add_bytes (add_int32 new_primitive_dictionary code) (archive_bin identifier) in
      let (d, called) =
        begin_call accepts true method_invocation (archive_bin request_channel) aux
          c.global_channel in
      (
        record c {
          channel_code_counter = code + 1;
          sent = c.sent ++ d.sent;
          global_channel = emptied d;
        },
        code,
        called,
      )

  -- its end, after the reply or without one
  unfoldable pub finish_request : ℕ → Connection O → Connection O
  finish_request code c = store (an_int code) (new_channel code 1) c
