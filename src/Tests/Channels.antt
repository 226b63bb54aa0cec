-- ===== src/Tests/Channels.antt =====
-- ios/dtx_codec/channel.go at concrete channels and messages.
use go_ios.Common.{
  ℕ, zero, suc, ◌≡◌, refl, true, false, Option, some, none, inl, inr, List, [], ◌∷◌, ◌++◌, arith,
  replicate, if◌then◌else◌, ◌==◌,
}
use go_ios.Common.Bytes.{Bytes, be, un_be, le}
use go_ios.Common.Maps.{lookup, ℕ_eq, Bytes_eq}
use go_ios.Common.Result.{ok, err}
use go_ios.Dtx.Auxiliary.{new_primitive_dictionary, to_bytes, write_pairs}
use go_ios.Dtx.Message.{Message, is_first_fragment, is_fragment, has_auxiliary, has_payload}
use go_ios.Dtx.Encoder.{encode}
use go_ios.Dtx.Encoder.Layout.{layout, encode-layout, header_bytes}
use go_ios.Dtx.Decoder.{
  decode_non_blocking, read_header, decode_whole, decode_auxiliary_part, parse_payload_header,
}
use go_ios.Dtx.Fragment.{empty_message, illegal_state}
use go_ios.Dtx.Fragment.Reassembly.{AllArrive}
use go_ios.Dtx.Fragment.Merge.{IsCut, join, first_fragment_bytes}
use go_ios.Dtx.Channel.{
  Queue, Channel, extract_fault, new_channel, register_method_for_remote, deliver_event, begin_call,
  await_reply, time_out, decoded, dispatch,
}
use go_ios.Dtx.Channel.Events.{newest, deliver_event-newest}
use go_ios.Dtx.Channel.Identifiers.{Inv, new_channel-Inv}
use go_ios.Dtx.Channel.Steps.{
  Reach, starts, goes_on, registers, calls, Reach-Inv, IsOwn, begin_call-IsOwn,
}
use go_ios.Dtx.Channel.Replies.{IsAwaiting, IsReply, dispatch-time_out}
use go_ios.Dtx.Channel.Assembly.{IsPiece, dispatch_all, await_reply-dispatch_all}
use go_ios.Dtx.Channel.Panics.{dispatch_panics}
use go_ios.Dtx.Channel.Calls.{method_call, argument_pairs, method_call-sent}
use go_ios.Dtx.Auxiliary.RoundTrip.{wire}
use go_ios.Dtx.Auxiliary.{of_pairs}
use go_ios.Dtx.Message.{object}
use go_ios.Dtx.Decoder.{dispatch_payload, unarchive_items}
use go_ios.Dtx.Decoder.Headers.{sent_message}

abbrev pub unarchive : Bytes → Option (List Bytes)
unarchive s = some (s ∷ [])

abbrev pub as_string : Bytes → Option Bytes
as_string s = some s

abbrev pub room : Queue Bytes
room = record { capacity = 1; messages = [] }

-- the call with identifier 7 waits on queue 1, the call with identifier 8 on queue 0
abbrev pub waiting : Channel Bytes
waiting = record {
  channel_code = 3;
  message_identifier = 9;
  response_waiters = (8, 0) ∷ ((7, 1) ∷ []);
  defragmenters = [];
  registered_methods = [];
  queues = room ∷ (room ∷ []);
  sent = [];
  dispatched = [];
}

abbrev reply : Message Bytes
reply = record empty_message { identifier = 7; conversation_index = 1; channel_code = 3 }

reply-IsReply : IsReply reply
reply-IsReply = record { whole = omega arith; answers = omega arith; no_call = omega arith }

pub waiting-IsAwaiting : IsAwaiting waiting 7 1
waiting-IsAwaiting = record { waits = unfold lookup in refl; room = refl }

dispatch-time_out_example :
    (d' : Channel Bytes) × (dispatch unarchive as_string true reply (time_out 7 waiting) ≡ ok d')
    × (d'.queues ≡ waiting.queues)
    × (d'.dispatched ≡ [])
    × (d'.sent ≡ [])
    × ((k : ℕ)
        → lookup k d'.response_waiters
          ≡ (if 7 == k then none else lookup k waiting.response_waiters))
dispatch-time_out_example = dispatch-time_out unarchive as_string true reply waiting reply-IsReply

-- a new channel on which a method was registered and a call was made
abbrev selector : Bytes
selector = b'g' ∷ (b'o' ∷ [])

abbrev called : Channel Bytes
called =
    (begin_call true true 2 selector new_primitive_dictionary
      (register_method_for_remote selector (new_channel 3 1))).0

called-Reach : Reach unarchive as_string (new_channel 3 1) called
called-Reach =
    goes_on (register_method_for_remote selector (new_channel 3 1)) called
      (goes_on (new_channel 3 1) _ starts (registers selector))
      (calls true true 2 selector new_primitive_dictionary)

Reach-Inv_example : Inv called
Reach-Inv_example = Reach-Inv unarchive as_string 3 1 called-Reach

call_encoded :
    encode 1 0 3 true 2 selector new_primitive_dictionary ≡ ok (layout 18 1 0 3 true 2 selector [])
call_encoded =
    encode-layout 1 0 3 true 2 selector new_primitive_dictionary []
      (unfold to_bytes write_pairs in refl) (omega arith)

call_begun :
    begin_call true true 2 selector new_primitive_dictionary (new_channel {O = Bytes} 3 1)
    ≡ ((begin_call true true 2 selector new_primitive_dictionary (new_channel 3 1)).0, ok (1, 0))
unfolding begin_call new_channel
call_begun = rw (begin_call, call_encoded)

begin_call-IsOwn_example :
    IsOwn
      (new_channel {O = Bytes} 3 1)
      (begin_call true true 2 selector new_primitive_dictionary (new_channel 3 1)).0
      1
      0
begin_call-IsOwn_example =
    begin_call-IsOwn true true 2 selector new_primitive_dictionary (new_channel 3 1)
      (new_channel-Inv 3 1) call_begun

abbrev calls_waiting : Queue Bytes
calls_waiting = record {
  capacity = 2;
  messages =
      record empty_message { identifier = 1 } ∷ (record empty_message { identifier = 2 } ∷ []);
}

deliver_event-newest_example :
    deliver_event reply calls_waiting
    ≡ record { capacity = 2; messages = newest 2 (calls_waiting.messages ++ (reply ∷ [])) }
deliver_event-newest_example = deliver_event-newest reply calls_waiting (omega arith)

-- a reply of 16 bytes behind its header, in two chunks
abbrev chunks : List Bytes
chunks = replicate 8 0 ∷ (replicate 8 0 ∷ [])

abbrev first : Message Bytes
first = record empty_message {
  fragments = 3;
  message_length = 16;
  identifier = 7;
  conversation_index = 1;
  channel_code = 3;
  fragment_bytes = first_fragment_bytes 3 16 7 1 3 false;
}

abbrev piece : ℕ → Message Bytes
piece j = record empty_message {
  fragments = 3;
  fragment_index = j;
  identifier = 7;
  conversation_index = 1;
  channel_code = 3;
  fragment_bytes = replicate 8 0;
}

first-IsCut : IsCut first chunks 7 1 3 false
first-IsCut = record {
  is_first = unfold is_first_fragment in refl;
  counted = refl;
  count_fits = omega arith;
  sized = refl;
  size_fits = omega arith;
  header = refl;
}

piece-IsPiece : IsPiece first chunks (piece 1)
piece-IsPiece = record {
  of = record {
    same_message = refl;
    same_count = refl;
    behind_first = omega arith;
    carries = refl;
  };
  no_call = omega arith;
}

last-IsPiece : IsPiece first chunks (piece 2)
last-IsPiece = record {
  of = record {
    same_message = refl;
    same_count = refl;
    behind_first = omega arith;
    carries = refl;
  };
  no_call = omega arith;
}

all_arrive : AllArrive chunks (piece 1 ∷ (piece 2 ∷ []))
all_arrive zero h = inl refl
all_arrive (suc zero) h = inr (inl refl)
all_arrive (suc (suc j)) h = absurd (omega arith)

abbrev pub whole : Message Bytes
whole = record empty_message {
  fragments = 1;
  message_length = 16;
  identifier = 7;
  conversation_index = 1;
  channel_code = 3;
  raw_bytes = header_bytes 16 7 1 3 false ++ join chunks;
}

whole_read :
    decoded (decode_non_blocking unarchive (header_bytes 16 7 1 3 false ++ join chunks)) ≡ ok whole
unfolding decoded decode_non_blocking be un_be is_first_fragment read_header is_fragment
    decode_whole decode_auxiliary_part has_auxiliary parse_payload_header has_payload
whole_read = refl

await_reply-dispatch_all_example :
    (d' : Channel Bytes) × (after : Channel Bytes) × (dispatch_all unarchive as_string true
        (first ∷ (piece 1 ∷ (piece 2 ∷ [])))
        waiting
      ≡ ok d')
    × (await_reply 1 d' ≡ some (whole, after))
    × ((k : ℕ)
        → lookup k d'.response_waiters
          ≡ (if 7 == k then none else lookup k waiting.response_waiters))
    × (lookup 7 d'.defragmenters ≡ none)
    × (d'.dispatched ≡ [])
await_reply-dispatch_all_example =
    await_reply-dispatch_all unarchive as_string true first chunks 7 1 3 false first-IsCut
      (piece 1 ∷ []) (piece 2) whole waiting 1 (omega arith) ((piece-IsPiece, omega arith), tt)
      last-IsPiece refl all_arrive whole_read (omega arith) waiting-IsAwaiting

abbrev other_last : Message Bytes
other_last = record empty_message { fragments = 2; fragment_index = 1; identifier = 7 }

abbrev collecting : Channel Bytes
collecting = record waiting {
  defragmenters = (7, record { first_fragment = first; fragments = []; finished = false }) ∷ [];
}

dispatch_panics_example :
    dispatch unarchive as_string true other_last collecting ≡ err (extract_fault illegal_state)
unfolding lookup
dispatch_panics_example =
    dispatch_panics unarchive as_string true other_last collecting
      (record { first_fragment = first; fragments = []; finished = false }) (omega arith) refl
      (omega arith) (omega arith) refl (omega arith) refl

abbrev archived : Bytes → Bytes
archived s = s

abbrev archive : Bytes → Option Bytes
archive s = some s

abbrev args : List Bytes
args = (1 ∷ []) ∷ ((2 ∷ (3 ∷ [])) ∷ [])

method_call-sent_example :
    (d' : Channel Bytes) × (bs : Bytes) × (method_call archived archive true selector args waiting
      ≡ some (d', ok (9, 2)))
    × (d'.sent ≡ bs ∷ [])
    × (decode_non_blocking unarchive (bs ++ [])
        ≡ ok (
          record (sent_message 9 0 3 true 2 selector
              (wire (argument_pairs archived args))
              (of_pairs (argument_pairs archived args))
              (object selector ∷ [])) { raw_bytes = bs },
          [],
        ))
unfolding le dispatch_payload unarchive_items
method_call-sent_example =
    method_call-sent unarchive archived archive archived selector args waiting
      {items = object selector ∷ []} ((refl, omega arith), ((refl, omega arith), tt))
      (record {
        size_fits = omega arith;
        identifier_fits = omega arith;
        conversation_fits = omega arith;
        channel_fits = omega arith;
      })
      (omega arith) refl
