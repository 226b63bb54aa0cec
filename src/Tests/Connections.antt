-- ===== src/Tests/Connections.antt =====
-- ios/dtx_codec/connection.go at concrete connections and messages.
use go_ios.Common.{
  ℕ, ◌<◌, ◌≡◌, refl, true, false, some, none, [], ◌∷◌, ◌++◌, arith, ltb, if◌then◌else◌, ◌==◌,
}
use go_ios.Common.Bytes.{Bytes, be, un_be}
use go_ios.Common.Buffer.{split?}
use go_ios.Common.Maps.{lookup}
use go_ios.Common.Result.{ok, err}
use go_ios.Dtx.Message.{Message, object, method_invocation, is_fragment, has_auxiliary, has_payload}
use go_ios.Dtx.Encoder.Layout.{header_bytes}
use go_ios.Dtx.Decoder.{
  read_message, read_header, read_auxiliary_part, read_payload, parse_payload_header,
}
use go_ios.Dtx.Fragment.{empty_message}
use go_ios.Dtx.Channel.{Channel, new_channel, await_reply, selector_of}
use go_ios.Dtx.Channel.Replies.{IsAnswered}
use go_ios.Dtx.Connection.{
  Key, key_same, Key_eq, an_int, Connection, blocked, new_dtx_connection, request_channel,
  channel_for, begin_request, finish_request, route, reader, add_default_channel_receiver, store,
}
use go_ios.Dtx.Connection.Entries.{Inv, Leaves}
use go_ios.Dtx.Connection.Steps.{
  Lives, starts, goes_on, listens, requests, Lives-Inv, begin_request-finish_request,
}
use go_ios.Dtx.Connection.Routing.{reader-IsReply}
use go_ios.Dtx.Connection.Reading.{reader_ends}
use go_ios.Dtx.Connection.Global.{AsksForChannel, route-AsksForChannel}
use go_ios.Tests.Channels.{unarchive, as_string, waiting, waiting-IsAwaiting, whole}

-- the requests of two channels: one was made and has not ended
abbrev archive_bin : Bytes → Bytes
archive_bin s = s

abbrev service : Bytes
service = b'a' ∷ (b'x' ∷ [])

abbrev listening : Connection Bytes
listening =
    (begin_request archive_bin true service (add_default_channel_receiver new_dtx_connection)).0

listening-Lives : Lives unarchive as_string new_dtx_connection listening
listening-Lives =
    goes_on (add_default_channel_receiver new_dtx_connection) listening
      (goes_on new_dtx_connection _ starts listens) (requests archive_bin true service)

Lives-Inv_example : Inv listening
Lives-Inv_example = Lives-Inv unarchive as_string listening-Lives

begin_request-finish_request_example :
    (lookup (an_int 2) listening.active_channels ≡ none)
    × ((k : ℕ)
        → lookup
            (an_int k)
            (finish_request 2 (begin_request archive_bin true service listening).0).active_channels
          ≡ (if 2 == k
              then some (new_channel 2 1)
              else lookup (an_int k) listening.active_channels))
    × (2
        < (finish_request 2
            (begin_request archive_bin true service listening).0).channel_code_counter)
unfolding begin_request add_default_channel_receiver store new_dtx_connection
begin_request-finish_request_example =
    begin_request-finish_request unarchive as_string archive_bin true service listening-Lives
      (omega arith)

-- a reply for the channel 3, and 9 behind it
abbrev active : Connection Bytes
active = record new_dtx_connection { active_channels = (an_int 3, waiting) ∷ [] }

abbrev stream : Bytes
stream =
    header_bytes 16 7 1 3 false
    ++ (0
        ∷ (0
            ∷ (0
                ∷ (0
                    ∷ (0
                        ∷ (0
                            ∷ (0
                                ∷ (0
                                    ∷ (0
                                        ∷ (0
                                            ∷ (0 ∷ (0 ∷ (0 ∷ (0 ∷ (0 ∷ (0 ∷ (9 ∷ [])))))))))))))))))

abbrev reply_read : Message Bytes
reply_read = record whole { raw_bytes = [] }

stream_read : read_message unarchive stream ≡ ok (reply_read, 9 ∷ [])
unfolding read_message be un_be is_fragment read_header parse_payload_header has_auxiliary
    has_payload read_auxiliary_part read_payload split?
stream_read = refl

reader-IsReply_example :
    (c' : Connection Bytes) × (d' : Channel Bytes) × (after : Channel Bytes) × (reader unarchive
        as_string
        (λ n. true)
        2
        stream
        active
      ≡ reader unarchive as_string (λ n. true) 1 (9 ∷ []) c')
    × ((k : Key)
        → lookup k c'.active_channels
          ≡ (if key_same (an_int 3) k then some d' else lookup k active.active_channels))
    × (await_reply 1 d' ≡ some (reply_read, after))
    × IsAnswered 1 reply_read waiting d'
    × (c' ≡ record active { active_channels = c'.active_channels })
unfolding channel_for lookup
reader-IsReply_example =
    reader-IsReply unarchive as_string (λ n. true) 1 stream (9 ∷ []) reply_read active waiting 1
      stream_read (record { whole = omega arith; answers = omega arith; no_call = omega arith })
      refl (record { nothing_to_send = refl; nothing_to_deliver = refl }) waiting-IsAwaiting

reader_ends_example :
    Leaves
      (λ c'. (c'.closed ≡ true) × Inv c')
      (reader unarchive as_string (λ n. true) 50 stream new_dtx_connection)
reader_ends_example =
    reader_ends unarchive as_string (λ n. true) 50 stream new_dtx_connection
      (unfold be in omega arith) (Lives-Inv unarchive as_string starts)

-- the sixth request while five wait
abbrev request : Message Bytes
request = record empty_message {
  identifier = 9;
  payload_header = record {
    message_type = method_invocation;
    auxiliary_length = 0;
    total_payload_length = 0;
    flags = 0;
  };
  payload = object request_channel ∷ [];
}

abbrev full : Connection Bytes
full = record new_dtx_connection {
  request_channel_messages = record {
    capacity = 5;
    messages = request ∷ (request ∷ (request ∷ (request ∷ (request ∷ []))));
  };
}

request-AsksForChannel : AsksForChannel unarchive as_string request full
request-AsksForChannel = record {
  item = object request_channel;
  items = [];
  has_items = refl;
  asks = unfold selector_of in refl;
  whole = omega arith;
  no_answer = refl;
  unregistered = unfold new_dtx_connection new_channel lookup in refl;
  global = unfold new_dtx_connection channel_for lookup in refl;
  taken = record {
    nothing_to_send = unfold new_dtx_connection new_channel in refl;
    nothing_to_deliver = unfold new_dtx_connection new_channel in refl;
  };
}

route-AsksForChannel_example :
    (c' : Connection Bytes) × (route unarchive as_string true request full
      ≡ (if ltb 5 5 then ok c' else err blocked))
    × (c'.request_channel_messages ≡ record full.request_channel_messages {
      messages = full.request_channel_messages.messages ++ (request ∷ []);
    })
    × (c'.active_channels ≡ full.active_channels)
route-AsksForChannel_example =
    route-AsksForChannel unarchive as_string true request full request-AsksForChannel
