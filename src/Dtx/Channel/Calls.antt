-- ===== src/Dtx/Channel/Calls.antt =====
-- ios/dtx_codec/channel.go: the method calls that a service makes on a channel. `archive` is
-- `ArchiveBin` of an argument, whose error is a panic, and `archive_bin` that of a selector, whose
-- error leaves no bytes.
use go_ios.Common.{
  ℕ, ◌+◌, ◌^◌, ◌<◌, ◌≡◌, refl, ap, sym, ◌∙◌, Bool, true, false, Option, some, none, List, [], ◌∷◌,
  ◌++◌, map, append-nil, append_assoc, get_elem?, length, if◌then◌else◌, All,
}
use go_ios.Common.Bytes.{Bytes}
use go_ios.Common.Maps.{insert, ℕ_eq}
use go_ios.Common.Result.{Result, ok, err}
use go_ios.Dtx.Auxiliary.{
  PrimitiveDictionary, PrimitiveKeyValuePair, new_primitive_dictionary, add_bytes, bytes_pair,
  of_pairs, add_ns_keyed_archived_object,
}
use go_ios.Dtx.Auxiliary.RoundTrip.{IsWritable, bytes_argument, wire}
use go_ios.Dtx.Message.{Message, Item, method_invocation, has_error}
use go_ios.Dtx.Decoder.{decode_non_blocking}
use go_ios.Dtx.Decoder.Headers.{IsHeader, sent_message}
use go_ios.Dtx.Decoder.RoundTrip.{payload_items, decode_non_blocking-encode}
use go_ios.Dtx.Channel.{
  Channel, CallError, begin_call, send, transmit, make_queue, add_response_waiter,
}

module _ {A : Type 0} (archive : A → Option Bytes) where
  -- the loop over the arguments; none where it panics
  unfoldable pub add_arguments : List A → PrimitiveDictionary → Option PrimitiveDictionary
  add_arguments [] aux = some aux
  add_arguments (a ∷ args) aux = elim (add_ns_keyed_archived_object archive aux a) [
    | none ↦ none
    | some aux' ↦ add_arguments args aux'
  ]

module _ {O : Type 0} (archive_bin : Bytes → Bytes) where
  -- `MethodCallWithAuxiliary` up to the wait for the reply
  unfoldable pub method_call_with_auxiliary :
      Bool → Bytes → PrimitiveDictionary → Channel O → Channel O × Result CallError (ℕ × ℕ)
  method_call_with_auxiliary accepts selector aux d =
      begin_call accepts true method_invocation (archive_bin selector) aux d

  -- What a call makes of its reply: a reply of the error type is an error with its first item.
  unfoldable pub call_result : Message O → Result (Option (Item O)) (Message O)
  call_result msg = if has_error msg then err (get_elem? msg.payload 0) else ok msg

  module _ {A : Type 0} (archive : A → Option Bytes) where
    -- `MethodCall` up to the wait for the reply; none where an argument cannot be archived
    unfoldable pub method_call :
        Bool → Bytes → List A → Channel O → Option (Channel O × Result CallError (ℕ × ℕ))
    method_call accepts selector args d =
        elim (add_arguments archive args new_primitive_dictionary) [
          | none ↦ none
          | some aux ↦ some (method_call_with_auxiliary accepts selector aux d)
        ]

    unfoldable pub method_call_async :
        Bool → Bytes → List A → Channel O → Option (Channel O × Option CallError)
    method_call_async accepts selector args d =
        elim (add_arguments archive args new_primitive_dictionary) [
          | none ↦ none
          | some aux ↦ some (send accepts false method_invocation (archive_bin selector) aux d)
        ]

abbrev pub argument_pairs {ℓ} : {A : Type ℓ} → (A → Bytes) → List A → List PrimitiveKeyValuePair
argument_pairs f args = map (λ a. bytes_pair (f a)) args

-- each argument is archived to these bytes, whose number fits its field
abbrev pub AreArchived : {A : Type 0} → (A → Option Bytes) → (A → Bytes) → List A → Type 0
AreArchived archive f args = All (λ a. (archive a ≡ some (f a)) × (8 + length (f a) < 2 ^ 32)) args

module _ {A : Type 0} (archive : A → Option Bytes) (f : A → Bytes) where
  add_arguments-AreArchived :
      (args : List A) (aux : PrimitiveDictionary)
      → AreArchived archive f args
      → add_arguments archive args aux
        ≡ some (record aux { key_value_pairs = aux.key_value_pairs ++ argument_pairs f args })
  unfolding add_arguments add_ns_keyed_archived_object
  add_arguments-AreArchived [] aux h =
      ap (λ ps. some (record aux { key_value_pairs = ps })) (sym (append-nil aux.key_value_pairs))
  add_arguments-AreArchived (a ∷ args) aux ((e, fits), h) =
      rw (add_arguments, add_ns_keyed_archived_object, e)
        (add_arguments-AreArchived args (add_bytes aux (f a)) h
          ∙ ap (λ ps. some (record aux { key_value_pairs = ps }))
              (append_assoc aux.key_value_pairs (bytes_pair (f a) ∷ []) (argument_pairs f args)))

  argument_pairs-IsWritable :
      (args : List A)
      → AreArchived archive f args
      → IsWritable (record new_primitive_dictionary { key_value_pairs = argument_pairs f args })
  argument_pairs-IsWritable [] h = tt
  argument_pairs-IsWritable (a ∷ args) ((e, fits), h) =
      (bytes_argument (f a) fits, argument_pairs-IsWritable args h)

module _ {A O : Type 0} (unarchive : Bytes → Option (List O)) (archive_bin : Bytes → Bytes)
    (archive : A → Option Bytes) (f : A → Bytes) where
  -- A method call that the device takes: one message is sent, and it decodes to a method invocation
  -- that expects a reply, with the identifier that the call waits under, the channel's code, the
  -- archived selector and, in their order, the archived arguments. The arguments must be archived,
  -- the archiver must take the selector back, and the sizes and the numbers must fit their fields.
  pub method_call-sent :
      (selector : Bytes) (args : List A) (d : Channel O) {items : List (Item O)}
      → AreArchived archive f args
      → IsHeader method_invocation d.message_identifier 0 d.channel_code
      → 64 + length (wire (argument_pairs f args)) + length (archive_bin selector) < 2 ^ 32
      → payload_items unarchive method_invocation (archive_bin selector) ≡ ok items
      → (d' : Channel O) × (bs : Bytes) × (method_call archive_bin archive true selector args d
          ≡ some (d', ok (d.message_identifier, length d.queues)))
        × (d'.sent ≡ d.sent ++ (bs ∷ []))
        × (decode_non_blocking unarchive (bs ++ [])
            ≡ ok (
              record (sent_message d.message_identifier 0 d.channel_code true method_invocation
                  (archive_bin selector)
                  (wire (argument_pairs f args))
                  (of_pairs (argument_pairs f args))
                  items) { raw_bytes = bs },
              [],
            ))
  unfolding method_call method_call_with_auxiliary begin_call make_queue add_response_waiter
      transmit
  method_call-sent selector args d {items} archived header fits taken =
      let aux = record new_primitive_dictionary { key_value_pairs = argument_pairs f args } in
      let (bs, encoded, read) =
        decode_non_blocking-encode unarchive d.message_identifier 0 d.channel_code true
          method_invocation (archive_bin selector) aux [] {items = items} header
          (argument_pairs-IsWritable archive f args archived) fits taken in
      let added = add_arguments-AreArchived archive f args new_primitive_dictionary archived in
      (
        record d {
          message_identifier = d.message_identifier + 1;
          response_waiters = insert d.message_identifier (length d.queues) d.response_waiters;
          queues = d.queues ++ (record { capacity = 1; messages = [] } ∷ []);
          sent = d.sent ++ (bs ∷ []);
        },
        bs,
        rw (method_call, added, method_call_with_auxiliary, begin_call, encoded),
        refl,
        read,
      )
