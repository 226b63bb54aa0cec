-- ===== src/Dtx/Channel/Fragments.antt =====
-- What `Dispatch` does with one fragment: the first of a message, one in the middle, or the last.
use go_ios.Common.{
  ℕ, suc, ◌^◌, ◌<◌, ◌≡◌, ◌≢◌, refl, ap, ◌∙◌, Bool, true, false, ◌||◌, Option, some, List, [], ◌∷◌,
  ◌++◌, arith, ltb, ==_self, ne→==_false, if◌then◌else◌, Bool-cases, inl, inr,
}
use go_ios.Common.Bytes.{Bytes}
use go_ios.Common.Maps.{lookup, insert, lookup-insert, ℕ_eq, Bytes_eq}
use go_ios.Common.Result.{ok, Result-cases, ◌>>=◌}
use go_ios.Dtx.Message.{
  Message, method_invocation, is_fragment, is_first_fragment, is_last_fragment,
}
use go_ios.Dtx.Encoder.{build_ack_message}
use go_ios.Dtx.Decoder.{decode_non_blocking}
use go_ios.Dtx.Fragment.{FragmentDecoder, new_fragment_decoder, add_fragment, extract}
use go_ios.Dtx.Channel.{
  Channel, transmit, send_ack_if_needed, note_identifier, decoded, finish_fragments,
  collect_fragment, dispatch, dispatch_reply, registered_queue,
}
use go_ios.Dtx.Channel.Replies.{note_identifier-eq}

-- The calls wait as they did, and nothing was handed over.
pub record SameWaiters {O : Type 0} (d d' : Channel O) : Type 0 where
  pub waiters : d'.response_waiters ≡ d.response_waiters
  pub queues : d'.queues ≡ d.queues
  pub dispatched : d'.dispatched ≡ d.dispatched

module _ {O : Type 0} where
  pub SameWaiters-trans : (a b c : Channel O) → SameWaiters a b → SameWaiters b c → SameWaiters a c
  SameWaiters-trans a b c p q = record {
    waiters = q.waiters ∙ p.waiters;
    queues = q.queues ∙ p.queues;
    dispatched = q.dispatched ∙ p.dispatched;
  }

  send_ack_if_needed-eq :
      (accepts : Bool) (m : Message O) (d : Channel O)
      → (bs : List Bytes) × (send_ack_if_needed accepts m d ≡ record d { sent = bs })
  unfolding send_ack_if_needed transmit
  send_ack_if_needed-eq accepts m d = elim (Bool-cases m.expects_reply) [
    | inr e ↦ (d.sent, rw e)
    | inl e ↦ elim (Result-cases (build_ack_message m)) [
      | inr (f, b) ↦ (d.sent, rw (b, e))
      | inl (bytes, b) ↦
          (if accepts then d.sent ++ (bytes ∷ []) else d.sent, rw (b, e) (ground arith))
    ]
  ]

module _ {O : Type 0} (unarchive : Bytes → Option (List O)) (as_string : O → Option Bytes)
    (accepts : Bool) where
  pub dispatch-fragment :
      (m : Message O) (d : Channel O)
      → 1 < m.fragments
      → m.payload_header.message_type ≢ method_invocation
      → dispatch unarchive as_string accepts m d
        ≡ dispatch_reply unarchive as_string accepts m (note_identifier m d)
  unfolding dispatch registered_queue is_fragment
  dispatch-fragment m d more no_call =
      let e : (ltb 0 m.conversation_index || ltb 1 m.fragments) ≡ true = ground arith in
      rw (
        dispatch,
        registered_queue,
        ne→==_false m.payload_header.message_type method_invocation no_call,
        is_fragment,
        e,
      )

  pub dispatch-first :
      (first : Message O) (d : Channel O) {f : FragmentDecoder O}
      → is_first_fragment first ≡ true
      → first.payload_header.message_type ≢ method_invocation
      → new_fragment_decoder first ≡ some f
      → (d' : Channel O) × (dispatch unarchive as_string accepts first d ≡ ok d')
        × (lookup first.identifier d'.defragmenters ≡ some f)
        × SameWaiters d d'
  unfolding dispatch_reply
  dispatch-first first d {f} begins no_call new =
      let (n, e) = note_identifier-eq first d in
      let begun : Channel O = record d {
        message_identifier = n;
        defragmenters = insert first.identifier f d.defragmenters;
      } in
      let (bs, acked) = send_ack_if_needed-eq accepts first begun in
      (
        record begun { sent = bs },
        rw (
          dispatch-fragment first d (unfold is_first_fragment in ground arith) no_call,
          e,
          dispatch_reply,
          begins,
          new,
          acked,
        ),
        lookup-insert first.identifier first.identifier f d.defragmenters
            ∙ rw (==_self first.identifier),
        record { waiters = refl; queues = refl; dispatched = refl },
      )

  -- a fragment behind the first, which is not the last
  pub dispatch-middle :
      (g : Message O) (d : Channel O) {f : FragmentDecoder O}
      → 1 < g.fragments
      → g.fragments < 2 ^ 16
      → 0 < g.fragment_index
      → suc g.fragment_index < g.fragments
      → g.payload_header.message_type ≢ method_invocation
      → lookup g.identifier d.defragmenters ≡ some f
      → (d' : Channel O) × (dispatch unarchive as_string accepts g d ≡ ok d')
        × (lookup g.identifier d'.defragmenters ≡ some (add_fragment f g).0)
        × SameWaiters d d'
  unfolding dispatch_reply collect_fragment is_first_fragment is_fragment is_last_fragment
  dispatch-middle g d {f} more fits behind before no_call kept =
      let (n, e) = note_identifier-eq g d in
      let a : is_first_fragment g ≡ false = ground arith in
      let b : is_fragment g ≡ true = ground arith in
      let c : is_last_fragment g ≡ false = ground arith in
      (
        record d {
          message_identifier = n;
          defragmenters = insert g.identifier (add_fragment f g).0 d.defragmenters;
        },
        dispatch-fragment g d more no_call
            ∙ ap (dispatch_reply unarchive as_string accepts g) e
            ∙ rw (dispatch_reply, a, b, collect_fragment, kept, c),
        lookup-insert g.identifier g.identifier (add_fragment f g).0 d.defragmenters
            ∙ rw (==_self g.identifier),
        record { waiters = refl; queues = refl; dispatched = refl },
      )

  -- the last fragment, by which the message is whole
  pub dispatch-last :
      (g : Message O) (d : Channel O) {f : FragmentDecoder O} {bytes : Bytes} {whole : Message O}
      → 1 < g.fragments
      → g.fragments < 2 ^ 16
      → suc g.fragment_index ≡ g.fragments
      → g.payload_header.message_type ≢ method_invocation
      → lookup g.identifier d.defragmenters ≡ some f
      → extract (add_fragment f g).0 ≡ ok bytes
      → decoded (decode_non_blocking unarchive bytes) ≡ ok whole
      → (n : ℕ) × (dispatch unarchive as_string accepts g d
          ≡ ok (
              finish_fragments whole (record d {
                message_identifier = n;
                defragmenters = insert g.identifier (add_fragment f g).0 d.defragmenters;
              })))
  unfolding dispatch_reply collect_fragment is_first_fragment is_fragment is_last_fragment
  dispatch-last g d {f} {bytes} {whole} more fits last no_call kept merged read =
      let (n, e) = note_identifier-eq g d in
      let a : is_first_fragment g ≡ false = ground arith in
      let b : is_fragment g ≡ true = ground arith in
      let c : is_last_fragment g ≡ true = ground arith in
      (
        n,
        dispatch-fragment g d more no_call
            ∙ ap (dispatch_reply unarchive as_string accepts g) e
            ∙ rw (dispatch_reply, a, b, collect_fragment, kept, c, merged, ◌>>=◌, read),
      )
