-- ===== src/Dtx/Channel/Assembly.antt =====
-- A reply that comes in fragments, from the first to the last.
use go_ios.Common.{
  ℕ, suc, ◌<◌, ◌≡◌, ◌≢◌, refl, sym, ap, ◌∙◌, Bool, Option, none, some, List, [], ◌∷◌, ◌++◌, arith,
  All-append, get_elem?, get_elem?-lt, lt→ltb, ◌==◌, ==_self, if◌then◌else◌, inl, inr, All,
}
use go_ios.Common.Bytes.{Bytes}
use go_ios.Common.Maps.{lookup, insert, lookup-delete, ℕ_eq, Bytes_eq}
use go_ios.Common.Result.{Result, ok, Result-cases, ◌>>=◌}
use go_ios.Dtx.Message.{Message, method_invocation, is_first_fragment}
use go_ios.Dtx.Encoder.Layout.{header_bytes}
use go_ios.Dtx.Decoder.{decode_non_blocking}
use go_ios.Dtx.Fragment.{FragmentDecoder, add_fragment, extract}
use go_ios.Dtx.Fragment.Reassembly.{add_all, IsFragmentOf, AllArrive}
use go_ios.Dtx.Fragment.Merge.{IsCut, join, extract-add_all}
use go_ios.Dtx.Channel.{Channel, Fault, await_reply, decoded, finish_fragments, dispatch}
use go_ios.Dtx.Channel.Replies.{IsAwaiting, answered, respond-IsAwaiting, receive-answered}
use go_ios.Dtx.Channel.Fragments.{
  SameWaiters, SameWaiters-trans, dispatch-first, dispatch-middle, dispatch-last,
}

module _ {O : Type 0} (unarchive : Bytes → Option (List O)) (as_string : O → Option Bytes) where
  -- The reader's calls of `Dispatch` for these messages in turn.
  unfoldable pub dispatch_all : Bool → List (Message O) → Channel O → Result Fault (Channel O)
  dispatch_all accepts [] d = ok d
  dispatch_all accepts (m ∷ ms) d =
      dispatch unarchive as_string accepts m d >>= dispatch_all accepts ms

module _ {O : Type 0} (unarchive : Bytes → Option (List O)) (as_string : O → Option Bytes)
    (accepts : Bool) where
  dispatch_all-append :
      (xs ys : List (Message O)) (d : Channel O)
      → dispatch_all unarchive as_string accepts (xs ++ ys) d ≡ (
          dispatch_all unarchive as_string accepts xs d
          >>= dispatch_all unarchive as_string accepts ys)
  unfolding dispatch_all
  dispatch_all-append [] ys d = refl
  dispatch_all-append (m ∷ xs) ys d =
      elim (Result-cases (dispatch unarchive as_string accepts m d)) [
        | inl (e, done) ↦ rw (done, ◌>>=◌) (dispatch_all-append xs ys e)
        | inr (f, failed) ↦ rw (failed, ◌>>=◌)
      ]

add_all-snoc :
    {O : Type 0} (f : FragmentDecoder O) (gs : List (Message O)) (g : Message O)
    → add_all f (gs ++ (g ∷ [])) ≡ (add_fragment (add_all f gs) g).0
unfolding add_all
add_all-snoc f [] g = refl
add_all-snoc f (m ∷ gs) g = add_all-snoc (add_fragment f m).0 gs g

-- a fragment as it is read: of this message, and no method call
pub record IsPiece {O : Type 0} (first : Message O) (chunks : List Bytes) (g : Message O)
    : Type 0 where
  pub of : IsFragmentOf first chunks g
  pub no_call : g.payload_header.message_type ≢ method_invocation

module _ {O : Type 0} (unarchive : Bytes → Option (List O)) (as_string : O → Option Bytes)
    (accepts : Bool) (first : Message O) (chunks : List Bytes) (i c ch : ℕ) (e : Bool)
    (cut : IsCut first chunks i c ch e) where
  -- not the last one
  abbrev pub IsMiddle : Message O → Type 0
  IsMiddle g = IsPiece first chunks g × (suc g.fragment_index < first.fragments)

  dispatch_all-IsMiddle :
      (gs : List (Message O)) (d : Channel O) {f : FragmentDecoder O}
      → All IsMiddle gs
      → lookup first.identifier d.defragmenters ≡ some f
      → (d' : Channel O) × (dispatch_all unarchive as_string accepts gs d ≡ ok d')
        × (lookup first.identifier d'.defragmenters ≡ some (add_all f gs))
        × SameWaiters d d'
  unfolding dispatch_all add_all is_first_fragment
  dispatch_all-IsMiddle [] d h kept =
      (d, refl, kept, record { waiters = refl; queues = refl; dispatched = refl })
  dispatch_all-IsMiddle (g ∷ gs) d {f} ((p, before), h) kept =
      let more : 1 < first.fragments = let b = cut.is_first in ground arith in
      let n = p.of.same_count in
      let (a, step, kept', same) =
        dispatch-middle unarchive as_string accepts g d {f = f} (omega arith)
          (omega (arith, cut.count_fits)) p.of.behind_first (omega arith) p.no_call
          (rw (← p.of.same_message) kept) in
      let (b, steps, done, same') = dispatch_all-IsMiddle gs a h (rw p.of.same_message kept') in
      (b, rw (step, ◌>>=◌) steps, done, SameWaiters-trans d a b same same')

  pieces : (gs : List (Message O)) → All IsMiddle gs → All (IsFragmentOf first chunks) gs
  pieces [] h = tt
  pieces (g ∷ gs) ((p, before), h) = (p.of, pieces gs h)

  -- A reply that was cut into fragments, to a call that waits: where the fragments between the
  -- first and the last come in any order, some perhaps more than once, and the last one at the end,
  -- the call receives the message that the joined bytes decode to, and the service's dispatcher gets
  -- nothing; the reply's waiter and fragments are forgotten, and the other identifiers lead to the
  -- queues that they led to.
  pub await_reply-dispatch_all :
      (gs : List (Message O)) (last whole : Message O) (d : Channel O) (h : ℕ)
      → first.payload_header.message_type ≢ method_invocation
      → All IsMiddle gs
      → IsPiece first chunks last
      → suc last.fragment_index ≡ first.fragments
      → AllArrive chunks (gs ++ (last ∷ []))
      → decoded (
          decode_non_blocking unarchive (header_bytes first.message_length i c ch e ++ join chunks))
        ≡ ok whole
      → 0 < whole.conversation_index
      → IsAwaiting d whole.identifier h
      → (d' : Channel O) × (after : Channel O) × (dispatch_all unarchive as_string accepts
            (first ∷ (gs ++ (last ∷ [])))
            d
          ≡ ok d')
        × (await_reply h d' ≡ some (whole, after))
        × ((k : ℕ)
            → lookup k d'.response_waiters
              ≡ (if whole.identifier == k then none else lookup k d.response_waiters))
        × (lookup whole.identifier d'.defragmenters ≡ none)
        × (d'.dispatched ≡ d.dispatched)
  unfolding dispatch_all await_reply finish_fragments is_first_fragment
  await_reply-dispatch_all gs last whole d h no_call middles end at_end arrive read answers w =
      let more : 1 < first.fragments = let b = cut.is_first in ground arith in
      let n = end.of.same_count in
      let (f, new, _, merged) =
        extract-add_all first chunks i c ch e cut (gs ++ (last ∷ []))
          (All-append (IsFragmentOf first chunks) gs (last ∷ []) (pieces gs middles) (end.of, tt))
          arrive in
      let (a, begun, kept, same) =
        dispatch-first unarchive as_string accepts first d {f = f} cut.is_first no_call new in
      let (b, steps, kept', same') = dispatch_all-IsMiddle gs a {f = f} middles kept in
      let (m, ended) =
        dispatch-last unarchive as_string accepts last b {f = add_all f gs} {whole = whole}
          (omega arith) (omega (arith, cut.count_fits)) (omega arith) end.no_call
          (rw (← end.of.same_message) kept') (ap extract (sym (add_all-snoc f gs last)) ∙ merged)
          read in
      let waiting : Channel O = record b {
        message_identifier = m;
        defragmenters = insert last.identifier (add_fragment (add_all f gs) last).0 b.defragmenters;
      } in
      let w' : IsAwaiting waiting whole.identifier h = record {
        waits = ap (lookup whole.identifier) (same'.waiters ∙ same.waiters) ∙ w.waits;
        room = ap (λ qs. get_elem? qs h) (same'.queues ∙ same.queues) ∙ w.room;
      } in
      let (after, got) = receive-answered whole waiting h (get_elem?-lt b.queues h w'.room) in
      (
        answered h whole waiting,
        after,
        rw
            (
              begun,
              ◌>>=◌,
              dispatch_all-append unarchive as_string accepts gs (last ∷ []) a,
              steps,
              ◌>>=◌,
              ended,
              ◌>>=◌,
              lt→ltb 0 whole.conversation_index answers,
            )
            (ap ok (respond-IsAwaiting whole waiting w')),
        got,
        λ k.
            lookup-delete whole.identifier k b.response_waiters
            ∙ ap (λ ws. if whole.identifier == k then none else lookup k ws)
                (same'.waiters ∙ same.waiters),
        lookup-delete whole.identifier whole.identifier waiting.defragmenters
            ∙ rw (==_self whole.identifier),
        same'.dispatched ∙ same.dispatched,
      )
