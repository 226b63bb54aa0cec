-- ===== src/Dtx/Channel/Steps.antt =====
-- A channel through its life: the calls of the service, the messages of the device and the ends of
-- contexts, in any order. Each of them is one step; a call's identifier and its waiter, which the
-- code takes under two locks, are one step too.
use go_ios.Common.{
  ℕ, ◌+◌, ◌<◌, ◌≡◌, ◌≢◌, refl, subst, Bool, Option, none, some, List, [], ◌∷◌, ◌++◌, arith, length,
  get_elem?, ◌==◌, if◌then◌else◌, inl, inr,
}
use go_ios.Common.Bytes.{Bytes}
use go_ios.Common.Maps.{Eq, lookup, insert, lookup-insert, ℕ_eq, Bytes_eq}
use go_ios.Common.Result.{ok, Result-cases}
use go_ios.Dtx.Auxiliary.{PrimitiveDictionary}
use go_ios.Dtx.Message.{Message}
use go_ios.Dtx.Encoder.{encode}
use go_ios.Dtx.Channel.{
  Channel, new_channel, make_queue, add_response_waiter, transmit, register_method_for_remote,
  receive_method_call, send, begin_call, await_reply, time_out, dispatch,
}
use go_ios.Dtx.Channel.Identifiers.{
  Inv, QueuesBelow, new_channel-Inv, remove_response_waiter-Inv, register_method_for_remote-Inv,
  lookup-KeysBelow,
}
use go_ios.Dtx.Channel.Upkeep.{
  Keeps, receive_method_call-Inv, receive-Inv, send-Inv, begin_call-Inv, dispatch-Keeps,
}

module _ {O : Type 0} (unarchive : Bytes → Option (List O)) (as_string : O → Option Bytes) where
  pub data Step (d : Channel O) : Channel O → Type 0 where
    registers : (selector : Bytes) → Step d (register_method_for_remote selector d)
    receives :
        (selector : Bytes) (msg : Message O) (d' : Channel O)
        → receive_method_call selector d ≡ some (msg, d')
        → Step d d'
    sends :
        (accepts x : Bool) (t : ℕ) (p : Bytes) (aux : PrimitiveDictionary)
        → Step d (send accepts x t p aux d).0
    calls :
        (accepts x : Bool) (t : ℕ) (p : Bytes) (aux : PrimitiveDictionary)
        → Step d (begin_call accepts x t p aux d).0
    answers :
        (h : ℕ) (msg : Message O) (d' : Channel O) → await_reply h d ≡ some (msg, d') → Step d d'
    ends : (identifier : ℕ) → Step d (time_out identifier d)
    dispatches :
        (accepts : Bool) (msg : Message O) (d' : Channel O)
        → dispatch unarchive as_string accepts msg d ≡ ok d'
        → Step d d'

  pub data Reach (d : Channel O) : Channel O → Type 0 where
    starts : Reach d d
    goes_on : (e f : Channel O) → Reach d e → Step e f → Reach d f

  pub Step-Inv : {d d' : Channel O} → Step d d' → Inv d → Inv d'
  unfolding await_reply time_out
  Step-Inv {d} (registers s) v = register_method_for_remote-Inv s d v
  Step-Inv {d} (receives s msg d' e) v = receive_method_call-Inv s d {msg = msg} e v
  Step-Inv {d} (sends a x t p aux) v = send-Inv a x t p aux d v
  Step-Inv {d} (calls a x t p aux) v = begin_call-Inv a x t p aux d v
  Step-Inv {d} (answers h msg d' e) v = receive-Inv h d {msg = msg} e v
  Step-Inv {d} (ends k) v = remove_response_waiter-Inv k d v
  Step-Inv {d} (dispatches a msg d' e) v =
      subst Keeps e (dispatch-Keeps unarchive as_string a msg d v)

  -- Whatever the service calls, the device sends and the contexts do, in any order, from a channel
  -- that was just made: no waiter and no fragments are kept under an identifier that the channel
  -- has still to give out, and each waiter and each registered method names a queue that is there.
  pub Reach-Inv :
      (code first_identifier : ℕ) {d : Channel O}
      → Reach (new_channel code first_identifier) d
      → Inv d
  Reach-Inv code first_identifier starts = new_channel-Inv code first_identifier
  Reach-Inv code first_identifier (goes_on e f r s) = Step-Inv s (Reach-Inv code first_identifier r)

lookup-QueuesBelow {ℓ} :
    {K : Type ℓ} ⦃e : Eq K⦄ (n : ℕ) (k : K) (es : List (K × ℕ)) (h : ℕ)
    → QueuesBelow n es
    → lookup k es ≡ some h
    → h < n
unfolding QueuesBelow lookup
lookup-QueuesBelow n k [] h b found = cc
lookup-QueuesBelow ⦃e⦄ n k ((j, w) ∷ es) h b found =
    ground (arith, b.0, lookup-QueuesBelow n k es h b.1)

get_elem?-length {ℓ} : {A : Type ℓ} (xs : List A) → get_elem? xs (length xs) ≡ none
get_elem?-length [] = refl
get_elem?-length (x ∷ xs) = get_elem?-length xs

get_elem?-append_length {ℓ} :
    {A : Type ℓ} (xs : List A) (x : A) → get_elem? (xs ++ (x ∷ [])) (length xs) ≡ some x
get_elem?-append_length [] x = refl
get_elem?-append_length (y ∷ xs) x = get_elem?-append_length xs x

-- What a call that was sent has of its own.
pub record IsOwn {O : Type 0} (d d' : Channel O) (identifier h : ℕ) : Type 0 where
  pub no_waiter_before : lookup identifier d.response_waiters ≡ none
  pub no_fragments_before : lookup identifier d.defragmenters ≡ none
  pub no_queue_before : (k : ℕ) → lookup k d.response_waiters ≢ some h
  pub waiter :
      (k : ℕ)
      → lookup k d'.response_waiters
        ≡ (if identifier == k then some h else lookup k d.response_waiters)
  pub queue : get_elem? d'.queues h ≡ some (record { capacity = 1; messages = [] })
  pub next : d'.message_identifier ≡ identifier + 1

module _ {O : Type 0} where
  -- the channel after a call whose bytes the connection took
  abbrev called : Bytes → Channel O → Channel O
  called bytes d = record d {
    message_identifier = d.message_identifier + 1;
    response_waiters = insert d.message_identifier (length d.queues) d.response_waiters;
    queues = d.queues ++ (record { capacity = 1; messages = [] } ∷ []);
    sent = d.sent ++ (bytes ∷ []);
  }

  pub begin_call-eq-ok :
      (accepts x : Bool) (t : ℕ) (p : Bytes) (aux : PrimitiveDictionary) (d : Channel O)
      {d' : Channel O} {identifier h : ℕ}
      → begin_call accepts x t p aux d ≡ (d', ok (identifier, h))
      → (bytes : Bytes) × (encode d.message_identifier 0 d.channel_code x t p aux ≡ ok bytes)
        × (d' ≡ called bytes d)
        × (identifier ≡ d.message_identifier)
        × (h ≡ length d.queues)
  unfolding begin_call make_queue add_response_waiter transmit
  begin_call-eq-ok accepts x t p aux d {d'} {identifier} {h} e =
      elim (Result-cases (encode d.message_identifier 0 d.channel_code x t p aux)) [
        | inr (f, refused) ↦ ground arith
        | inl (bytes, encoded) ↦ (bytes, encoded, ground arith, ground arith, ground arith)
      ]

  called-IsOwn :
      (bytes : Bytes) (d : Channel O)
      → Inv d
      → IsOwn d (called bytes d) d.message_identifier (length d.queues)
  called-IsOwn bytes d v = record {
    no_waiter_before =
        lookup-KeysBelow d.message_identifier d.message_identifier d.response_waiters (omega arith)
          v.waiters_below;
    no_fragments_before =
        lookup-KeysBelow d.message_identifier d.message_identifier d.defragmenters (omega arith)
          v.defragmenters_below;
    no_queue_before = λ k found. omega (
      arith,
      lookup-QueuesBelow (length d.queues) k d.response_waiters (length d.queues) v.waiters_queued
          found,
    );
    waiter = λ k. lookup-insert d.message_identifier k (length d.queues) d.response_waiters;
    queue = get_elem?-append_length d.queues (record { capacity = 1; messages = [] });
    next = refl;
  }

  -- On a channel in order, a call whose bytes were sent has an identifier under which there is no
  -- waiter and are no fragments, and a new queue for one reply that no waiter names; after it the
  -- identifier leads to this queue, the other identifiers lead where they led, and the next
  -- identifier is another one.
  pub begin_call-IsOwn :
      (accepts x : Bool) (t : ℕ) (p : Bytes) (aux : PrimitiveDictionary) (d : Channel O)
      {d' : Channel O} {identifier h : ℕ}
      → Inv d
      → begin_call accepts x t p aux d ≡ (d', ok (identifier, h))
      → IsOwn d d' identifier h
  begin_call-IsOwn accepts x t p aux d {d'} {identifier} {h} v e =
      let (bytes, _, after, ident, q) = begin_call-eq-ok accepts x t p aux d e in
      rw (after, ident, q) (called-IsOwn bytes d v)
