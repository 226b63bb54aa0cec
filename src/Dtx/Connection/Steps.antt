-- ===== src/Dtx/Connection/Steps.antt =====
-- A connection through its life: its reader, the calls of its services on their channels, and the
-- channels that are asked for, in any order.
use go_ios.Common.{
  ℕ, ◌+◌, ◌-◌, ◌^◌, ◌<◌, ◌≡◌, refl, subst, Bool, true, Option, none, some, List, ◌⊎◌, inl, inr,
  Option-cases, if◌then◌else◌, ◌==◌, arith,
}
use go_ios.Common.Bytes.{Bytes}
use go_ios.Common.Maps.{lookup, lookup-insert}
use go_ios.Common.Result.{ok}
use go_ios.Dtx.Message.{Message, method_invocation}
use go_ios.Dtx.Channel.{Channel, new_channel}
use go_ios.Dtx.Channel.Identifiers.{new_channel-Inv}
use go_ios.Dtx.Channel.Upkeep.{begin_call-Inv}
use go_ios.Dtx.Channel.Steps
use go_ios.Dtx.Connection.{
  Key, Key_eq, an_int, a_uint32, Connection, ConnectionError, new_dtx_connection, close, store,
  settle, settle_global, route, max_uint32, minus_one, add_default_channel_receiver,
  for_channel_request, begin_request, finish_request,
}
use go_ios.Dtx.Connection.Entries.{
  Inv, SameChannels, SameChannels-Inv, IsEntry, Leaves, AreEntries-mono, insert-AreEntries,
  lookup-AreEntries, IsEntry-channel, emptied-Inv, settle-Inv,
}
use go_ios.Dtx.Connection.Upkeep.{settle_global-Inv, route-Inv}
use go_ios.Dtx.Connection.Routing.{stored_request}

module _ {O : Type 0} (unarchive : Bytes → Option (List O)) (as_string : O → Option Bytes) where
  pub data Step (c : Connection O) : Connection O → Type 0 where
    reads :
        (accepts : Bool) (msg : Message O) (c' : Connection O)
        → route unarchive as_string accepts msg c ≡ ok c'
        → Step c c'
    works :
        (key : Key) (d d' : Channel O)
        → lookup key c.active_channels ≡ some d
        → Steps.Step unarchive as_string d d'
        → Step c (settle key d' c)
    works_globally :
        (accepts : Bool) (d' : Channel O) (c' : Connection O)
        → Steps.Step unarchive as_string c.global_channel d'
        → settle_global unarchive as_string accepts d' c ≡ ok c'
        → Step c c'
    requests :
        (archive_bin : Bytes → Bytes) (accepts : Bool) (identifier : Bytes)
        → Step c (begin_request archive_bin accepts identifier c).0
    opens : (code : ℕ) → code < c.channel_code_counter → Step c (finish_request code c)
    is_asked :
        (c' : Connection O) → for_channel_request unarchive as_string c ≡ some (ok c') → Step c c'
    listens : Step c (add_default_channel_receiver c)
    closes : (e : Option ConnectionError) → Step c (close e c)

  pub data Lives (c : Connection O) : Connection O → Type 0 where
    starts : Lives c c
    goes_on : (d e : Connection O) → Lives c d → Step d e → Lives c e

module _ {O : Type 0} where
  new_dtx_connection-Inv : Inv (new_dtx_connection {O = O})
  unfolding new_dtx_connection
  new_dtx_connection-Inv = record { entries = tt; global = new_channel-Inv 0 5 }

  store-Inv :
      (k : Key) (code : ℕ) (c : Connection O)
      → IsEntry {O = O} c.channel_code_counter (k, new_channel code 1)
      → Inv c
      → Inv (store k (new_channel code 1) c)
  unfolding store
  store-Inv k code c e i = record {
    entries =
        insert-AreEntries c.channel_code_counter k (new_channel code 1) c.active_channels e
          i.entries;
    global = i.global;
  }

  close-SameChannels : (e : Option ConnectionError) (c : Connection O) → SameChannels c (close e c)
  unfolding close
  close-SameChannels e c = ground arith

  pub close-Inv : (e : Option ConnectionError) (c : Connection O) → Inv c → Inv (close e c)
  close-Inv e c i = SameChannels-Inv c (close e c) (close-SameChannels e c) i

  begin_request-Inv :
      (archive_bin : Bytes → Bytes) (accepts : Bool) (identifier : Bytes) (c : Connection O)
      → Inv c
      → Inv (begin_request archive_bin accepts identifier c).0
  unfolding begin_request
  begin_request-Inv archive_bin accepts identifier c i = record {
    entries =
        AreEntries-mono c.channel_code_counter (c.channel_code_counter + 1) c.active_channels
          (omega arith) i.entries;
    global =
        emptied-Inv _ (begin_call-Inv accepts true method_invocation _ _ c.global_channel i.global);
  }

  IsEntry-code : (n k : ℕ) (d : Channel O) → IsEntry n (an_int k, d) → (k < n) ⊎ (k ≡ minus_one)
  unfolding IsEntry
  IsEntry-code n k d e = e.0

new-IsEntry :
    (O : Type 0) (n k code : ℕ)
    → (k < n) ⊎ (k ≡ minus_one)
    → IsEntry {O = O} n (an_int k, new_channel code 1)
unfolding IsEntry
new-IsEntry O n k code h = (h, new_channel-Inv code 1)

default-IsEntry :
    (O : Type 0) (n : ℕ) → IsEntry {O = O} n (a_uint32 max_uint32, new_channel minus_one 1)
unfolding IsEntry
default-IsEntry O n = new_channel-Inv minus_one 1

module _ {O : Type 0} (unarchive : Bytes → Option (List O)) (as_string : O → Option Bytes) where
  asked-Inv :
      (c c' : Connection O)
      → for_channel_request unarchive as_string c ≡ some (ok c')
      → Inv c
      → Inv c'
  asked-Inv c c' e i =
      let (active, counter, global) = stored_request unarchive as_string c c' e in
      SameChannels-Inv (store (an_int minus_one) (new_channel minus_one 1) c) c'
        (unfold store in record { counter = counter; active = active; global = global })
        (store-Inv (an_int minus_one) minus_one c
          (new-IsEntry O c.channel_code_counter minus_one minus_one (inr refl)) i)

  Step-Inv : {c c' : Connection O} → Step unarchive as_string c c' → Inv c → Inv c'
  unfolding finish_request add_default_channel_receiver
  Step-Inv {c} (reads a m c' e) i = subst (Leaves Inv) e (route-Inv unarchive as_string a m c i)
  Step-Inv {c} (works k d d' found s) i =
      settle-Inv k d d' c found
        (Steps.Step-Inv unarchive as_string s (
          IsEntry-channel c.channel_code_counter k d
            (lookup-AreEntries c.channel_code_counter k c.active_channels i.entries found)))
        i
  Step-Inv {c} (works_globally a d' c' s e) i = subst (Leaves Inv) e (
      settle_global-Inv unarchive as_string a d' c (Steps.Step-Inv unarchive as_string s i.global)
        i)
  Step-Inv {c} (requests archive_bin a identifier) i =
      begin_request-Inv archive_bin a identifier c i
  Step-Inv {c} (opens code h) i =
      store-Inv (an_int code) code c (new-IsEntry O c.channel_code_counter code code (inl h)) i
  Step-Inv {c} (is_asked c' e) i = asked-Inv c c' e i
  Step-Inv {c} listens i =
      store-Inv (a_uint32 max_uint32) minus_one c (default-IsEntry O c.channel_code_counter) i
  Step-Inv {c} (closes e) i = close-Inv e c i

  -- Whatever a new connection reads, its services call, the device and they ask channels for and
  -- closes it, in any order: its global channel and each of its other channels keep their waiters,
  -- fragments and queues in order, and each channel stands under a code that was given out, under
  -- −1 or under a `uint32`.
  pub Lives-Inv : {c : Connection O} → Lives unarchive as_string new_dtx_connection c → Inv c
  Lives-Inv starts = new_dtx_connection-Inv
  Lives-Inv (goes_on d e r s) = Step-Inv s (Lives-Inv r)

  -- On such a connection the code that a request for a channel takes, if it is below 2^64 − 1, has no
  -- channel yet; once the request has ended, messages with this code come to the new channel, those
  -- with another code to where they came, and the next request takes another code.
  pub begin_request-finish_request :
      (archive_bin : Bytes → Bytes) (accepts : Bool) (identifier : Bytes) {c : Connection O}
      → Lives unarchive as_string new_dtx_connection c
      → c.channel_code_counter < 2 ^ 64 - 1
      → let (asked, code, called) = begin_request archive_bin accepts identifier c in
        (lookup (an_int code) c.active_channels ≡ none)
        × ((k : ℕ)
            → lookup (an_int k) (finish_request code asked).active_channels ≡ (
                if code == k
                then some (new_channel code 1)
                else lookup (an_int k) c.active_channels))
        × (code < (finish_request code asked).channel_code_counter)
  unfolding begin_request finish_request store
  begin_request-finish_request archive_bin accepts identifier {c} r small = (
    no_channel,
    λ k.
        lookup-insert (an_int c.channel_code_counter) (an_int k)
          (new_channel c.channel_code_counter 1) c.active_channels,
    omega arith,
  )
    where
      refuted :
          (d : Channel O)
          → (c.channel_code_counter < c.channel_code_counter) ⊎ (c.channel_code_counter ≡ minus_one)
          → lookup (an_int c.channel_code_counter) c.active_channels ≡ none
      refuted d (inl h) = absurd (omega arith)
      refuted d (inr h) = absurd (omega arith)

      no_channel : lookup (an_int c.channel_code_counter) c.active_channels ≡ none
      no_channel = elim (Option-cases (lookup (an_int c.channel_code_counter) c.active_channels)) [
        | inl e ↦ e
        | inr (d, found) ↦ refuted d (
            IsEntry-code c.channel_code_counter c.channel_code_counter d (
              lookup-AreEntries c.channel_code_counter (an_int c.channel_code_counter)
                c.active_channels (Lives-Inv r).entries found))
      ]
