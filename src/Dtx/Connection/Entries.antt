-- ===== src/Dtx/Connection/Entries.antt =====
-- When the channels of a connection are in order, and the operations that leave them alone.
use go_ios.Common.{
  ℕ, ◌<◌, ◌≤◌, ◌≡◌, refl, sym, subst, ◌∙◌, Bool, some, List, [], ◌∷◌, ◌⊎◌, inl, inr, Bool-cases,
  arith,
}
use go_ios.Common.Maps.{lookup, insert}
use go_ios.Common.Result.{Result, ok, err, ◌>>=◌}
use go_ios.Dtx.Message.{Message}
use go_ios.Dtx.Channel.{Channel}
use go_ios.Dtx.Channel.Identifiers.{new_channel-Inv}
use go_ios.Dtx.Channel.Identifiers
use go_ios.Dtx.Connection.{
  Key, key_same, key_same_iff, Key_eq, an_int, a_uint32, Connection, Fault, stuck, store, settle,
  emptied, send_ack_if_needed, connection_dispatch, forward, queue_request, minus_one,
}

-- An entry under a code that was given out, under −1 or under a `uint32`, of a channel in order.
unfoldable pub IsEntry : {O : Type 0} → ℕ → Key × Channel O → Type 0
IsEntry n (an_int k, d) = ((k < n) ⊎ (k ≡ minus_one)) × Identifiers.Inv d
IsEntry n (a_uint32 k, d) = Identifiers.Inv d

abbrev pub AreEntries : {O : Type 0} → ℕ → List (Key × Channel O) → Type 0
AreEntries n [] = Unit
AreEntries n (e ∷ es) = IsEntry n e × AreEntries n es

pub record Inv {O : Type 0} (c : Connection O) : Type 0 where
  pub entries : AreEntries c.channel_code_counter c.active_channels
  pub global : Identifiers.Inv c.global_channel

-- Only what is sent and handed over differs.
pub record SameChannels {O : Type 0} (c d : Connection O) : Type 0 where
  pub counter : d.channel_code_counter ≡ c.channel_code_counter
  pub active : d.active_channels ≡ c.active_channels
  pub global : d.global_channel ≡ c.global_channel

-- the panics, and the send that blocks
abbrev pub IsGoFault : Fault → Type 0
IsGoFault stuck = ⊥
IsGoFault _ = Unit

-- What a step of the reader leaves, where it does not panic or block.
abbrev pub Leaves : {O : Type 0} → (Connection O → Type 0) → Result Fault (Connection O) → Type 0
Leaves P (ok c) = P c
Leaves P (err f) = IsGoFault f

-- what a line that is only logged leaves
abbrev pub Logs : Result Fault (Unit {0}) → Type 0
Logs (ok u) = Unit
Logs (err f) = IsGoFault f

module _ {O : Type 0} where
  IsEntry-mono : (m n : ℕ) (e : Key × Channel O) → m ≤ n → IsEntry m e → IsEntry n e
  unfolding IsEntry
  IsEntry-mono m n (an_int k, d) h (inl b, v) = (inl (omega arith), v)
  IsEntry-mono m n (an_int k, d) h (inr b, v) = (inr b, v)
  IsEntry-mono m n (a_uint32 k, d) h v = v

  pub AreEntries-mono :
      (m n : ℕ) (es : List (Key × Channel O)) → m ≤ n → AreEntries m es → AreEntries n es
  AreEntries-mono m n [] h b = tt
  AreEntries-mono m n (e ∷ es) h b = (IsEntry-mono m n e h b.0, AreEntries-mono m n es h b.1)

  pub insert-AreEntries :
      (n : ℕ) (k : Key) (d : Channel O) (es : List (Key × Channel O))
      → IsEntry n (k, d)
      → AreEntries n es
      → AreEntries n (insert k d es)
  unfolding insert
  insert-AreEntries n k d [] h b = (h, tt)
  insert-AreEntries n k d ((j, w) ∷ es) h b = elim (Bool-cases (key_same j k)) [
    | inl e ↦ rw (e) (h, b.1)
    | inr e ↦ rw (e) (b.0, insert-AreEntries n k d es h b.1)
  ]

  pub lookup-AreEntries :
      (n : ℕ) (k : Key) (es : List (Key × Channel O)) {d : Channel O}
      → AreEntries n es
      → lookup k es ≡ some d
      → IsEntry n (k, d)
  unfolding lookup
  lookup-AreEntries n k [] b found = cc
  lookup-AreEntries n k ((j, w) ∷ es) {d} b found = elim (Bool-cases (key_same j k)) [
    | inl e ↦
        let at : j ≡ k = (key_same_iff j k).0 e in
        let it : w ≡ d = ground arith in
        subst (λ x. IsEntry n (x, d)) at (subst (λ x. IsEntry n (j, x)) it b.0)
    | inr e ↦ lookup-AreEntries n k es b.1 (ground arith)
  ]

  pub IsEntry-channel : (n : ℕ) (k : Key) (d : Channel O) → IsEntry n (k, d) → Identifiers.Inv d
  unfolding IsEntry
  IsEntry-channel n (an_int k) d e = e.1
  IsEntry-channel n (a_uint32 k) d e = e

  pub emptied-Inv : (d : Channel O) → Identifiers.Inv d → Identifiers.Inv (emptied d)
  emptied-Inv d v = record {
    waiters_below = v.waiters_below;
    defragmenters_below = v.defragmenters_below;
    waiters_queued = v.waiters_queued;
    methods_queued = v.methods_queued;
  }

  IsEntry-emptied :
      (n : ℕ) (k : Key) (d d' : Channel O)
      → IsEntry n (k, d)
      → Identifiers.Inv d'
      → IsEntry n (k, emptied d')
  unfolding IsEntry
  IsEntry-emptied n (an_int k) d d' e v = (e.0, emptied-Inv d' v)
  IsEntry-emptied n (a_uint32 k) d d' e v = emptied-Inv d' v

  pub settle-Inv :
      (k : Key) (d d' : Channel O) (c : Connection O)
      → lookup k c.active_channels ≡ some d
      → Identifiers.Inv d'
      → Inv c
      → Inv (settle k d' c)
  unfolding settle store
  settle-Inv k d d' c found v i = record {
    entries =
        insert-AreEntries c.channel_code_counter k (emptied d') c.active_channels
          (IsEntry-emptied c.channel_code_counter k d d'
            (lookup-AreEntries c.channel_code_counter k c.active_channels i.entries found) v)
          i.entries;
    global = i.global;
  }

  pub send_ack_if_needed-SameChannels :
      (a : Bool) (m : Message O) (c : Connection O) → SameChannels c (send_ack_if_needed a m c)
  unfolding send_ack_if_needed
  send_ack_if_needed-SameChannels a m c = ground arith

  pub forward-SameChannels : (m : Message O) (c : Connection O) → SameChannels c (forward m c)
  unfolding forward connection_dispatch
  forward-SameChannels m c = ground arith

  pub queue_request-SameChannels :
      (m : Message O) (c : Connection O) → Leaves (SameChannels c) (queue_request m c)
  unfolding queue_request
  queue_request-SameChannels m c = ground arith

  pub SameChannels-trans :
      (a b c : Connection O) → SameChannels a b → SameChannels b c → SameChannels a c
  SameChannels-trans a b c p q = record {
    counter = q.counter ∙ p.counter;
    active = q.active ∙ p.active;
    global = q.global ∙ p.global;
  }

  pub SameChannels-refl : (c : Connection O) → SameChannels c c
  SameChannels-refl c = record { counter = refl; active = refl; global = refl }

  pub Leaves-trans :
      (a b : Connection O) (r : Result Fault (Connection O))
      → SameChannels a b
      → Leaves (SameChannels b) r
      → Leaves (SameChannels a) r
  Leaves-trans a b (ok c) p q = SameChannels-trans a b c p q
  Leaves-trans a b (err e) p q = q

  pub >>=-Leaves :
      (P Q : Connection O → Type 0) (r : Result Fault (Connection O))
      (f : Connection O → Result Fault (Connection O))
      → Leaves P r
      → ((c : Connection O) → P c → Leaves Q (f c))
      → Leaves Q (r >>= f)
  >>=-Leaves P Q (ok c) f p q = q c p
  >>=-Leaves P Q (err e) f p q = p

  pub SameChannels-Inv : (c d : Connection O) → SameChannels c d → Inv c → Inv d
  SameChannels-Inv c d s i = record {
    entries =
        subst (λ n. AreEntries n d.active_channels) (sym s.counter)
          (subst (AreEntries c.channel_code_counter) (sym s.active) i.entries);
    global = subst Identifiers.Inv (sym s.global) i.global;
  }
