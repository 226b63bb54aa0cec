-- ===== src/Dtx/Channel/Identifiers.antt =====
-- The identifiers of the calls that wait on a channel, and the queues that they wait on.
use go_ios.Common.{
  ℕ, ◌<◌, ◌≤◌, ◌≡◌, refl, none, List, [], ◌∷◌, ◌++◌, arith, length, length-append, length-set, set,
  ◌==◌, Bool-cases, inl, inr,
}
use go_ios.Common.Bytes.{Bytes}
use go_ios.Common.Maps.{Eq, lookup, insert, delete, ℕ_eq, Bytes_eq}
use go_ios.Dtx.Channel.{
  Queue, Channel, new_channel, make_queue, add_response_waiter, remove_response_waiter,
  register_method_for_remote, registered_method_buffer,
}
use go_ios.Dtx.Fragment.{FragmentDecoder}

-- All identifiers of the map are below `n`.
unfoldable pub KeysBelow {ℓ} : {V : Type ℓ} → ℕ → List (ℕ × V) → Type 0
KeysBelow n [] = Unit
KeysBelow n ((k, v) ∷ m) = (k < n) × KeysBelow n m

-- All queues that the map names are among the first `n`.
unfoldable pub QueuesBelow {ℓ} : {K : Type ℓ} → ℕ → List (K × ℕ) → Type 0
QueuesBelow n [] = Unit
QueuesBelow n ((k, h) ∷ m) = (h < n) × QueuesBelow n m

-- Nothing is kept under an identifier that is still to be given out, and each waiter and each
-- method names a queue that is there.
pub record Inv {O : Type 0} (d : Channel O) : Type 0 where
  pub waiters_below : KeysBelow d.message_identifier d.response_waiters
  pub defragmenters_below : KeysBelow d.message_identifier d.defragmenters
  pub waiters_queued : QueuesBelow (length d.queues) d.response_waiters
  pub methods_queued : QueuesBelow (length d.queues) d.registered_methods

module _ {ℓ} {V : Type ℓ} where
  KeysBelow-mono : (m n : ℕ) (es : List (ℕ × V)) → m ≤ n → KeysBelow m es → KeysBelow n es
  unfolding KeysBelow
  KeysBelow-mono m n [] h b = tt
  KeysBelow-mono m n ((k, v) ∷ es) h b = (omega (arith, b.0), KeysBelow-mono m n es h b.1)

  insert-KeysBelow :
      (n k : ℕ) (v : V) (es : List (ℕ × V)) → k < n → KeysBelow n es → KeysBelow n (insert k v es)
  unfolding KeysBelow insert
  insert-KeysBelow n k v [] h b = (h, tt)
  insert-KeysBelow n k v ((j, w) ∷ es) h b = elim (Bool-cases (j == k)) [
    | inl e ↦ rw (e) (h, b.1)
    | inr e ↦ rw (e) (b.0, insert-KeysBelow n k v es h b.1)
  ]

  delete-KeysBelow : (n k : ℕ) (es : List (ℕ × V)) → KeysBelow n es → KeysBelow n (delete k es)
  unfolding KeysBelow delete
  delete-KeysBelow n k [] b = tt
  delete-KeysBelow n k ((j, w) ∷ es) b = elim (Bool-cases (j == k)) [
    | inl e ↦ rw (e) (delete-KeysBelow n k es b.1)
    | inr e ↦ rw (e) (b.0, delete-KeysBelow n k es b.1)
  ]

  pub lookup-KeysBelow : (n k : ℕ) (es : List (ℕ × V)) → n ≤ k → KeysBelow n es → lookup k es ≡ none
  unfolding KeysBelow lookup
  lookup-KeysBelow n k [] h b = refl
  lookup-KeysBelow n k ((j, w) ∷ es) h b = ground (arith, b.0, lookup-KeysBelow n k es h b.1)

module _ {ℓ} {K : Type ℓ} where
  QueuesBelow-mono : (m n : ℕ) (es : List (K × ℕ)) → m ≤ n → QueuesBelow m es → QueuesBelow n es
  unfolding QueuesBelow
  QueuesBelow-mono m n [] h b = tt
  QueuesBelow-mono m n ((k, v) ∷ es) h b = (omega (arith, b.0), QueuesBelow-mono m n es h b.1)

  insert-QueuesBelow :
      ⦃e : Eq K⦄ (n : ℕ) (k : K) (v : ℕ) (es : List (K × ℕ))
      → v < n
      → QueuesBelow n es
      → QueuesBelow n (insert k v es)
  unfolding QueuesBelow insert
  insert-QueuesBelow n k v [] h b = (h, tt)
  insert-QueuesBelow ⦃e⦄ n k v ((j, w) ∷ es) h b = elim (Bool-cases (e.same j k)) [
    | inl eq ↦ rw (eq) (h, b.1)
    | inr eq ↦ rw (eq) (b.0, insert-QueuesBelow n k v es h b.1)
  ]

  delete-QueuesBelow :
      ⦃e : Eq K⦄ (n : ℕ) (k : K) (es : List (K × ℕ))
      → QueuesBelow n es
      → QueuesBelow n (delete k es)
  unfolding QueuesBelow delete
  delete-QueuesBelow n k [] b = tt
  delete-QueuesBelow ⦃e⦄ n k ((j, w) ∷ es) b = elim (Bool-cases (e.same j k)) [
    | inl eq ↦ rw (eq) (delete-QueuesBelow n k es b.1)
    | inr eq ↦ rw (eq) (b.0, delete-QueuesBelow n k es b.1)
  ]

module _ {O : Type 0} where
  pub new_channel-Inv :
      (code first_identifier : ℕ) → Inv (new_channel {O = O} code first_identifier)
  unfolding new_channel KeysBelow QueuesBelow
  new_channel-Inv code first_identifier = record {
    waiters_below = tt;
    defragmenters_below = tt;
    waiters_queued = tt;
    methods_queued = tt;
  }

  pub make_queue-Inv : (c : ℕ) (d : Channel O) → Inv d → Inv (make_queue c d)
  unfolding make_queue
  make_queue-Inv c d v =
      let q : List (Queue O) = record { capacity = c; messages = [] } ∷ [] in
      let longer : length d.queues ≤ length (d.queues ++ q) =
        omega (arith, length-append d.queues q) in
      record {
        waiters_below = v.waiters_below;
        defragmenters_below = v.defragmenters_below;
        waiters_queued = QueuesBelow-mono _ _ d.response_waiters longer v.waiters_queued;
        methods_queued = QueuesBelow-mono _ _ d.registered_methods longer v.methods_queued;
      }

  -- A queue keeps its place.
  pub set-Inv :
      (h : ℕ) (q : Queue O) (d : Channel O) → Inv d → Inv (record d { queues = set d.queues h q })
  set-Inv h q d v =
      let same : length d.queues ≤ length (set d.queues h q) =
        omega (arith, length-set d.queues h q) in
      record {
        waiters_below = v.waiters_below;
        defragmenters_below = v.defragmenters_below;
        waiters_queued = QueuesBelow-mono _ _ d.response_waiters same v.waiters_queued;
        methods_queued = QueuesBelow-mono _ _ d.registered_methods same v.methods_queued;
      }

  pub raise-Inv :
      (n : ℕ) (d : Channel O)
      → d.message_identifier ≤ n
      → Inv d
      → Inv (record d { message_identifier = n })
  raise-Inv n d h v = record {
    waiters_below = KeysBelow-mono _ n d.response_waiters h v.waiters_below;
    defragmenters_below = KeysBelow-mono _ n d.defragmenters h v.defragmenters_below;
    waiters_queued = v.waiters_queued;
    methods_queued = v.methods_queued;
  }

  pub add_response_waiter-Inv :
      (k h : ℕ) (d : Channel O)
      → k < d.message_identifier
      → h < length d.queues
      → Inv d
      → Inv (add_response_waiter k h d)
  unfolding add_response_waiter
  add_response_waiter-Inv k h d below there v = record {
    waiters_below = insert-KeysBelow _ k h d.response_waiters below v.waiters_below;
    defragmenters_below = v.defragmenters_below;
    waiters_queued = insert-QueuesBelow _ k h d.response_waiters there v.waiters_queued;
    methods_queued = v.methods_queued;
  }

  pub remove_response_waiter-Inv :
      (k : ℕ) (d : Channel O) → Inv d → Inv (remove_response_waiter k d)
  unfolding remove_response_waiter
  remove_response_waiter-Inv k d v = record {
    waiters_below = delete-KeysBelow _ k d.response_waiters v.waiters_below;
    defragmenters_below = delete-KeysBelow _ k d.defragmenters v.defragmenters_below;
    waiters_queued = delete-QueuesBelow _ k d.response_waiters v.waiters_queued;
    methods_queued = v.methods_queued;
  }

  pub defragmenters-Inv :
      (k : ℕ) (f : FragmentDecoder O) (d : Channel O)
      → k < d.message_identifier
      → Inv d
      → Inv (record d { defragmenters = insert k f d.defragmenters })
  defragmenters-Inv k f d below v = record {
    waiters_below = v.waiters_below;
    defragmenters_below = insert-KeysBelow _ k f d.defragmenters below v.defragmenters_below;
    waiters_queued = v.waiters_queued;
    methods_queued = v.methods_queued;
  }

  pub register_method_for_remote-Inv :
      (s : Bytes) (d : Channel O) → Inv d → Inv (register_method_for_remote s d)
  unfolding register_method_for_remote
  register_method_for_remote-Inv s d v =
      let v' : Inv (make_queue registered_method_buffer d) =
        make_queue-Inv registered_method_buffer d v in
      let q : List (Queue O) = record { capacity = registered_method_buffer; messages = [] } ∷ [] in
      record {
        waiters_below = v'.waiters_below;
        defragmenters_below = v'.defragmenters_below;
        waiters_queued = v'.waiters_queued;
        methods_queued =
            insert-QueuesBelow _ s (length d.queues) d.registered_methods
              (omega (arith, length-append d.queues q)) v'.methods_queued;
      }
