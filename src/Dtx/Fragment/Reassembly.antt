-- ===== src/Dtx/Fragment/Reassembly.antt =====
-- Fragments that arrive in any order, some of them more than once, are merged into their message.
use mathlib.Core.Option
use go_ios.Common.{
  ℕ, suc, ◌-◌, ◌^◌, ◌<◌, ◌≡◌, refl, sym, ◌∙◌, ◌⊎◌, inl, inr, true, false, Option, some, ◌||◌, List,
  [], ◌∷◌, map, arith, length, get_elem?, get_elem?-lt, get_elem?-set_self, get_elem?-set_ne,
  length-set, length-replicate, get_elem?_ext, get_elem?-map, get_elem?_beyond, replicate, All, set,
}
use mathlib.Core.Path.{subst}
use native.Mathlib.Decide.{ℕ_discrete, dec_lt}
use go_ios.Common.Bytes.{Bytes}
use go_ios.Dtx.Message.{Message, is_first_fragment, is_last_fragment, message_is_first_fragment_for}
use go_ios.Dtx.Fragment.{FragmentDecoder, empty_message, new_fragment_decoder, add_fragment}

module _ {O : Type 0} where
  -- The decoder after these calls of `AddFragment`.
  unfoldable pub add_all : FragmentDecoder O → List (Message O) → FragmentDecoder O
  add_all f [] = f
  add_all f (g ∷ gs) = add_all (add_fragment f g).0 gs

  -- `g` carries the chunk of its index, of the message that `first` begins.
  pub record IsFragmentOf (first : Message O) (chunks : List Bytes) (g : Message O) : Type 0 where
    pub same_message : first.identifier ≡ g.identifier
    pub same_count : first.fragments ≡ g.fragments
    pub behind_first : 0 < g.fragment_index
    pub carries : get_elem? chunks (g.fragment_index - 1) ≡ some g.fragment_bytes

  -- Some of the messages has this index.
  abbrev pub Arrives : ℕ → List (Message O) → Type 0
  Arrives j [] = ⊥
  Arrives j (g ∷ gs) = (g.fragment_index ≡ j) ⊎ Arrives j gs

  -- Every chunk has arrived.
  abbrev pub AllArrive : List Bytes → List (Message O) → Type 0
  AllArrive chunks gs = (j : ℕ) → j < length chunks → Arrives (suc j) gs

  abbrev chunk_at : FragmentDecoder O → ℕ → Option Bytes
  chunk_at f j = Option.map (λ m. m.fragment_bytes) (get_elem? f.fragments j)

  -- the shape that the calls keep
  pub record IsCollecting (first : Message O) (chunks : List Bytes) (f : FragmentDecoder O)
      : Type 0 where
    pub first_kept : f.first_fragment ≡ first
    pub one_each : length f.fragments ≡ length chunks

module _ {O : Type 0} (first : Message O) (chunks : List Bytes)
    (is_first : is_first_fragment first ≡ true) (counted : first.fragments ≡ suc (length chunks))
    (fits : first.fragments < 2 ^ 16) where
  pub add_fragment-IsFragmentOf :
      (f : FragmentDecoder O) (g : Message O)
      → IsCollecting first chunks f
      → IsFragmentOf first chunks g
      → (add_fragment f g).0 ≡ record f {
        fragments = set f.fragments (g.fragment_index - 1) g;
        finished = f.finished || is_last_fragment g;
      }
  unfolding add_fragment message_is_first_fragment_for
  add_fragment-IsFragmentOf f g c h =
      ground (arith, get_elem?-lt chunks (g.fragment_index - 1) h.carries, is_first, counted)

  add_fragment-IsCollecting :
      (f : FragmentDecoder O) (g : Message O)
      → IsCollecting first chunks f
      → IsFragmentOf first chunks g
      → IsCollecting first chunks (add_fragment f g).0
  add_fragment-IsCollecting f g c h = rw (add_fragment-IsFragmentOf f g c h) (record {
    first_kept = c.first_kept;
    one_each = length-set f.fragments (g.fragment_index - 1) g ∙ c.one_each;
  })

  chunk_at-add_fragment_self :
      (f : FragmentDecoder O) (g : Message O)
      → IsCollecting first chunks f
      → IsFragmentOf first chunks g
      → chunk_at (add_fragment f g).0 (g.fragment_index - 1)
        ≡ get_elem? chunks (g.fragment_index - 1)
  chunk_at-add_fragment_self f g c h =
      rw
        (
          add_fragment-IsFragmentOf f g c h,
          get_elem?-set_self f.fragments (g.fragment_index - 1) g
              (omega (arith, c.one_each, get_elem?-lt chunks (g.fragment_index - 1) h.carries)),
        )
        (sym h.carries)

  chunk_at-add_fragment :
      (f : FragmentDecoder O) (g : Message O) (j : ℕ)
      → IsCollecting first chunks f
      → IsFragmentOf first chunks g
      → chunk_at f j ≡ get_elem? chunks j
      → chunk_at (add_fragment f g).0 j ≡ get_elem? chunks j
  chunk_at-add_fragment f g j c h e = elim (ℕ_discrete (g.fragment_index - 1) j) [
    | yes p ↦
        subst (λ k. chunk_at (add_fragment f g).0 k ≡ get_elem? chunks k) p
          (chunk_at-add_fragment_self f g c h)
    | no p ↦
        rw
          (
            add_fragment-IsFragmentOf f g c h,
            get_elem?-set_ne f.fragments (g.fragment_index - 1) j g p,
          )
          e
  ]

  pub finished-add_fragment :
      (f : FragmentDecoder O) (g : Message O)
      → IsCollecting first chunks f
      → IsFragmentOf first chunks g
      → (f.finished ≡ true) ⊎ (g.fragment_index ≡ length chunks)
      → (add_fragment f g).0.finished ≡ true
  unfolding is_last_fragment
  finished-add_fragment f g c h e = ground (
    arith,
    add_fragment-IsFragmentOf f g c h,
    get_elem?-lt chunks (g.fragment_index - 1) h.carries,
  )

  pub add_all-IsCollecting :
      (gs : List (Message O)) (f : FragmentDecoder O)
      → IsCollecting first chunks f
      → All (IsFragmentOf first chunks) gs
      → IsCollecting first chunks (add_all f gs)
  unfolding add_all
  add_all-IsCollecting [] f c h = c
  add_all-IsCollecting (g ∷ gs) f c (hg, h) =
      add_all-IsCollecting gs (add_fragment f g).0 (add_fragment-IsCollecting f g c hg) h

  chunk_at-add_all :
      (gs : List (Message O)) (f : FragmentDecoder O) (j : ℕ)
      → IsCollecting first chunks f
      → All (IsFragmentOf first chunks) gs
      → (chunk_at f j ≡ get_elem? chunks j) ⊎ Arrives (suc j) gs
      → chunk_at (add_all f gs) j ≡ get_elem? chunks j
  unfolding add_all
  chunk_at-add_all [] f j c h (inl e) = e
  chunk_at-add_all [] f j c h (inr a) = absurd a
  chunk_at-add_all (g ∷ gs) f j c (hg, h) w =
      chunk_at-add_all gs (add_fragment f g).0 j (add_fragment-IsCollecting f g c hg) h (later w)
    where
      later :
          (chunk_at f j ≡ get_elem? chunks j) ⊎ Arrives (suc j) (g ∷ gs)
          → (chunk_at (add_fragment f g).0 j ≡ get_elem? chunks j) ⊎ Arrives (suc j) gs
      later (inl e) = inl (chunk_at-add_fragment f g j c hg e)
      later (inr (inl e)) =
          let same : g.fragment_index - 1 ≡ j = omega arith in
          inl (
            subst (λ k. chunk_at (add_fragment f g).0 k ≡ get_elem? chunks k) same
              (chunk_at-add_fragment_self f g c hg))
      later (inr (inr a)) = inr a

  pub finished-add_all :
      (gs : List (Message O)) (f : FragmentDecoder O)
      → IsCollecting first chunks f
      → All (IsFragmentOf first chunks) gs
      → (f.finished ≡ true) ⊎ Arrives (length chunks) gs
      → (add_all f gs).finished ≡ true
  unfolding add_all
  finished-add_all [] f c h (inl e) = e
  finished-add_all [] f c h (inr a) = absurd a
  finished-add_all (g ∷ gs) f c (hg, h) w =
      finished-add_all gs (add_fragment f g).0 (add_fragment-IsCollecting f g c hg) h (later w)
    where
      later :
          (f.finished ≡ true) ⊎ Arrives (length chunks) (g ∷ gs)
          → ((add_fragment f g).0.finished ≡ true) ⊎ Arrives (length chunks) gs
      later (inl e) = inl (finished-add_fragment f g c hg (inl e))
      later (inr (inl e)) = inl (finished-add_fragment f g c hg (inr e))
      later (inr (inr a)) = inr a

  pub map-add_all :
      (gs : List (Message O)) (f : FragmentDecoder O)
      → IsCollecting first chunks f
      → All (IsFragmentOf first chunks) gs
      → AllArrive chunks gs
      → map (λ m. m.fragment_bytes) (add_all f gs).fragments ≡ chunks
  map-add_all gs f c h a =
      get_elem?_ext (map (λ m. m.fragment_bytes) (add_all f gs).fragments) chunks
        λ j. get_elem?-map (λ m. m.fragment_bytes) (add_all f gs).fragments j ∙ at j
    where
      c' : IsCollecting first chunks (add_all f gs)
      c' = add_all-IsCollecting gs f c h

      at : (j : ℕ) → chunk_at (add_all f gs) j ≡ get_elem? chunks j
      at j = elim (dec_lt j (length chunks)) [
        | yes p ↦ chunk_at-add_all gs f j c h (inr (a j p))
        | no p ↦ rw (
          get_elem?_beyond (add_all f gs).fragments j (omega (arith, c'.one_each)),
          get_elem?_beyond chunks j (omega arith),
        )
      ]

  -- The new decoder of a first fragment that announces one fragment for each chunk.
  unfoldable pub start : FragmentDecoder O
  start = record {
    first_fragment = first;
    fragments = replicate (first.fragments - 1) empty_message;
    finished = false;
  }

  pub new_fragment_decoder-start : new_fragment_decoder first ≡ some start
  unfolding new_fragment_decoder start
  new_fragment_decoder-start = rw is_first

  pub start-IsCollecting : IsCollecting first chunks start
  unfolding start
  start-IsCollecting = record {
    first_kept = refl;
    one_each = length-replicate (first.fragments - 1) empty_message ∙ omega (arith, counted);
  }
