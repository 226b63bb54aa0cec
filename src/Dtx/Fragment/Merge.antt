-- ===== src/Dtx/Fragment/Merge.antt =====
-- What `Extract` makes of the collected fragments.
use go_ios.Common.{
  ℕ, suc, ◌+◌, ◌-◌, ◌^◌, ◌≤◌, ◌<◌, ◌≡◌, refl, sym, ap, ◌∙◌, inr, Bool, true, false, some, List, [],
  ◌∷◌, ◌++◌, map, append_assoc, arith, length, length-append, replicate, replicate-append,
  length-replicate, get_elem?, get_elem?-set_ne, le→ltb_false, leb, if◌then◌else◌, All,
}
use mathlib.Core.Path.{subst}
use native.Mathlib.Nat.{add_comm}
use go_ios.Common.Bytes.{Bytes, zeros, le, be}
use go_ios.Common.Buffer.{copy_at, put_at, copy_at-append}
use go_ios.Common.Result.{ok}
use go_ios.Dtx.Message.{
  Message, dtx_message_magic, dtx_message_header_length, max_message_size, is_first_fragment,
}
use go_ios.Dtx.Encoder.Layout.{header_bytes}
use go_ios.Dtx.Fragment.{
  FragmentDecoder, empty_message, new_fragment_decoder, add_fragment, has_finished, copy_fragments,
  extract,
}
use go_ios.Dtx.Fragment.Reassembly.{
  add_all, IsFragmentOf, IsCollecting, Arrives, AllArrive, map-add_all, finished-add_all,
  add_all-IsCollecting, start, new_fragment_decoder-start, start-IsCollecting,
  add_fragment-IsFragmentOf, finished-add_fragment,
}

abbrev pub join : List Bytes → Bytes
join [] = []
join (b ∷ bs) = b ++ join bs

copy_fragments-zeros :
    {O : Type 0} (frags : List (Message O)) (a : Bytes) (off : ℕ)
    → length a ≡ off
    → let bytes = join (map (λ m. m.fragment_bytes) frags) in
      copy_fragments off frags (a ++ replicate (length bytes) 0) ≡ ok (a ++ bytes)
unfolding copy_fragments
copy_fragments-zeros [] a off e = refl
copy_fragments-zeros (m ∷ frags) a off e =
    let b = m.fragment_bytes in
    let rest = join (map (λ m. m.fragment_bytes) frags) in
    rw
      (
        length-append b rest,
        replicate-append {A = ℕ} (length b) (length rest) 0,
        copy_at-append a b (replicate (length b) 0) (replicate (length rest) 0) off e
            (length-replicate (length b) 0),
        ← append_assoc a b (replicate (length rest) 0),
        ← append_assoc a b rest,
      )
      (copy_fragments-zeros frags (a ++ b) (off + length b) (omega (arith, length-append a b)))

-- the 32 bytes of the first of `count` fragments
abbrev pub first_fragment_bytes : ℕ → ℕ → ℕ → ℕ → ℕ → Bool → Bytes
first_fragment_bytes count size identifier conversation_index channel_code expects_reply =
    be 4 dtx_message_magic
    ++ (le 4 dtx_message_header_length
        ++ (le 2 0
            ++ (le 2 count
                ++ (le 4 size
                    ++ (le 4 identifier
                        ++ (le 4 conversation_index
                            ++ (le 4 channel_code ++ le 4 (if expects_reply then 1 else 0))))))))

-- A message of the given header, whose body was cut into `chunks` behind a first fragment.
pub record IsCut {O : Type 0} (first : Message O) (chunks : List Bytes) (i c ch : ℕ) (e : Bool)
    : Type 0 where
  pub is_first : is_first_fragment first ≡ true
  pub counted : first.fragments ≡ suc (length chunks)
  pub count_fits : first.fragments < 2 ^ 16
  pub sized : first.message_length ≡ length (join chunks)
  pub size_fits : first.message_length ≤ max_message_size
  pub header :
      first.fragment_bytes ≡ first_fragment_bytes first.fragments first.message_length i c ch e

zeros_behind_32 : (n : ℕ) → zeros (n + 32) ≡ zeros 32 ++ zeros n
zeros_behind_32 n = ap zeros (add_comm n 32) ∙ replicate-append {A = ℕ} 32 n 0

module _ {O : Type 0} (first : Message O) (chunks : List Bytes) (i c ch : ℕ) (e : Bool)
    (cut : IsCut first chunks i c ch e) where
  extract-collected :
      (f : FragmentDecoder O)
      → f.first_fragment ≡ first
      → f.finished ≡ true
      → map (λ m. m.fragment_bytes) f.fragments ≡ chunks
      → extract f ≡ ok (header_bytes first.message_length i c ch e ++ join chunks)
  unfolding extract copy_at put_at le be
  extract-collected f same done collected =
      rw
        (
          done,
          same,
          le→ltb_false max_message_size first.message_length cut.size_fits,
          small,
          zeros_behind_32 first.message_length,
          cut.header,
        )
        (ap (λ z. copy_fragments 32 f.fragments (front ++ z)) tail
          ∙ copy_fragments-zeros f.fragments front 32 refl
          ∙ ap (λ z. ok (front ++ join z)) collected)
    where
      small : leb (2 ^ 63) first.message_length ≡ false
      small = let h = cut.size_fits in ground arith

      front : Bytes
      front = header_bytes first.message_length i c ch e

      tail :
          zeros first.message_length
          ≡ zeros (length (join (map (λ m. m.fragment_bytes) f.fragments)))
      tail = ap zeros (cut.sized ∙ ap (λ z. length (join z)) (sym collected))

  some_chunk : 0 < length chunks
  unfolding is_first_fragment
  some_chunk = let a = cut.is_first in let b = cut.counted in ground arith

  at_end : 0 < length chunks → suc (length chunks - 1) ≡ length chunks
  at_end h = omega arith

  -- Whatever the order in which the fragments arrive, and however often, once each has arrived the
  -- decoder that was made from the first fragment has finished, and `Extract` returns the message
  -- that was cut: its header, then the chunks in their order.
  pub extract-add_all :
      (gs : List (Message O))
      → All (IsFragmentOf first chunks) gs
      → AllArrive chunks gs
      → (f : FragmentDecoder O) × (new_fragment_decoder first ≡ some f)
        × (has_finished (add_all f gs) ≡ true)
        × (extract (add_all f gs) ≡ ok (header_bytes first.message_length i c ch e ++ join chunks))
  unfolding has_finished
  extract-add_all gs h a = (
    s,
    new_fragment_decoder-start first chunks cut.is_first cut.counted cut.count_fits,
    done,
    extract-collected (add_all s gs) collecting.first_kept done
        (map-add_all first chunks cut.is_first cut.counted cut.count_fits gs s begun h a),
  )
    where
      s : FragmentDecoder O
      s = start first chunks cut.is_first cut.counted cut.count_fits

      begun : IsCollecting first chunks s
      begun = start-IsCollecting first chunks cut.is_first cut.counted cut.count_fits

      collecting : IsCollecting first chunks (add_all s gs)
      collecting =
          add_all-IsCollecting first chunks cut.is_first cut.counted cut.count_fits gs s begun h

      last : Arrives (length chunks) gs
      last =
          subst (λ n. Arrives n gs) (at_end some_chunk)
            (a (length chunks - 1) (omega (arith, some_chunk)))

      done : (add_all s gs).finished ≡ true
      done =
          finished-add_all first chunks cut.is_first cut.counted cut.count_fits gs s begun h
            (inr last)

  -- `HasFinished` answers true as soon as the last fragment has arrived: where the message was cut
  -- into two chunks or more, and the last is all that arrived, the first one is still missing.
  pub has_finished_early :
      (g : Message O)
      → IsFragmentOf first chunks g
      → g.fragment_index ≡ length chunks
      → 2 ≤ length chunks
      → (f : FragmentDecoder O) × (new_fragment_decoder first ≡ some f)
        × (has_finished (add_fragment f g).0 ≡ true)
        × (get_elem? (add_fragment f g).0.fragments 0 ≡ some empty_message)
  unfolding has_finished
  has_finished_early g h at two = (
    s,
    new_fragment_decoder-start first chunks cut.is_first cut.counted cut.count_fits,
    finished-add_fragment first chunks cut.is_first cut.counted cut.count_fits s g begun h (inr at),
    rw (add_fragment-IsFragmentOf first chunks cut.is_first cut.counted cut.count_fits s g begun h)
        (get_elem?-set_ne s.fragments (g.fragment_index - 1) 0 g (omega arith) ∙ missing),
  )
    where
      s : FragmentDecoder O
      s = start first chunks cut.is_first cut.counted cut.count_fits

      begun : IsCollecting first chunks s
      begun = start-IsCollecting first chunks cut.is_first cut.counted cut.count_fits

      missing : get_elem? s.fragments 0 ≡ some empty_message
      missing =
          let e : first.fragments - 1 ≡ suc (length chunks - 1) =
            omega (arith, cut.counted, at_end some_chunk) in
          unfold start in rw e
