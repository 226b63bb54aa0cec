-- ===== src/Dtx/Channel/Panics.antt =====
-- The fragment by which `Dispatch` panics.
use go_ios.Common.{suc, ◌^◌, ◌<◌, ◌≡◌, ◌≢◌, ap, ◌∙◌, Bool, true, false, Option, some, List, arith}
use go_ios.Common.Bytes.{Bytes}
use go_ios.Common.Maps.{lookup, ℕ_eq}
use go_ios.Common.Result.{err, ◌>>=◌}
use go_ios.Dtx.Message.{
  Message, method_invocation, is_fragment, is_first_fragment, is_last_fragment,
  message_is_first_fragment_for,
}
use go_ios.Dtx.Fragment.{FragmentDecoder, add_fragment, extract, illegal_state}
use go_ios.Dtx.Channel.{Channel, extract_fault, collect_fragment, dispatch, dispatch_reply}
use go_ios.Dtx.Channel.Replies.{note_identifier-eq}
use go_ios.Dtx.Channel.Fragments.{dispatch-fragment}

module _ {O : Type 0} (unarchive : Bytes → Option (List O)) (as_string : O → Option Bytes) where
  -- A last fragment, no method call, whose count of fragments is not the one that the first fragment
  -- of its identifier announced: the decoder refuses it, but `Dispatch` still takes it for the last
  -- one and calls `Extract`, which panics where no last fragment was accepted before.
  pub dispatch_panics :
      (accepts : Bool) (g : Message O) (d : Channel O) (f : FragmentDecoder O)
      → 1 < g.fragments
      → suc g.fragment_index ≡ g.fragments
      → g.fragments < 2 ^ 16
      → g.payload_header.message_type ≢ method_invocation
      → lookup g.identifier d.defragmenters ≡ some f
      → f.first_fragment.fragments ≢ g.fragments
      → f.finished ≡ false
      → dispatch unarchive as_string accepts g d ≡ err (extract_fault illegal_state)
  unfolding dispatch_reply collect_fragment is_first_fragment is_fragment is_last_fragment
  dispatch_panics accepts g d f more last fits no_call kept other open_still =
      let (n, e) = note_identifier-eq g d in
      let a : is_first_fragment g ≡ false = ground arith in
      let b : is_fragment g ≡ true = ground arith in
      let c : is_last_fragment g ≡ true = ground arith in
      let refused : (add_fragment f g).0 ≡ f =
        unfold add_fragment message_is_first_fragment_for in ground arith in
      let panics : extract (add_fragment f g).0 ≡ err illegal_state =
        rw refused (unfold extract in rw open_still) in
      dispatch-fragment unarchive as_string accepts g d more no_call
      ∙ ap (dispatch_reply unarchive as_string accepts g) e
      ∙ rw (dispatch_reply, a, b, collect_fragment, kept, c, panics, ◌>>=◌)
