-- ===== src/Dtx/Fragment.antt =====
-- ios/dtx_codec/fragmentdecoder.go: fragments of one message are collected and merged.
pub mod Reassembly
pub mod Merge
use go_ios.Common.{
  ℕ, ◌+◌, ◌-◌, ◌^◌, Bool, true, false, not, ◌&&◌, ◌||◌, List, [], ◌∷◌, Option, none, some, length,
  replicate, set, ltb, leb, ◌==◌, if◌then◌else◌,
}
use go_ios.Common.Bytes.{Bytes, le}
use go_ios.Common.Buffer.{copy_at, put_at}
use go_ios.Common.Result.{Result, ok, err, need, reject, ◌>>=◌, ◌>>◌}
use go_ios.Dtx.Auxiliary.{new_primitive_dictionary}
use go_ios.Dtx.Message.{
  Message, no_payload_header, no_auxiliary_header, max_message_size, is_first_fragment,
  is_last_fragment, message_is_first_fragment_for,
}

pub record FragmentDecoder (O : Type 0) : Type 0 where
  pub first_fragment : Message O
  pub fragments : List (Message O)
  pub finished : Bool

-- `Message{}`
abbrev pub empty_message : {O : Type 0} → Message O
empty_message = record {
  fragments = 0;
  fragment_index = 0;
  message_length = 0;
  identifier = 0;
  conversation_index = 0;
  channel_code = 0;
  expects_reply = false;
  payload_header = no_payload_header;
  payload = [];
  auxiliary_header = no_auxiliary_header;
  auxiliary = new_primitive_dictionary;
  raw_bytes = [];
  fragment_bytes = [];
}

module _ {O : Type 0} where
  -- None is the panic.
  unfoldable pub new_fragment_decoder : Message O → Option (FragmentDecoder O)
  new_fragment_decoder first =
      if not (is_first_fragment first)
      then none
      else some (record {
        first_fragment = first;
        fragments = replicate (first.fragments - 1) empty_message;
        finished = false;
      })

  -- The index is an `int`: it is below 0 for fragment 0 alone.
  unfoldable pub add_fragment : FragmentDecoder O → Message O → FragmentDecoder O × Bool
  add_fragment f fragment =
      if not (message_is_first_fragment_for f.first_fragment fragment)
      then (f, false)
      else if fragment.fragment_index == 0 || leb (length f.fragments) (fragment.fragment_index - 1)
      then (f, false)
      else (
        record f {
          fragments = set f.fragments (fragment.fragment_index - 1) fragment;
          finished = f.finished || is_last_fragment fragment;
        },
        true,
      )

  unfoldable pub has_finished : FragmentDecoder O → Bool
  has_finished f = f.finished

-- the panics of `Extract`
pub data ExtractFault : Type 0 where
  illegal_state out_of_bounds : ExtractFault

module _ {O : Type 0} where
  unfoldable pub copy_fragments : ℕ → List (Message O) → Bytes → Result ExtractFault Bytes
  copy_fragments offset [] buf = ok buf
  copy_fragments offset (frag ∷ frags) buf = do
    b ← need out_of_bounds (copy_at offset frag.fragment_bytes buf)
    copy_fragments (offset + length frag.fragment_bytes) frags b

  -- The nil slice for a length out of range is the empty list.
  unfoldable pub extract : FragmentDecoder O → Result ExtractFault Bytes
  extract f =
      if not f.finished
      then err illegal_state
      else if leb (2 ^ 63) f.first_fragment.message_length
          || ltb max_message_size f.first_fragment.message_length
      then ok []
      else (do
        b0 ← need out_of_bounds (
            copy_at 0 f.first_fragment.fragment_bytes
              (replicate (f.first_fragment.message_length + 32) 0))
        b1 ← need out_of_bounds (put_at 8 (le 2 0) b0)
        b2 ← need out_of_bounds (put_at 10 (le 2 1) b1)
        copy_fragments 32 f.fragments b2)
