-- ===== src/Tests/Dtx.antt =====
-- ios/dtx_codec at concrete messages.
use go_ios.Common.{
  ℕ, zero, suc, ◌≡◌, refl, true, false, Option, some, inl, inr, List, [], ◌∷◌, ◌++◌, arith,
}
use go_ios.Common.Bytes.{Bytes, le}
use go_ios.Common.Result.{ok, err}
use go_ios.Dtx.Auxiliary.{
  PrimitiveDictionary, int32_pair, bytes_pair, PrimitiveKeyValuePair, of_pairs, decode_auxiliary,
}
use go_ios.Dtx.Auxiliary.RoundTrip.{IsWritable, int32_argument, bytes_argument, wire}
use go_ios.Dtx.Auxiliary.Total.{decode_auxiliary_total}
use go_ios.Dtx.Message.{Message, object, is_first_fragment}
use go_ios.Dtx.Encoder.{encode}
use go_ios.Dtx.Encoder.Layout.{header_bytes}
use go_ios.Dtx.Decoder.{slice_panicked, dispatch_payload, unarchive_items, decode_non_blocking}
use go_ios.Dtx.Decoder.Headers.{IsHeader, sent_message}
use go_ios.Dtx.Decoder.RoundTrip.{decode_non_blocking-encode}
use go_ios.Dtx.Decoder.Panics.{any_payload_header, decode_non_blocking_panics}
use go_ios.Dtx.Fragment.{
  FragmentDecoder, new_fragment_decoder, has_finished, extract, empty_message,
}
use go_ios.Dtx.Fragment.Reassembly.{add_all, IsFragmentOf, AllArrive}
use go_ios.Dtx.Fragment.Merge.{IsCut, join, first_fragment_bytes, extract-add_all}

-- an archiver that takes every payload for one object, its bytes
abbrev unarchive : Bytes → Option (List Bytes)
unarchive s = some (s ∷ [])

abbrev arguments : PrimitiveDictionary
arguments = record {
  key_value_pairs = int32_pair 5 ∷ (bytes_pair (1 ∷ (2 ∷ [])) ∷ []);
  values = [];
  value_types = [];
}

arguments-IsWritable : IsWritable arguments
arguments-IsWritable =
    (int32_argument 5 (omega arith), (bytes_argument (1 ∷ (2 ∷ [])) (omega arith), tt))

abbrev call : Bytes
call = b'r' ∷ (b'u' ∷ (b'n' ∷ []))

numbers-IsHeader : IsHeader 2 7 0 3
numbers-IsHeader = record {
  size_fits = omega arith;
  identifier_fits = omega arith;
  conversation_fits = omega arith;
  channel_fits = omega arith;
}

decode_non_blocking-encode_example :
    (bs : Bytes) × (encode 7 0 3 true 2 call arguments ≡ ok bs)
    × (decode_non_blocking unarchive (bs ++ (9 ∷ []))
        ≡ ok (
          record (sent_message 7 0 3 true 2 call
              (wire arguments.key_value_pairs)
              (of_pairs arguments.key_value_pairs)
              (object call ∷ [])) { raw_bytes = bs },
          9 ∷ [],
        ))
unfolding le dispatch_payload unarchive_items
decode_non_blocking-encode_example =
    decode_non_blocking-encode unarchive 7 0 3 true 2 call arguments (9 ∷ [])
      {items = object call ∷ []} numbers-IsHeader arguments-IsWritable (omega arith) refl

decode_auxiliary_total_example :
    (ps : List PrimitiveKeyValuePair) × (decode_auxiliary
        (le 4 10 ++ (le 4 3 ++ (le 4 6 ++ (1 ∷ []))))
      ≡ ok (of_pairs ps))
unfolding le
decode_auxiliary_total_example =
    decode_auxiliary_total (le 4 10 ++ (le 4 3 ++ (le 4 6 ++ (1 ∷ [])))) (omega arith)

abbrev sixteen : Bytes
sixteen =
    0 ∷ (0 ∷ (0 ∷ (0 ∷ (0 ∷ (0 ∷ (0 ∷ (0 ∷ (0 ∷ (0 ∷ (0 ∷ (0 ∷ (0 ∷ (0 ∷ (0 ∷ (0 ∷ [])))))))))))))))

decode_non_blocking_panics_example :
    decode_non_blocking unarchive
      (header_bytes 2 7 0 3 true ++ (any_payload_header 2 1 1 0 ++ sixteen))
    ≡ err slice_panicked
decode_non_blocking_panics_example =
    decode_non_blocking_panics unarchive 2 7 0 3 true 2 1 1 0 sixteen numbers-IsHeader (omega arith)
      (omega arith) (omega arith)

-- a message of two chunks behind a first fragment
abbrev chunks : List Bytes
chunks = (1 ∷ (2 ∷ [])) ∷ ((3 ∷ []) ∷ [])

abbrev first : Message Bytes
first = record empty_message {
  fragments = 3;
  message_length = 3;
  identifier = 7;
  fragment_bytes = first_fragment_bytes 3 3 7 0 3 false;
}

abbrev part : ℕ → Bytes → Message Bytes
part j b = record empty_message {
  fragments = 3;
  fragment_index = j;
  identifier = 7;
  fragment_bytes = b;
}

first-IsCut : IsCut first chunks 7 0 3 false
first-IsCut = record {
  is_first = unfold is_first_fragment in refl;
  counted = refl;
  count_fits = omega arith;
  sized = refl;
  size_fits = omega arith;
  header = refl;
}

second-IsFragmentOf : IsFragmentOf first chunks (part 1 (1 ∷ (2 ∷ [])))
second-IsFragmentOf = record {
  same_message = refl;
  same_count = refl;
  behind_first = omega arith;
  carries = refl;
}

third-IsFragmentOf : IsFragmentOf first chunks (part 2 (3 ∷ []))
third-IsFragmentOf = record {
  same_message = refl;
  same_count = refl;
  behind_first = omega arith;
  carries = refl;
}

-- the third fragment before the second, and twice
abbrev arrivals : List (Message Bytes)
arrivals = part 2 (3 ∷ []) ∷ (part 2 (3 ∷ []) ∷ (part 1 (1 ∷ (2 ∷ [])) ∷ []))

arrivals-AllArrive : AllArrive chunks arrivals
arrivals-AllArrive zero h = inr (inr (inl refl))
arrivals-AllArrive (suc zero) h = inl refl
arrivals-AllArrive (suc (suc j)) h = absurd (omega arith)

extract-add_all_example :
    (f : FragmentDecoder Bytes) × (new_fragment_decoder first ≡ some f)
    × (has_finished (add_all f arrivals) ≡ true)
    × (extract (add_all f arrivals) ≡ ok (header_bytes 3 7 0 3 false ++ join chunks))
extract-add_all_example =
    extract-add_all first chunks 7 0 3 false first-IsCut arrivals
      (third-IsFragmentOf, (third-IsFragmentOf, (second-IsFragmentOf, tt))) arrivals-AllArrive
