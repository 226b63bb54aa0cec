-- ===== src/Tests/Plist.antt =====
-- The framed plists of ios/plistcodec.go and the dictionaries of ios/opack/opack.go at concrete inputs.
use go_ios.Common.{◌≡◌, refl, List, [], ◌∷◌, ◌++◌, arith, Option, some}
use go_ios.Common.Bytes.{Bytes}
use go_ios.Common.Result.{ok}
use go_ios.PlistCodec.Stream.{AreParsed, write_all, read_many, read_many-write_all}
use go_ios.Opack.{Value, text, binary, encode}
use go_ios.Opack.Identifiers.{AreShort, IsShort, read_dict}
use go_ios.Opack.Read.{read_dict-encode}

-- a printer and a parser of the identity
abbrev plist : Bytes → Option Bytes
plist s = some s

read_many-write_all_example :
    read_many plist 2 (write_all (λ m. m) [] ((1 ∷ []) ∷ ((2 ∷ []) ∷ [])) ++ (9 ∷ []))
    ≡ ok ((1 ∷ []) ∷ ((2 ∷ []) ∷ []), 9 ∷ [])
unfolding AreParsed
read_many-write_all_example =
    read_many-write_all (λ m. m) plist ((1 ∷ []) ∷ ((2 ∷ []) ∷ [])) ((1 ∷ []) ∷ ((2 ∷ []) ∷ []))
      (9 ∷ []) (omega arith, refl, (omega arith, refl, tt))

abbrev device : List (Bytes × Value)
device = (b'i' ∷ (b'd' ∷ []), binary (1 ∷ (2 ∷ (3 ∷ [])))) ∷ ((b'n' ∷ [], text (b'x' ∷ [])) ∷ [])

device-AreShort : AreShort device
unfolding AreShort IsShort
device-AreShort = (omega arith, omega arith, (omega arith, omega arith, tt))

read_dict-encode_example :
    (b : Bytes) × (encode device ≡ ok b) × (read_dict (b ++ (9 ∷ [])) ≡ some (device, 9 ∷ []))
read_dict-encode_example = read_dict-encode device (9 ∷ []) (omega arith) device-AreShort
