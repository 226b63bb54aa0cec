-- ===== src/PlistCodec.antt =====
-- ios/plistcodec.go: plists behind their length in four bytes. `to_plist` is the plist library's
-- printer behind `ToPlist`, and `unmarshal` its parser.
pub mod Stream
use go_ios.Common.{
  ℕ, ◌+◌, ◌*◌, ◌%◌, ◌^◌, Bool, Option, none, some, List, [], ◌∷◌, ◌++◌, length, ltb,
}
use go_ios.Common.Bytes.{Bytes, be, un_be}
use go_ios.Common.Buffer.{split?}
use go_ios.Common.Result.{Result, ok, err, reject, need, ◌>>=◌, ◌>>◌}

abbrev pub max_message_size : ℕ
max_message_size = 2 ^ 24

pub data PlistError : Type 0 where
  short_length too_large short_payload bad_plist : PlistError

module _ {M : Type 0} (to_plist : M → Bytes) where
  -- The length is a `uint32`.
  unfoldable pub encode : M → Bytes
  encode m = be 4 (length (to_plist m) % 2 ^ 32) ++ to_plist m

  -- What the writer has got, which takes every byte that it is given.
  unfoldable pub write : Bytes → M → Bytes
  write w m = w ++ encode m

-- The payload, and what the reader still delivers.
unfoldable pub decode : Bytes → Result PlistError (Bytes × Bytes)
decode r = do
  (buf, r1) ← need short_length (split? 4 r)
  reject (ltb max_message_size (un_be buf)) too_large
  need short_payload (split? (un_be buf) r1)

unfoldable pub read : {V : Type 0} → (Bytes → Option V) → Bytes → Result PlistError (V × Bytes)
read unmarshal r = do
  (payload, rest) ← decode r
  v ← need bad_plist (unmarshal payload)
  ok (v, rest)
