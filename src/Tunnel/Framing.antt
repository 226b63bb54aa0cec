-- ===== src/Tunnel/Framing.antt =====
-- ios/tunnel/framing.go: the reader that cuts a stream into IPv6 packets. It is the list of the bytes
-- that it still delivers, whatever pieces they arrive in; a read into a buffer of `n` bytes leaves the
-- rest of them, and gives the packet that it put into the buffer.
pub mod Packets
use go_ios.Common.{
  ℕ, ◌+◌, ◌-◌, ◌/◌, Bool, true, false, not, List, [], ◌∷◌, ◌++◌, length, take, drop, ltb, ◌==◌,
  if◌then◌else◌,
}
use go_ios.Common.Bytes.{Bytes, un_be}
use go_ios.Common.Result.{Result, ok, err}

pub data FramingError : Type 0 where
  small_buffer short_header not_ipv6 exceeds_buffer short_payload : FramingError

abbrev pub ipv6_header_len : ℕ
ipv6_header_len = 40

-- `p[0]>>4`
unfoldable pub version : Bytes → ℕ
version [] = 0
version (b ∷ p) = b / 16

unfoldable pub payload_length : Bytes → ℕ
payload_length p = un_be (take 2 (drop 4 p))

-- behind the header
unfoldable pub read_payload : ℕ → Bytes → Bytes → Bytes × Result FramingError Bytes
read_payload n header s =
    if not (version header == 6)
    then (s, err not_ipv6)
    else if ltb n (ipv6_header_len + payload_length header)
    then (s, err exceeds_buffer)
    else if ltb (length s) (payload_length header)
    then ([], err short_payload)
    else (drop (payload_length header) s, ok (header ++ take (payload_length header) s))

unfoldable pub read : ℕ → Bytes → Bytes × Result FramingError Bytes
read n s =
    if ltb n ipv6_header_len
    then (s, err small_buffer)
    else if ltb (length s) ipv6_header_len
    then ([], err short_header)
    else read_payload n (take ipv6_header_len s) (drop ipv6_header_len s)
