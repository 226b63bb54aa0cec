-- ===== src/Syslog/Vis.antt =====
-- ios/syslog/vis.go: `DecodeVis` on the bytes of a line.
pub mod Bits
pub mod RoundTrip
pub mod Safe
use go_ios.Common.{
  ℕ, zero, suc, ◌+◌, ◌-◌, ◌*◌, ◌%◌, Bool, true, false, not, ◌&&◌, ◌||◌, [], ◌∷◌, length, ltb, ◌==◌,
  if◌then◌else◌, bit_or, between,
}
use Prim.Native.Nat.{bit_xor}
use go_ios.Common.Bytes.{Bytes}

abbrev pub backslash : ℕ
backslash = 92

unfoldable pub is_graph : ℕ → Bool
is_graph c = ltb 32 c && ltb c 127

unfoldable pub is_meta_ctrl : ℕ → Bool
is_meta_ctrl c = between 64 95 c || c == 63

unfoldable pub is_octal : ℕ → Bool
is_octal c = between 48 55 c

unfoldable pub octal_value : ℕ → ℕ → ℕ → ℕ
octal_value a b c = (a - 48) * 64 + (b - 48) * 8 + (c - 48)

unfoldable pub decodable_octal : ℕ → Bool
decodable_octal v = between 128 255 v || (not (ltb v 32) && ltb v 127)

-- The last two cases of the switch.
unfoldable pub escaped_backslash : Bytes → ℕ × Bytes
escaped_backslash [] = (backslash, [])
escaped_backslash (c ∷ s) = if c == backslash then (backslash, s) else (backslash, c ∷ s)

-- The switch on what follows a backslash: the byte that is written, and what is left.
unfoldable pub escape : Bytes → ℕ × Bytes
escape (a ∷ (b ∷ (c ∷ s))) =
    if a == b'M' && b == b'-' && is_graph c
    then (bit_or c 128, s)
    else if a == b'M' && b == b'^' && is_meta_ctrl c
    then (bit_or (bit_xor c 64) 128, s)
    else if is_octal a && is_octal b && is_octal c && decodable_octal (octal_value a b c)
    then (octal_value a b c % 256, s)
    else escaped_backslash (a ∷ (b ∷ (c ∷ s)))
escape s = escaped_backslash s

unfoldable pub step : ℕ → Bytes → ℕ × Bytes
step c s = if c == backslash then escape s else (c, s)

-- Each round takes one byte at least.
unfoldable pub decode_bytes : ℕ → Bytes → Bytes
decode_bytes zero s = []
decode_bytes (suc fuel) [] = []
decode_bytes (suc fuel) (c ∷ s) = let p = step c s in p.0 ∷ decode_bytes fuel p.1

unfoldable pub has_backslash : Bytes → Bool
has_backslash [] = false
has_backslash (c ∷ s) = c == backslash || has_backslash s

unfoldable pub decode_vis : Bytes → Bytes
decode_vis s = if has_backslash s then decode_bytes (length s) s else s
