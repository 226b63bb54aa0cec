-- ===== src/Syslog/Vis/Safe.antt =====
-- What `DecodeVis` can write to a terminal.
use go_ios.Common.{
  ℕ, zero, suc, ◌%◌, ◌≤◌, ◌≡◌, ◌≢◌, true, inl, inr, ◌&&◌, [], ◌∷◌, arith, length, All, ◌==◌,
  Bool-cases, bit_or,
}
use Prim.Native.Nat.{bit_xor}
use go_ios.Common.Bytes.{Bytes}
use go_ios.Syslog.Vis.{
  backslash, is_graph, is_meta_ctrl, is_octal, octal_value, decodable_octal, escaped_backslash,
  escape, step, decode_bytes, decode_vis,
}
use go_ios.Common.Tables.{and-right}
use go_ios.Syslog.Vis.Bits.{set_high, meta_control}
use go_ios.Syslog.Vis.RoundTrip.{decode_vis-decode_bytes}

-- Neither a byte below the space nor the byte 127.
abbrev pub IsPrinting : ℕ → Type 0
IsPrinting c = (32 ≤ c) × (c ≢ 127)

abbrev ArePrinting : ℕ × Bytes → Type 0
ArePrinting p = IsPrinting p.0 × All IsPrinting p.1

escaped_backslash-ArePrinting : (s : Bytes) → All IsPrinting s → ArePrinting (escaped_backslash s)
unfolding escaped_backslash
escaped_backslash-ArePrinting [] h = (omega arith, tt)
escaped_backslash-ArePrinting (c ∷ s) h = elim (Bool-cases (c == backslash)) [
  | inl e ↦ rw (e) (omega arith, h.1)
  | inr e ↦ rw (e) (omega arith, h)
]

graph_high : (c : ℕ) → is_graph c ≡ true → IsPrinting (bit_or c 128)
unfolding is_graph
graph_high c h = let e = set_high c (ground arith) in rw (e) (omega arith)

meta_high : (c : ℕ) → is_meta_ctrl c ≡ true → IsPrinting (bit_or (bit_xor c 64) 128)
unfolding is_meta_ctrl
meta_high c h = let e = meta_control c (ground arith) in omega arith

octal_byte : (v : ℕ) → decodable_octal v ≡ true → IsPrinting (v % 256)
unfolding decodable_octal
octal_byte v h = ground arith

escape-ArePrinting : (s : Bytes) → All IsPrinting s → ArePrinting (escape s)
unfolding escape
escape-ArePrinting (a ∷ (b ∷ (c ∷ s))) h =
    elim (Bool-cases (a == b'M' && b == b'-' && is_graph c)) [
      | inl e ↦ rw (e) (graph_high c (and-right (a == b'M' && b == b'-') (is_graph c) e), h.1.1.1)
      | inr e ↦ elim (Bool-cases (a == b'M' && b == b'^' && is_meta_ctrl c)) [
        | inl f ↦
            rw (e, f) (meta_high c (and-right (a == b'M' && b == b'^') (is_meta_ctrl c) f), h.1.1.1)
        | inr f ↦
            elim (Bool-cases
              (is_octal a && is_octal b && is_octal c && decodable_octal (octal_value a b c))) [
                | inl g ↦
                    rw (e, f, g)
                      (
                        octal_byte (octal_value a b c) (
                            and-right (is_octal a && is_octal b && is_octal c)
                              (decodable_octal (octal_value a b c)) g),
                        h.1.1.1,
                      )
                | inr g ↦ rw (e, f, g) (escaped_backslash-ArePrinting (a ∷ (b ∷ (c ∷ s))) h)
              ]
      ]
    ]
escape-ArePrinting s h = escaped_backslash-ArePrinting s h

step-ArePrinting : (c : ℕ) (s : Bytes) → IsPrinting c → All IsPrinting s → ArePrinting (step c s)
unfolding step
step-ArePrinting c s hc h = elim (Bool-cases (c == backslash)) [
  | inl e ↦ rw (e) (escape-ArePrinting s h)
  | inr e ↦ rw (e) (hc, h)
]

decode_bytes-All : (f : ℕ) (s : Bytes) → All IsPrinting s → All IsPrinting (decode_bytes f s)
unfolding decode_bytes
decode_bytes-All zero s h = tt
decode_bytes-All (suc f) [] h = tt
decode_bytes-All (suc f) (c ∷ s) h =
    let p = step-ArePrinting c s h.0 h.1 in (p.0, decode_bytes-All f (step c s).1 p.1)

-- A line without bytes below the space and without the byte 127 is decoded to such a line: decoding
-- never brings a control byte back.
pub decode_vis-IsPrinting : (s : Bytes) → All IsPrinting s → All IsPrinting (decode_vis s)
decode_vis-IsPrinting s h = rw (decode_vis-decode_bytes s) (decode_bytes-All (length s) s h)
