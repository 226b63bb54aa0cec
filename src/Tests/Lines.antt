-- ===== src/Tests/Lines.antt =====
-- The records of ios/tunnel/tlv.go and the lines of ios/syslog/vis.go at concrete inputs.
use go_ios.Common.{ℕ, ◌≡◌, List, [], ◌∷◌, arith, All, inl, inr}
use go_ios.Common.Bytes.{Bytes}
use go_ios.Common.Text.{codes}
use go_ios.Syslog.Vis.{decode_vis}
use go_ios.Syslog.Vis.RoundTrip.{
  plain, meta, meta_control, octal, doubled, Spelt, nothing, then_spelt, decode_vis-Spelt,
}
use go_ios.Syslog.Vis.Safe.{IsPrinting, decode_vis-IsPrinting}

abbrev items : List (ℕ × Bytes)
items = (6, 1 ∷ []) ∷ ((3, 9 ∷ (8 ∷ [])) ∷ ((6, 2 ∷ []) ∷ []))

-- `\134`, a letter, `\240`, the escapes of a CJK character, and two backslashes
abbrev line : Bytes
line = codes "\\134x\\240\\M-f\\M^H\\M^V\\\\"

abbrev spelt : Bytes
spelt = 92 ∷ (b'x' ∷ (160 ∷ (230 ∷ (136 ∷ (150 ∷ (92 ∷ []))))))

line-Spelt : Spelt spelt line
line-Spelt = then_spelt _ _ _ _ (octal 92 (inl (omega arith, omega arith))) (
    then_spelt _ _ _ _ (plain b'x' (omega arith)) (
      then_spelt _ _ _ _ (octal 160 (inr (omega arith, omega arith))) (
        then_spelt _ _ _ _ (meta b'f' (omega arith) (omega arith)) (
          then_spelt _ _ _ _ (meta_control 8 (omega arith)) (
            then_spelt _ _ _ _ (meta_control 22 (omega arith))
              (then_spelt _ _ _ _ doubled nothing))))))

decode_vis-Spelt_example : decode_vis line ≡ spelt
decode_vis-Spelt_example = decode_vis-Spelt spelt line line-Spelt

decode_vis-IsPrinting_example : All IsPrinting (decode_vis (b'\\' ∷ (b'0' ∷ (b'3' ∷ (b'3' ∷ [])))))
decode_vis-IsPrinting_example =
    decode_vis-IsPrinting (b'\\' ∷ (b'0' ∷ (b'3' ∷ (b'3' ∷ []))))
      (omega arith, (omega arith, (omega arith, (omega arith, tt))))
