-- ===== src/Syslog/Vis/RoundTrip.antt =====
-- `DecodeVis` against the escapes that its comment lists.
use go_ios.Common.{
  ℕ, zero, suc, ◌+◌, ◌/◌, ◌%◌, ◌<◌, ◌≤◌, ◌≡◌, ◌≢◌, refl, sym, ap, ◌∙◌, Bool, true, false, ◌⊎◌, inl,
  inr, ◌||◌, ◌&&◌, [], ◌∷◌, ◌++◌, arith, length, length-append, ◌==◌, ne→==_false, Bool-cases,
  bit_or,
}
use Prim.Native.Nat.{bit_xor}
use go_ios.Common.Bytes.{Bytes}
use go_ios.Syslog.Vis.{
  backslash, is_graph, is_meta_ctrl, is_octal, octal_value, decodable_octal, escaped_backslash,
  escape, step, decode_bytes, has_backslash, decode_vis,
}
use go_ios.Syslog.Vis.Bits.{set_high, control_high}

-- What the comment of `DecodeVis` lists for a byte, and the byte itself where it is no backslash:
-- `\M-x` and `\M^X` for the bytes from 128 on, `\ddd` with three octal digits for the bytes from
-- 128 on and those of printing ASCII, a backslash among them, and two backslashes for one.
pub data Spells : ℕ → Bytes → Type 0 where
  plain : (b : ℕ) → b ≢ backslash → Spells b (b ∷ [])
  meta : (x : ℕ) → 32 < x → x < 127 → Spells (128 + x) (backslash ∷ (b'M' ∷ (b'-' ∷ (x ∷ []))))
  meta_control : (x : ℕ) → x < 32 → Spells (128 + x) (backslash ∷ (b'M' ∷ (b'^' ∷ ((64 + x) ∷ []))))
  meta_delete : Spells 255 (backslash ∷ (b'M' ∷ (b'^' ∷ (b'?' ∷ []))))
  octal :
      (b : ℕ)
      → (32 ≤ b × b < 127) ⊎ (128 ≤ b × b < 256)
      → Spells b (backslash ∷ ((b'0' + b / 64) ∷ ((b'0' + b / 8 % 8) ∷ ((b'0' + b % 8) ∷ []))))
  doubled : Spells backslash (backslash ∷ (backslash ∷ []))

-- `Spelt s v`: the line `v` spells the bytes `s`, one after the other.
pub data Spelt : Bytes → Bytes → Type 0 where
  nothing : Spelt [] []
  then_spelt : (b : ℕ) (v : Bytes) (s t : Bytes) → Spells b v → Spelt s t → Spelt (b ∷ s) (v ++ t)

-- One round reads the escape of one byte.
abbrev Steps : ℕ → Bytes → Type 0
Steps b v = (s : Bytes) → (c : ℕ) × (r : Bytes) × (v ++ s ≡ c ∷ r) × (step c r ≡ (b, s))

escape_double : (s : Bytes) → escape (backslash ∷ s) ≡ (backslash, s)
unfolding escape escaped_backslash is_octal
escape_double [] = refl
escape_double (a ∷ []) = refl
escape_double (a ∷ (b ∷ s)) = refl

escape_meta :
    (c : ℕ) (s : Bytes) → is_graph c ≡ true → escape (b'M' ∷ (b'-' ∷ (c ∷ s))) ≡ (bit_or c 128, s)
unfolding escape
escape_meta c s h = rw (h)

escape_control :
    (c : ℕ) (s : Bytes)
    → is_meta_ctrl c ≡ true
    → escape (b'M' ∷ (b'^' ∷ (c ∷ s))) ≡ (bit_or (bit_xor c 64) 128, s)
unfolding escape
escape_control c s h = rw (h)

graphic : (x : ℕ) → 32 < x → x < 127 → is_graph x ≡ true
unfolding is_graph
graphic x l u = ground arith

control_payload : (x : ℕ) → x < 32 → is_meta_ctrl (64 + x) ≡ true
unfolding is_meta_ctrl
control_payload x u = ground arith

octal_digits :
    (b : ℕ)
    → b < 256
    → (is_octal (b'0' + b / 64) && is_octal (b'0' + b / 8 % 8) && is_octal (b'0' + b % 8)) ≡ true
unfolding is_octal
octal_digits b h = ground arith

octal_value-digits :
    (b : ℕ) → b < 256 → octal_value (b'0' + b / 64) (b'0' + b / 8 % 8) (b'0' + b % 8) ≡ b
unfolding octal_value
octal_value-digits b h = omega arith

decodable :
    (b : ℕ) → (32 ≤ b × b < 127) ⊎ (128 ≤ b × b < 256) → (b < 256) × (decodable_octal b ≡ true)
unfolding decodable_octal
decodable b (inl h) = (omega arith, ground arith)
decodable b (inr h) = (omega arith, ground arith)

escape_octal :
    (b : ℕ) (s : Bytes)
    → (32 ≤ b × b < 127) ⊎ (128 ≤ b × b < 256)
    → escape ((b'0' + b / 64) ∷ ((b'0' + b / 8 % 8) ∷ ((b'0' + b % 8) ∷ s))) ≡ (b, s)
unfolding escape
escape_octal b s h =
    let (small, ok) = decodable b h in
    let no_meta : ((b'0' + b / 64) == b'M') ≡ false = ground arith in
    let whole : b % 256 ≡ b = omega arith in
    rw (no_meta, octal_digits b small, octal_value-digits b small, ok, whole) refl

-- One round reads the spelling of one byte.
Spells-Steps : (b : ℕ) (v : Bytes) → Spells b v → Steps b v
unfolding step
Spells-Steps b v (plain _ n) s = (b, s, refl, rw (ne→==_false b backslash n))
Spells-Steps b v (meta x l u) s = (
  backslash,
  b'M' ∷ (b'-' ∷ (x ∷ s)),
  refl,
  escape_meta x s (graphic x l u) ∙ ap (λ c. (c, s)) (set_high x (omega arith) ∙ omega arith),
)
Spells-Steps b v (meta_control x u) s = (
  backslash,
  b'M' ∷ (b'^' ∷ ((64 + x) ∷ s)),
  refl,
  escape_control (64 + x) s (control_payload x u) ∙ ap (λ c. (c, s)) (control_high x u),
)
Spells-Steps b v meta_delete s = (
  backslash,
  b'M' ∷ (b'^' ∷ (b'?' ∷ s)),
  refl,
  escape_control b'?' s (unfold is_meta_ctrl in refl),
)
Spells-Steps b v (octal _ h) s = (backslash, _, refl, escape_octal b s h)
Spells-Steps b v doubled s = (backslash, backslash ∷ s, refl, escape_double s)

length-Spells : (b : ℕ) (v : Bytes) → Spells b v → 0 < length v
length-Spells b v (plain _ n) = omega arith
length-Spells b v (meta x l u) = omega arith
length-Spells b v (meta_control x u) = omega arith
length-Spells b v meta_delete = omega arith
length-Spells b v (octal _ h) = omega arith
length-Spells b v doubled = omega arith

decode_bytes-step :
    (f c b : ℕ) (v r s t : Bytes)
    → v ≡ c ∷ r
    → step c r ≡ (b, s)
    → decode_bytes f s ≡ t
    → decode_bytes (suc f) v ≡ b ∷ t
unfolding decode_bytes
decode_bytes-step f c b v r s t e st h = rw (e, st, h)

decode_bytes-Spelt : (s t : Bytes) (f : ℕ) → Spelt s t → length t ≤ f → decode_bytes f t ≡ s
decode_bytes-Spelt s t zero nothing g = unfold decode_bytes in refl
decode_bytes-Spelt s t (suc f) nothing g = unfold decode_bytes in refl
decode_bytes-Spelt s t zero (then_spelt b v s' t' h r) g =
    absurd (omega (arith, length-Spells b v h, length-append v t'))
decode_bytes-Spelt s t (suc f) (then_spelt b v s' t' h r) g =
    let (c, k, e, st) = Spells-Steps b v h t' in
    decode_bytes-step f c b (v ++ t') k t' s' e st
      (decode_bytes-Spelt s' t' f r (omega (arith, length-Spells b v h, length-append v t')))

or-false-left : (a b : Bool) → (a || b) ≡ false → a ≡ false
or-false-left true b h = h
or-false-left false b h = refl

or-false-right : (a b : Bool) → (a || b) ≡ false → b ≡ false
or-false-right true b h = cc
or-false-right false b h = h

decode_bytes_plain :
    (s : Bytes) (f : ℕ) → has_backslash s ≡ false → length s ≤ f → decode_bytes f s ≡ s
unfolding decode_bytes has_backslash step
decode_bytes_plain [] zero h g = refl
decode_bytes_plain [] (suc f) h g = refl
decode_bytes_plain (c ∷ s) zero h g = absurd (omega arith)
decode_bytes_plain (c ∷ s) (suc f) h g = rw (
  or-false-left (c == backslash) (has_backslash s) h,
  decode_bytes_plain s f (or-false-right (c == backslash) (has_backslash s) h) (omega arith),
)

-- The shortcut for a line without a backslash gives what the loop gives on it.
pub decode_vis-decode_bytes : (s : Bytes) → decode_vis s ≡ decode_bytes (length s) s
unfolding decode_vis
decode_vis-decode_bytes s = elim (Bool-cases (has_backslash s)) [
  | inl e ↦ rw (e)
  | inr e ↦ rw (e) (sym (decode_bytes_plain s (length s) e (omega arith)))
]

-- A line that spells bytes, each by itself where it is no backslash or by any of the escapes that the
-- comment lists, is decoded to these bytes: `\M-x` and `\M^X` for a byte from 128 on, `\ddd` for a
-- byte of printing ASCII (`\134` for a backslash) or from 128 on (`\240` for 160), and two
-- backslashes for one.
pub decode_vis-Spelt : (s t : Bytes) → Spelt s t → decode_vis t ≡ s
decode_vis-Spelt s t h =
    decode_vis-decode_bytes t ∙ decode_bytes-Spelt s t (length t) h (omega arith)
