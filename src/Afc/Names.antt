-- ===== src/Afc/Names.antt =====
-- Where the names lead that a client lists.
use go_ios.Common.{
  ◌≡◌, refl, sym, ◌∙◌, true, false, List, [], ◌∷◌, ◌++◌, append_assoc, All, Bool-cases, inl, inr,
  arith,
}
use go_ios.Common.Bytes.{Bytes}
use go_ios.Common.Text.{codes}
use go_ios.Common.Maps.{bytes_same}
use go_ios.Afc.{
  parts, fields, any_same, is_abs, dot_dot, unsafe_entry_name, is_listed, keep_listed, entries,
  but_last,
}

-- The directory that a path leads to from `dir`, as the file system resolves it: the directories are
-- listed from the deepest up, and the root is its own parent.
unfoldable pub walk : List Bytes → List Bytes → List Bytes
walk dir [] = dir
walk dir (f ∷ fs) = elim (bytes_same f dot_dot) [
  | true ↦ walk (elim dir [ [] ↦ [] | _ ∷ above ↦ above ]) fs
  | false ↦ elim (bytes_same f (codes ".")) [ true ↦ walk dir fs | false ↦ walk (f ∷ dir) fs ]
]

-- A name is relative, and leads from every directory to this one or into it.
pub record IsInside (name : Bytes) : Type 0 where
  pub relative : is_abs name ≡ false
  pub descends :
      (dir : List Bytes)
      → (below : List Bytes) × (walk dir (fields (parts b'/' name)) ≡ below ++ dir)

walk-descends :
    (fs dir : List Bytes)
    → any_same dot_dot fs ≡ false
    → (below : List Bytes) × (walk dir fs ≡ below ++ dir)
unfolding walk
walk-descends [] dir h = ([], refl)
walk-descends (f ∷ fs) dir h =
    let here : bytes_same f dot_dot ≡ false = ground arith in
    let rest : any_same dot_dot fs ≡ false = ground arith in
    elim (Bool-cases (bytes_same f (codes "."))) [
      | inl dot ↦ let (below, e) = walk-descends fs dir rest in (below, rw (walk, here, dot) e)
      | inr name ↦
          let (below, e) = walk-descends fs (f ∷ dir) rest in
          (below ++ (f ∷ []), rw (walk, here, name) (e ∙ sym (append_assoc below (f ∷ []) dir)))
    ]

safe-IsInside : (name : Bytes) → unsafe_entry_name name ≡ false → IsInside name
unfolding unsafe_entry_name
safe-IsInside [] h = cc
safe-IsInside (c ∷ s) h = record {
  relative = ground arith;
  descends = λ dir. walk-descends (fields (parts b'/' (c ∷ s))) dir (ground arith);
}

keep_listed-IsInside : (es : List Bytes) → All IsInside (keep_listed es)
unfolding keep_listed
keep_listed-IsInside [] = tt
keep_listed-IsInside (e ∷ es) = elim (Bool-cases (is_listed e)) [
  | inl kept ↦
      rw (keep_listed, kept)
        (safe-IsInside e (unfold is_listed in ground arith), keep_listed-IsInside es)
  | inr dropped ↦ rw (keep_listed, dropped) (keep_listed-IsInside es)
]

-- Whatever bytes the device sends as a listing, each name that is taken from them is relative and
-- leads from every directory to this one or into it, never above it.
pub entries-IsInside : (payload : Bytes) → All IsInside (entries payload)
unfolding entries
entries-IsInside payload = keep_listed-IsInside (but_last (parts 0 payload))
