-- ===== src/Common/Keyed.antt =====
-- Lists of entries in which each key stands once, as in a Go map.
use mathlib.Core.Path.{◌≡◌, refl, sym, ap, ◌∙◌}
use mathlib.Core.Logic.{◌⊎◌, inl, inr}
use mathlib.Core.Bool.{false}
use mathlib.Core.Option.{none, some}
use mathlib.Core.List.{List, [], ◌∷◌}
use native.Mathlib.Omega.{arith}
use go_ios.Common.Tests.{Bool-cases}
use go_ios.Common.Lists.{All}
use go_ios.Common.Maps.{Eq, lookup, insert, delete, lookup-insert, lookup-delete, same_refl}

abbrev pub Member : {A : Type 0} → A → List A → Type 0
Member a [] = ⊥
Member a (x ∷ xs) = (a ≡ x) ⊎ Member a xs

module _ {ℓ κ} {K : Type ℓ} {V : Type κ} ⦃e : Eq K⦄ where
  abbrev pub Keyed : List (K × V) → Type κ
  Keyed [] = Unit {κ}
  Keyed ((k, v) ∷ m) = (lookup k m ≡ none) × Keyed m

module _ {ℓ κ} {K : Type ℓ} {V : Type κ} ⦃e : Eq K⦄ where
  pub insert-Keyed : (k : K) (v : V) (m : List (K × V)) → Keyed m → Keyed (insert k v m)
  unfolding insert lookup
  insert-Keyed k v [] h = (refl, tt)
  insert-Keyed k v ((j, w) ∷ m) h = elim (Bool-cases (e.same j k)) [
    | inl s ↦ rw s (ap (λ i. lookup i m) (sym ((e.same_iff j k).0 s)) ∙ h.0, h.1)
    | inr s ↦ rw s (lookup-insert k j v m ∙ rw (not_same j k s) h.0, insert-Keyed k v m h.1)
  ]
    where
      not_same : (a b : K) → e.same a b ≡ false → e.same b a ≡ false
      not_same a b s = ground (arith, e.same_iff a b, e.same_iff b a)

  pub delete-Keyed : (k : K) (m : List (K × V)) → Keyed m → Keyed (delete k m)
  unfolding delete
  delete-Keyed k [] h = tt
  delete-Keyed k ((j, w) ∷ m) h = elim (Bool-cases (e.same j k)) [
    | inl s ↦ rw s (delete-Keyed k m h.1)
    | inr s ↦ rw s (lookup-delete k j m ∙ ground (arith, h.0), delete-Keyed k m h.1)
  ]

  pub entries_within :
      (m whole : List (K × V))
      → Keyed m
      → ((k : K) (v : V) → lookup k m ≡ some v → lookup k whole ≡ some v)
      → All (λ (p : K × V). lookup p.0 whole ≡ some p.1) m
  unfolding lookup
  entries_within [] whole h within = tt
  entries_within ((k, v) ∷ m) whole h within = (
    within k v (rw (same_refl k) refl),
    entries_within m whole h.1 (λ j w found. within j w (elim (Bool-cases (e.same k j)) [
      | inl s ↦ cc (h.0, (e.same_iff k j).0 s)
      | inr s ↦ rw s found
    ])),
  )

  -- Each entry is what the map has under its key.
  pub entries : (m : List (K × V)) → Keyed m → All (λ (p : K × V). lookup p.0 m ≡ some p.1) m
  entries m h = entries_within m m h (λ k v found. found)
