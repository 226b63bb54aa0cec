-- ===== src/Common/Maps.antt =====
-- A Go map as the list of its entries, a key once at most.
use Prim.Native.Nat.{ℕ}
use mathlib.Core.Path.{◌≡◌, refl, sym, ap, ◌∙◌}
use mathlib.Core.Logic.{◌↔◌}
use mathlib.Core.Bool.{Bool, true, false, ◌&&◌}
use mathlib.Core.Option.{Option, none, some}
use mathlib.Core.List.{List, [], ◌∷◌}
use native.Mathlib.Omega.{arith}
use go_ios.Common.Tests.{◌==◌ as nat_same, ==_iff, if◌then◌else◌}
use go_ios.Common.Bytes.{Bytes}

pub record Eq {ℓ} (K : Type ℓ) : Type ℓ where
  pub same : K → K → Bool
  pub same_iff : (a b : K) → (same a b ≡ true) ↔ (a ≡ b)

abbrev pub bytes_same : Bytes → Bytes → Bool
bytes_same [] [] = true
bytes_same (x ∷ xs) (y ∷ ys) = nat_same x y && bytes_same xs ys
bytes_same _ _ = false

bytes_same_refl : (a : Bytes) → bytes_same a a ≡ true
bytes_same_refl [] = refl
bytes_same_refl (x ∷ xs) = ground (arith, (==_iff x x).1 refl, bytes_same_refl xs)

bytes_same-eq : (a b : Bytes) → bytes_same a b ≡ true → a ≡ b
bytes_same-eq [] [] h = refl
bytes_same-eq [] (y ∷ ys) h = cc
bytes_same-eq (x ∷ xs) [] h = cc
bytes_same-eq (x ∷ xs) (y ∷ ys) h = ground (arith, (==_iff x y).0, bytes_same-eq xs ys)

pub bytes_same_iff : (a b : Bytes) → (bytes_same a b ≡ true) ↔ (a ≡ b)
bytes_same_iff a b = (bytes_same-eq a b, λ e. ap (bytes_same a) (sym e) ∙ bytes_same_refl a)

instance abbrev pub ℕ_eq : Eq ℕ
ℕ_eq = record { same = nat_same; same_iff = ==_iff }

instance abbrev pub Bytes_eq : Eq Bytes
Bytes_eq = record { same = bytes_same; same_iff = bytes_same_iff }

module _ {ℓ κ} {K : Type ℓ} {V : Type κ} ⦃e : Eq K⦄ where
  unfoldable pub lookup : K → List (K × V) → Option V
  lookup k [] = none
  lookup k ((j, v) ∷ m) = if e.same j k then some v else lookup k m

  -- `m[k] = v`
  unfoldable pub insert : K → V → List (K × V) → List (K × V)
  insert k v [] = (k, v) ∷ []
  insert k v ((j, w) ∷ m) = if e.same j k then (k, v) ∷ m else (j, w) ∷ insert k v m

  -- `delete(m, k)`
  unfoldable pub delete : K → List (K × V) → List (K × V)
  delete k [] = []
  delete k ((j, w) ∷ m) = let rest = delete k m in if e.same j k then rest else (j, w) ∷ rest

module _ {ℓ κ} {K : Type ℓ} {V : Type κ} ⦃e : Eq K⦄ where
  pub lookup-insert :
      (k j : K) (v : V) (m : List (K × V))
      → lookup j (insert k v m) ≡ (if e.same k j then some v else lookup j m)
  unfolding lookup insert
  lookup-insert k j v [] = refl
  lookup-insert k j v ((i, w) ∷ m) =
      ground (arith, e.same_iff k j, e.same_iff i k, e.same_iff i j, lookup-insert k j v m)

  pub lookup-delete :
      (k j : K) (m : List (K × V))
      → lookup j (delete k m) ≡ (if e.same k j then none else lookup j m)
  unfolding lookup delete
  lookup-delete k j [] = ground arith
  lookup-delete k j ((i, w) ∷ m) =
      ground (arith, e.same_iff k j, e.same_iff i k, e.same_iff i j, lookup-delete k j m)

pub same_refl {ℓ} : {K : Type ℓ} ⦃e : Eq K⦄ (k : K) → e.same k k ≡ true
same_refl ⦃e⦄ k = (e.same_iff k k).1 refl
