-- ===== src/Base/Eq.antt =====
-- Rust's `==` as an interface, with the types that the program compares.
use Prim.Native.Nat.{ℕ}
use Prim.Native.String.{String}
use mathlib.Core.Path.{◌≡◌, refl}
use mathlib.Core.Logic.{◌↔◌}
use mathlib.Core.Bool.{Bool, true, false, ◌&&◌, ◌||◌}
use mathlib.Core.List.{List, [], ◌∷◌}
use native.Mathlib.Omega.{arith}
use text.Mathlib.Text.{◌==◌ as str_eq}
use text.Mathlib.TextEquality.{eq_iff}
use leviso.Base.Tests.{eqb, eqb_iff}

pub record PartialEq {ℓ} (T : Type ℓ) : Type ℓ where
  pub same : T → T → Bool
  pub same_iff : (x y : T) → (same x y ≡ true) ↔ (x ≡ y)

-- `str` and `u32`
instance abbrev pub string_eq : PartialEq String
string_eq = record { same_iff = eq_iff; same = str_eq }

instance abbrev pub nat_eq : PartialEq ℕ
nat_eq = record { same_iff = eqb_iff; same = eqb }

infix 50 ◌==◌
abbrev pub ◌==◌ {ℓ} : {T : Type ℓ} ⦃t : PartialEq T⦄ → T → T → Bool
◌==◌ ⦃t⦄ = t.same

module _ {ℓ} {A : Type ℓ} ⦃t : PartialEq A⦄ where
  abbrev pub list_same : List A → List A → Bool
  list_same [] [] = true
  list_same [] (y ∷ ys) = false
  list_same (x ∷ xs) [] = false
  list_same (x ∷ xs) (y ∷ ys) = x == y && list_same xs ys

  pub list_same_iff : (xs ys : List A) → (list_same xs ys ≡ true) ↔ (xs ≡ ys)
  list_same_iff [] [] = (λ h. refl, λ h. refl)
  list_same_iff [] (y ∷ ys) = (λ h. cc, λ h. cc)
  list_same_iff (x ∷ xs) [] = (λ h. cc, λ h. cc)
  list_same_iff (x ∷ xs) (y ∷ ys) = ground (arith, t.same_iff x y, list_same_iff xs ys)

  instance abbrev pub list_eq : PartialEq (List A)
  list_eq = record { same = list_same; same_iff = list_same_iff }

  -- `<[T]>::contains`
  abbrev pub contains : List A → A → Bool
  contains [] y = false
  contains (z ∷ zs) y = z == y || contains zs y
