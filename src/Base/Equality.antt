-- ===== src/Base/Equality.antt =====
-- Equality tests (`PartialEq`) as an instance argument.
use text.Mathlib.Text.{◌==◌ as str_eq}
use text.Mathlib.TextEquality.{eq_iff}
use Prim.Native.Nat.{ℕ}
use Prim.Native.String.{String}
use mathlib.Core.Path.{◌≡◌, refl, ap}
use mathlib.Core.Logic.{◌↔◌}
use mathlib.Core.Bool.{Bool, true, false, ◌&&◌, ◌||◌}
use mathlib.Core.Option.{Option, none, some}
use mathlib.Core.List.{List, [], ◌∷◌}
use native.Mathlib.Omega.{arith}
use keynoxis.Base.Tests.{nat_eq, nat_eq_iff}

pub record Eq {ℓ} (A : Type ℓ) : Type ℓ where
  pub test : A → A → Bool
  pub test_iff : (x y : A) → (test x y ≡ true) ↔ (x ≡ y)

infix 50 ◌==◌
abbrev pub ◌==◌ {ℓ} : {A : Type ℓ} ⦃e : Eq A⦄ → A → A → Bool
◌==◌ ⦃e⦄ = e.test

instance abbrev pub Nat_eq : Eq ℕ
Nat_eq = record { test = nat_eq; test_iff = nat_eq_iff }

instance abbrev pub String_eq : Eq String
String_eq = record { test = str_eq; test_iff = eq_iff }

module _ {ℓ} {A : Type ℓ} ⦃e : Eq A⦄ where
  abbrev pub list_eq : List A → List A → Bool
  list_eq [] [] = true
  list_eq (x ∷ xs) (y ∷ ys) = e.test x y && list_eq xs ys
  list_eq _ _ = false

  pub list_eq_iff : (a b : List A) → (list_eq a b ≡ true) ↔ (a ≡ b)
  list_eq_iff [] [] = ground arith
  list_eq_iff (x ∷ xs) (y ∷ ys) = ground (arith, e.test_iff x y, list_eq_iff xs ys)
  list_eq_iff [] (y ∷ ys) = ground arith
  list_eq_iff (x ∷ xs) [] = ground arith

  abbrev pub option_eq : Option A → Option A → Bool
  option_eq none none = true
  option_eq (some x) (some y) = e.test x y
  option_eq _ _ = false

  pub option_eq_iff : (a b : Option A) → (option_eq a b ≡ true) ↔ (a ≡ b)
  option_eq_iff none none = ground arith
  option_eq_iff (some x) (some y) = ground (arith, e.test_iff x y)
  option_eq_iff none (some y) = ground arith
  option_eq_iff (some x) none = ground arith

  instance abbrev pub List_eq : Eq (List A)
  List_eq = record { test = list_eq; test_iff = list_eq_iff }

  instance abbrev pub Option_eq : Eq (Option A)
  Option_eq = record { test = option_eq; test_iff = option_eq_iff }

  abbrev pub contains : List A → A → Bool
  contains [] a = false
  contains (x ∷ xs) a = e.test x a || contains xs a

  pub eq_self : (a : A) → e.test a a ≡ true
  eq_self a = (e.test_iff a a).1 refl

  -- Equal values test alike, on either side.
  pub eq_left : (a b c : A) → e.test a b ≡ true → e.test a c ≡ e.test b c
  eq_left a b c h = ap (λ x. e.test x c) ((e.test_iff a b).0 h)

  pub eq_right : (a b c : A) → e.test b c ≡ true → e.test a b ≡ e.test a c
  eq_right a b c h = ap (e.test a) ((e.test_iff b c).0 h)
