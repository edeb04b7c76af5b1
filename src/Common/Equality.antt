-- ===== src/Common/Equality.antt =====
-- Rust's `Eq`, as an instance argument: a test that decides equality.
use Prim.Native.Nat.{ℕ, compare, Ordering}
use mathlib.Core.Path.{◌≡◌, refl, ap₂}
use mathlib.Core.Logic.{◌≢◌, ◌↔◌, inl, inr}
use mathlib.Core.Bool.{Bool, true, false, ◌&&◌, ◌||◌, and-eq-true_iff}
use mathlib.Core.List.{List, [], ◌∷◌}
use native.Mathlib.Omega.{arith}
use tmux_rescue.Common.Tests.{Bool-cases}

pub record Eq {ℓ} (A : Type ℓ) : Type ℓ where
  pub test : A → A → Bool
  pub decides : (x y : A) → (test x y ≡ true) ↔ (x ≡ y)

infix 50 ◌==◌
-- `==` of any type that has it.
abbrev pub ◌==◌ {ℓ} : {T : Type ℓ} ⦃equality : Eq T⦄ → T → T → Bool
◌==◌ ⦃equality⦄ = equality.test

abbrev pub num_beq : ℕ → ℕ → Bool
num_beq a b = elim (compare a b) [ Ordering.eq ↦ true | _ ↦ false ]

pub num_beq_iff : (a b : ℕ) → (num_beq a b ≡ true) ↔ (a ≡ b)
num_beq_iff a b = ground arith

instance abbrev pub num_eq : Eq ℕ
num_eq = record { test = num_beq; decides = num_beq_iff }

module _ {ℓ} {A : Type ℓ} ⦃e : Eq A⦄ where
  pub ==_refl : (a : A) → (a == a) ≡ true
  ==_refl a = (e.decides a a).1 refl

  pub ==_ne : (a b : A) → (a == b) ≡ false → a ≢ b
  ==_ne a b h p = cc ((e.decides a b).1 p)

  pub ne_== : (a b : A) → a ≢ b → (a == b) ≡ false
  ne_== a b h = elim (Bool-cases (a == b)) [ inl p ↦ absurd (h ((e.decides a b).0 p)) | inr p ↦ p ]

  abbrev pub list_beq : List A → List A → Bool
  list_beq [] [] = true
  list_beq (x ∷ xs) (y ∷ ys) = x == y && list_beq xs ys
  list_beq _ _ = false

  pub list_beq_sound : (xs ys : List A) → list_beq xs ys ≡ true → xs ≡ ys
  list_beq_sound [] [] h = refl
  list_beq_sound (x ∷ xs) (y ∷ ys) h =
      let (p, q) = (and-eq-true_iff _ _).0 h in
      ap₂ ◌∷◌ ((e.decides x y).0 p) (list_beq_sound xs ys q)
  list_beq_sound [] (y ∷ ys) h = cc
  list_beq_sound (x ∷ xs) [] h = cc

  list_beq_refl : (xs : List A) → list_beq xs xs ≡ true
  list_beq_refl [] = refl
  list_beq_refl (x ∷ xs) = rw (==_refl x) (list_beq_refl xs)

  pub list_beq_complete : (xs ys : List A) → xs ≡ ys → list_beq xs ys ≡ true
  list_beq_complete xs ys p = rw (← p) (list_beq_refl xs)

  instance abbrev pub list_eq : Eq (List A)
  list_eq = record {
    test = list_beq;
    decides = λ xs ys. (list_beq_sound xs ys, list_beq_complete xs ys);
  }

  -- `HashSet::contains`, the set as the list of what was inserted.
  abbrev pub contains : List A → A → Bool
  contains [] a = false
  contains (x ∷ xs) a = a == x || contains xs a

  -- No element of the second list is in the first, or equal to an earlier one.
  abbrev pub IsNew : List A → List A → Type 0
  IsNew seen [] = Unit
  IsNew seen (x ∷ xs) = (contains seen x ≡ false) × IsNew (x ∷ seen) xs

  -- No element is equal to an earlier one.
  abbrev pub IsDistinct : List A → Type 0
  IsDistinct xs = IsNew [] xs
