-- ===== src/Common/Lists.antt =====
-- Lists measured by native numbers, and predicates over them.
use Prim.Native.Nat.{ℕ, zero, suc, ◌+◌, ◌-◌}
use mathlib.Core.Path.{◌≡◌, refl, ap}
use mathlib.Core.Bool.{Bool, true, false, ◌&&◌, ◌||◌}
use mathlib.Core.Option.{Option, none, some}
use mathlib.Core.List.{List, [], ◌∷◌, ◌++◌, map}
use native.Mathlib.Nat.{zero-add, suc-add}
use native.Mathlib.Omega.{arith}

abbrev pub if_zero : ℕ → Bool
if_zero zero = true
if_zero (suc n) = false

module _ {ℓ} {A : Type ℓ} where
  abbrev pub length : List A → ℕ
  length [] = 0
  length (x ∷ xs) = suc (length xs)

  abbrev pub get_elem? : List A → ℕ → Option A
  get_elem? [] i = none
  get_elem? (x ∷ xs) zero = some x
  get_elem? (x ∷ xs) (suc i) = get_elem? xs i

  abbrev pub take : ℕ → List A → List A
  take zero xs = []
  take (suc n) [] = []
  take (suc n) (x ∷ xs) = x ∷ take n xs

  abbrev pub drop : ℕ → List A → List A
  drop zero xs = xs
  drop (suc n) [] = []
  drop (suc n) (x ∷ xs) = drop n xs

  -- `iter().any(…)`
  abbrev pub any : (A → Bool) → List A → Bool
  any p [] = false
  any p (x ∷ xs) = p x || any p xs

  -- `iter().all(…)`
  abbrev pub all : (A → Bool) → List A → Bool
  all p [] = true
  all p (x ∷ xs) = p x && all p xs

  abbrev pub is_empty : List A → Bool
  is_empty [] = true
  is_empty (x ∷ xs) = false

  abbrev pub reverse_onto : List A → List A → List A
  reverse_onto [] done = done
  reverse_onto (x ∷ xs) done = reverse_onto xs (x ∷ done)

  -- `iter().rev()`
  abbrev pub reverse : List A → List A
  reverse xs = reverse_onto xs []

  pub take-append-drop : (n : ℕ) (xs : List A) → take n xs ++ drop n xs ≡ xs
  take-append-drop zero xs = refl
  take-append-drop (suc n) [] = refl
  take-append-drop (suc n) (x ∷ xs) = rw (take-append-drop n xs)

  pub take-length : (xs : List A) → take (length xs) xs ≡ xs
  take-length [] = refl
  take-length (x ∷ xs) = rw (take-length xs)

  pub take-append : (xs ys : List A) (n : ℕ) → take (length xs + n) (xs ++ ys) ≡ xs ++ take n ys
  take-append [] ys n = rw zero-add
  take-append (x ∷ xs) ys n = rw (suc-add, take-append xs ys n)

  pub length-drop : (n : ℕ) (xs : List A) → length (drop n xs) ≡ length xs - n
  length-drop zero xs = omega arith
  length-drop (suc n) [] = omega arith
  length-drop (suc n) (x ∷ xs) = omega (arith, length-drop n xs)

  pub is_empty-length : (xs : List A) → is_empty xs ≡ (if_zero (length xs))
  is_empty-length [] = refl
  is_empty-length (x ∷ xs) = refl

  pub length-append : (xs ys : List A) → length (xs ++ ys) ≡ length xs + length ys
  length-append [] ys = omega arith
  length-append (x ∷ xs) ys = omega (arith, length-append xs ys)

module _ {ℓ κ} {A : Type ℓ} {B : Type κ} where
  pub length-map : (xs : List A) (f : A → B) → length (map f xs) ≡ length xs
  length-map [] f = refl
  length-map (x ∷ xs) f = ap suc (length-map xs f)

  pub is_empty-map : (xs : List A) (f : A → B) → is_empty (map f xs) ≡ is_empty xs
  is_empty-map [] f = refl
  is_empty-map (x ∷ xs) f = refl

module _ {ℓ κ} {A : Type ℓ} (P : A → Type κ) where
  abbrev pub All : List A → Type κ
  All [] = Unit
  All (x ∷ xs) = P x × All xs

  pub All-append : (xs ys : List A) → All xs → All ys → All (xs ++ ys)
  All-append [] ys h k = k
  All-append (x ∷ xs) ys (p, h) k = (p, All-append xs ys h k)

  -- Three parts of a list, the first `a` elements, those up to position `e`, and the rest.
  pub All-of_parts :
      (xs : List A) (a e : ℕ)
      → All (take a xs)
      → All (take (e - a) (drop a xs))
      → All (drop e xs)
      → All xs
  All-of_parts [] a e h k m = tt
  All-of_parts (x ∷ xs) zero zero h k m = m
  All-of_parts (x ∷ xs) zero (suc e) h k m =
      let whole : suc e - 0 ≡ suc e = omega arith in
      let same : e - 0 ≡ e = omega arith in
      let (p, later) = rw whole at k in (p, All-of_parts xs zero e tt (rw same later) m)
  All-of_parts (x ∷ xs) (suc a) zero h k m = m
  All-of_parts (x ∷ xs) (suc a) (suc e) (p, h) k m =
      let same : suc e - suc a ≡ e - a = omega arith in (p, All-of_parts xs a e h (rw same at k) m)

-- Two lists of one length whose elements are related, one by one and in order.
pub data Pairwise {ℓ} {A B : Type ℓ} (R : A → B → Type ℓ) : List A → List B → Type ℓ where
  none_left : Pairwise R [] []
  and_then :
      {a : A} {b : B} {xs : List A} {ys : List B}
      → R a b
      → Pairwise R xs ys
      → Pairwise R (a ∷ xs) (b ∷ ys)

pub Pairwise-append {ℓ} :
    {A B : Type ℓ} {R : A → B → Type ℓ} {xs₁ xs₂ : List A} {ys₁ ys₂ : List B}
    → Pairwise R xs₁ ys₁
    → Pairwise R xs₂ ys₂
    → Pairwise R (xs₁ ++ xs₂) (ys₁ ++ ys₂)
Pairwise-append none_left q = q
Pairwise-append (and_then r p) q = and_then r (Pairwise-append p q)
