-- ===== src/Common/Results.antt =====
-- Rust's `Result`, with `?` as the bind of a `do` block.
use mathlib.Core.Path.{◌≡◌, refl}
use mathlib.Core.Bool.{Bool, true, false}
use tmux_rescue.Common.Tests.{if◌then◌else◌}
use mathlib.Core.Option.{some}
use mathlib.Core.Logic.{◌⊎◌, inl, inr}

pub data Result {ℓ} (E : Type ℓ) (A : Type ℓ) : Type ℓ where
  ok : A → Result E A
  err : E → Result E A

-- `?`: the rest of the body runs on a value, and an error is the body's result.
abbrev pub ◌>>=◌ {ℓ} : {E A B : Type ℓ} → Result E A → (A → Result E B) → Result E B
ok value >>= rest = rest value
err error >>= rest = err error

abbrev pub ◌>>◌ {ℓ} : {E A B : Type ℓ} → Result E A → Result E B → Result E B
first >> rest = first >>= λ _. rest

infixl 5 ◌>>=◌ ◌>>◌
-- A body that returned passed its first `?`, and the rest returned.
pub >>=-eq-ok {ℓ} :
    {E A B : Type ℓ} (first : Result E A) (rest : A → Result E B) {returned : B}
    → (first >>= rest) ≡ ok returned
    → (value : A) × (first ≡ ok value) × (rest value ≡ ok returned)
>>=-eq-ok (ok value) rest passed = (value, refl, passed)
>>=-eq-ok (err error) rest failed = cc

pub Result-cases {ℓ} :
    {E A : Type ℓ} (m : Result E A) → ((a : A) × (m ≡ ok a)) ⊎ ((e : E) × (m ≡ err e))
Result-cases (ok a) = inl (a, refl)
Result-cases (err e) = inr (e, refl)

pub ok-injective {ℓ} : {E A : Type ℓ} {a b : A} → ◌≡◌ {A = Result E A} (ok a) (ok b) → a ≡ b
ok-injective h = cc

-- A guard that was passed.
pub if-eq-ok {ℓ} :
    {E A : Type ℓ} (t : Bool) (m : Result E A) (e : E) {a : A}
    → (if t then m else err e) ≡ ok a
    → (t ≡ true) × (m ≡ ok a)
if-eq-ok true m e h = (refl, h)
if-eq-ok false m e h = cc

pub some-injective {ℓ} : {A : Type ℓ} {a b : A} → some a ≡ some b → a ≡ b
some-injective h = cc
