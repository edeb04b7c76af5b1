-- ===== src/Std/Number.antt =====
-- `str::parse` of unsigned integers.
use tmux_rescue.Common.{
  Bool, Option, [], false, if◌then◌else◌, leb, list_eq, none, num_eq, refl, some, suc, zero, ℕ,
  ◌&&◌, ◌*◌, ◌+◌, ◌-◌, ◌==◌, ◌^◌, ◌∷◌, ◌≡◌,
}
use tmux_rescue.Std.Text.{Text, is_ascii_digit, lit}

-- The digits after `value`, with `checked_mul` and `checked_add`: none past the maximum.
parse_digits : (maximum value : ℕ) → Text → Option ℕ
parse_digits maximum value [] = some value
parse_digits maximum value (d ∷ digits) =
    let next = value * 10 + (d - b'0') in
    let rest = parse_digits maximum next digits in
    if is_ascii_digit d && leb next maximum then rest else none

-- An optional plus sign, then one digit at least.
parse_unsigned : ℕ → Text → Option ℕ
parse_unsigned maximum [] = none
parse_unsigned maximum (d ∷ []) = parse_digits maximum 0 (d ∷ [])
parse_unsigned maximum (d ∷ e ∷ digits) =
    if d == b'+'
    then parse_digits maximum 0 (e ∷ digits)
    else parse_digits maximum 0 (d ∷ e ∷ digits)

unfoldable pub parse_u64 : Text → Option ℕ
unfolding parse_unsigned parse_digits
parse_u64 = parse_unsigned (2 ^ 64 - 1)

unfoldable pub parse_u32 : Text → Option ℕ
unfolding parse_unsigned parse_digits
parse_u32 = parse_unsigned (2 ^ 32 - 1)

number_tests :
    (parse_u64 (lit "18446744073709551615") ≡ some 18446744073709551615)
    × (parse_u64 (lit "18446744073709551616") ≡ none)
    × (parse_u64 (lit "+7") ≡ some 7)
    × (parse_u64 (lit "+") ≡ none)
    × (parse_u32 (lit "4294967296") ≡ none)
unfolding parse_u64 parse_u32
number_tests = (refl, refl, refl, refl, refl)

unfoldable pub parse_u16 : Text → Option ℕ
unfolding parse_unsigned parse_digits
parse_u16 = parse_unsigned (2 ^ 16 - 1)

-- `i32` and `i64`: `negsuc n` is `-(n + 1)`.
pub data ℤ : Type 0 where
  pos negsuc : ℕ → ℤ

abbrev pub integer_beq : ℤ → ℤ → Bool
integer_beq (pos m) (pos n) = m == n
integer_beq (negsuc m) (negsuc n) = m == n
integer_beq _ _ = false

-- A minus sign, then digits up to the magnitude of the least value; or as the unsigned types.
negated : Option ℕ → Option ℤ
negated none = none
negated (some zero) = some (pos 0)
negated (some (suc n)) = some (negsuc n)

not_negated : Option ℕ → Option ℤ
not_negated none = none
not_negated (some n) = some (pos n)

parse_signed : ℕ → Text → Option ℤ
parse_signed bound (d ∷ e ∷ digits) =
    if d == b'-'
    then negated (parse_digits bound 0 (e ∷ digits))
    else not_negated (parse_unsigned (bound - 1) (d ∷ e ∷ digits))
parse_signed bound text = not_negated (parse_unsigned (bound - 1) text)

unfoldable pub parse_i32 : Text → Option ℤ
unfolding parse_signed negated not_negated parse_unsigned parse_digits
parse_i32 = parse_signed (2 ^ 31)

unfoldable pub parse_i64 : Text → Option ℤ
unfolding parse_signed negated not_negated parse_unsigned parse_digits
parse_i64 = parse_signed (2 ^ 63)

signed_tests :
    (parse_i32 (lit "-1") ≡ some (negsuc 0))
    × (parse_i32 (lit "2147483648") ≡ none)
    × (parse_i32 (lit "-2147483648") ≡ some (negsuc 2147483647))
    × (parse_i64 (lit "-+1") ≡ none)
    × (parse_i64 (lit "-") ≡ none)
    × (parse_i64 (lit "+34816") ≡ some (pos 34816))
unfolding parse_i32 parse_i64
signed_tests = (refl, refl, refl, refl, refl, refl)
