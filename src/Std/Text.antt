-- ===== src/Std/Text.antt =====
-- Rust's byte vectors and texts. A `Vec<u8>`, an `OsString` and a `String` are the list of their
-- bytes; a `String` is one whose bytes are UTF-8 (`Std.Utf8`). Literals are ASCII.
use Prim.Native.Char.{code}
use tmux_rescue.Common.{
  Bool, List, Option, String, [], if◌then◌else◌, in_range, list_eq, ltb, none, num_eq, refl, some,
  suc, zero, ℕ, ◌%◌, ◌+◌, ◌/◌, ◌==◌, ◌∷◌, ◌≡◌,
}

abbrev pub Bytes : Type 0
Bytes = List ℕ

abbrev pub Text : Type 0
Text = List ℕ

-- A literal, `"…"` or `b"…"`.
abbrev pub lit : String → Text
lit String.[] = []
lit (String.◌∷◌ c s) = code c ∷ lit s

abbrev pub is_ascii_digit : ℕ → Bool
is_ascii_digit c = in_range b'0' b'9' c

-- Digits of `n`, most significant first, in front of `rest`; one unit of fuel for each digit.
digits_from : ℕ → ℕ → Text → Text
digits_from zero n rest = rest
digits_from (suc fuel) n rest =
    let more = digits_from fuel (n / 10) ((b'0' + n % 10) ∷ rest) in
    if ltb n 10 then (b'0' + n) ∷ rest else more

-- `{n}` of a format string.
unfoldable pub decimal : ℕ → Text
unfolding digits_from
decimal n = digits_from (suc n) n []

decimal_tests : (decimal 0 ≡ lit "0") × (decimal 1048577 ≡ lit "1048577")
unfolding decimal
decimal_tests = (refl, refl)

-- `strip_prefix`
abbrev pub strip_prefix : Text → Text → Option Text
strip_prefix text [] = some text
strip_prefix [] (_ ∷ _) = none
strip_prefix (c ∷ text) (d ∷ prefix) =
    let rest = strip_prefix text prefix in if c == d then rest else none
