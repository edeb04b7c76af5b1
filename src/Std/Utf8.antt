-- ===== src/Std/Utf8.antt =====
-- Rust's UTF-8: `str::from_utf8`, `str::chars`, `char::is_control`, `char::is_whitespace`.
pub mod Laws
pub mod Append
use tmux_rescue.Common.{
  Bool, List, Option, [], false, if◌then◌else◌, in_range, list_eq, ltb, none, num_eq, refl, some,
  suc, true, zero, ℕ, ◌%◌, ◌*◌, ◌+◌, ◌==◌, ◌||◌, ◌∷◌, ◌≡◌,
}
use tmux_rescue.Std.Text.{Bytes, Text}

-- Between two bytes: how many continuation bytes are due, the range of the next one, and the
-- bits of the character so far.
pub record Decoder : Type 0 where
  pub due : ℕ
  pub low : ℕ
  pub high : ℕ
  pub bits : ℕ

abbrev pub between : Decoder
between = record { due = 0; low = 0x80; high = 0xBF; bits = 0 }

abbrev await : ℕ → ℕ → ℕ → ℕ → Decoder
await due low high bits = record { due = due; low = low; high = high; bits = bits }

-- What one byte does: end a character, ask for more, or break the encoding.
pub data Progress : Type 0 where
  scalar : ℕ → Progress
  unfinished : Decoder → Progress
  malformed : Progress

-- The first byte of a character.
lead : ℕ → Progress
lead b =
    if ltb b 0x80
    then scalar b
    else if in_range 0xC2 0xDF b
    then unfinished (await 1 0x80 0xBF (b % 32))
    else if b == 0xE0
    then unfinished (await 2 0xA0 0xBF 0)
    else if b == 0xED
    then unfinished (await 2 0x80 0x9F 13)
    else if in_range 0xE1 0xEF b
    then unfinished (await 2 0x80 0xBF (b % 16))
    else if b == 0xF0
    then unfinished (await 3 0x90 0xBF 0)
    else if in_range 0xF1 0xF3 b
    then unfinished (await 3 0x80 0xBF (b % 8))
    else if b == 0xF4
    then unfinished (await 3 0x80 0x8F 4)
    else malformed

continue_with : ℕ → ℕ → Progress
continue_with zero bits = scalar bits
continue_with (suc due) bits = unfinished (await (suc due) 0x80 0xBF bits)

-- A byte that continues a character of which `suc due` bytes are due.
continuation : ℕ → Decoder → ℕ → Progress
unfolding continue_with
continuation due d b =
    if in_range d.low d.high b then continue_with due (d.bits * 64 + b % 64) else malformed

pub feed : Decoder → ℕ → Progress
unfolding lead continuation
feed d b = elim d.due [ zero ↦ lead b | suc due ↦ continuation due d b ]

-- `str::from_utf8`: the characters of a text that is UTF-8; else the characters in front of the
-- first fault (those of `input[.. valid_up_to()]`), with `valid_up_to()` and `error_len()`.
pub data Utf8 : Type 0 where
  all_valid : List ℕ → Utf8
  broken : (before : List ℕ) (valid_up_to : ℕ) (error_len : Option ℕ) → Utf8

-- One character more, of `width` bytes, in front.
pub push : ℕ → ℕ → Utf8 → Utf8
push c width (all_valid cs) = all_valid (c ∷ cs)
push c width (broken cs valid_up_to error_len) = broken (c ∷ cs) (width + valid_up_to) error_len

-- The length of a malformed sequence: the bytes that began a character, or one byte.
pub malformed_len : ℕ → ℕ
malformed_len zero = 1
malformed_len (suc pending) = suc pending

-- `pending` bytes have been read since the last character ended.
pub scan : Decoder → ℕ → Bytes → Utf8
scan d pending [] = if d.due == 0 then all_valid [] else broken [] 0 none
scan d pending (b ∷ bs) = elim (feed d b) [
  | scalar c ↦ push c (suc pending) (scan between 0 bs)
  | unfinished d' ↦ scan d' (suc pending) bs
  | malformed ↦ broken [] 0 (some (malformed_len pending))
]

unfoldable pub from_utf8 : Bytes → Utf8
unfolding scan feed push malformed_len
from_utf8 = scan between 0

-- The characters of a byte string, if it is UTF-8.
unfoldable pub decode : Bytes → Option (List ℕ)
unfolding from_utf8
decode bytes = elim (from_utf8 bytes) [ all_valid cs ↦ some cs | broken _ _ _ ↦ none ]

-- `str::from_utf8(…).is_ok()`
unfoldable pub is_utf8 : Bytes → Bool
unfolding decode
is_utf8 bytes = elim (decode bytes) [ none ↦ false | some _ ↦ true ]

-- `text.chars()`, of a text that is UTF-8.
unfoldable pub chars : Text → List ℕ
unfolding decode
chars text = elim (decode text) [ none ↦ [] | some cs ↦ cs ]

-- `char::is_control`: the general category Cc.
abbrev pub is_control : ℕ → Bool
is_control c = ltb c 0x20 || in_range 0x7F 0x9F c

-- `char::is_whitespace`: the property White_Space.
unfoldable pub is_whitespace : ℕ → Bool
is_whitespace c =
    in_range 0x09 0x0D c
    || c == 0x20
    || c == 0x85
    || c == 0xA0
    || c == 0x1680
    || in_range 0x2000 0x200A c
    || c == 0x2028
    || c == 0x2029
    || c == 0x202F
    || c == 0x205F
    || c == 0x3000

euro : decode (0x61 ∷ 0xE2 ∷ 0x82 ∷ 0xAC ∷ []) ≡ some (0x61 ∷ 0x20AC ∷ [])
unfolding decode
euro = refl

faults :
    (from_utf8 (0x61 ∷ 0xC3 ∷ 0xA9 ∷ 0xE2 ∷ 0x82 ∷ 0x61 ∷ [])
      ≡ broken (0x61 ∷ 0xE9 ∷ []) 3 (some 2))
    × (from_utf8 (0x61 ∷ 0xE2 ∷ 0x82 ∷ []) ≡ broken (0x61 ∷ []) 1 none)
unfolding from_utf8
faults = (refl, refl)

overlong : is_utf8 (0xC0 ∷ 0x80 ∷ []) ≡ false
unfolding is_utf8
overlong = refl

surrogate : is_utf8 (0xED ∷ 0xA0 ∷ 0x80 ∷ []) ≡ false
unfolding is_utf8
surrogate = refl
