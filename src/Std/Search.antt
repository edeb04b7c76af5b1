-- ===== src/Std/Search.antt =====
-- Searching and cutting of `str`, on the bytes of texts that are UTF-8.
use tmux_rescue.Common.{
  Bool, List, Option, [], all, false, if◌then◌else◌, in_range, is_empty, length, list_eq, none, not,
  num_eq, refl, some, suc, true, zero, ℕ, ◌&&◌, ◌++◌, ◌-◌, ◌==◌, ◌||◌, ◌∷◌, ◌≡◌,
}
use tmux_rescue.Std.Text.{Text, is_ascii_digit, lit, strip_prefix}

-- `strip_suffix`
unfoldable pub strip_suffix : Text → Text → Option Text
strip_suffix [] suffix = if is_empty suffix then some [] else none
strip_suffix (c ∷ text) suffix =
    let rest = strip_suffix text suffix in
    if c ∷ text == suffix
    then some []
    else (elim rest [ none ↦ none | some before ↦ some (c ∷ before) ])

-- `starts_with`
abbrev pub text_starts_with : Text → Text → Bool
text_starts_with text prefix = elim (strip_prefix text prefix) [ none ↦ false | some _ ↦ true ]

-- `ends_with`
unfoldable pub text_ends_with : Text → Text → Bool
text_ends_with text suffix = elim (strip_suffix text suffix) [ none ↦ false | some _ ↦ true ]

-- `contains`, for a pattern that is not empty.
unfoldable pub text_contains : Text → Text → Bool
text_contains [] pattern = false
text_contains (c ∷ text) pattern = text_starts_with (c ∷ text) pattern || text_contains text pattern

onto_first : ℕ → List Text → List Text
onto_first c [] = (c ∷ []) ∷ []
onto_first c (part ∷ parts) = (c ∷ part) ∷ parts

-- The parts behind `skip` bytes that still belong to a separator.
split_from : Text → ℕ → Text → List Text
split_from separator skip [] = [] ∷ []
split_from separator (suc skip) (c ∷ text) = split_from separator skip text
split_from separator zero (c ∷ text) =
    let behind = split_from separator (length separator - 1) text in
    let further = split_from separator 0 text in
    if text_starts_with (c ∷ text) separator then [] ∷ behind else onto_first c further

-- `split`, for a separator that is not empty.
unfoldable pub split_text : Text → Text → List Text
unfolding split_from onto_first
split_text separator text = split_from separator 0 text

-- `split_once`, for a separator that is not empty.
unfoldable pub split_once : Text → Text → Option (Text × Text)
split_once separator [] = none
split_once separator (c ∷ text) =
    let further = split_once separator text in
    elim (strip_prefix (c ∷ text) separator) [
      | some after ↦ some ([], after)
      | none ↦ (elim further [ none ↦ none | some (before, after) ↦ some (c ∷ before, after) ])
    ]

-- `trim_end_matches`, for a test on ASCII characters.
unfoldable pub trim_end_matches : (ℕ → Bool) → Text → Text
trim_end_matches test [] = []
trim_end_matches test (c ∷ text) =
    let rest = trim_end_matches test text in if is_empty rest && test c then [] else c ∷ rest

abbrev pub is_ascii_whitespace : ℕ → Bool
is_ascii_whitespace c = c == 0x20 || c == 0x09 || c == 0x0A || c == 0x0C || c == 0x0D

abbrev pub is_ascii_alphanumeric : ℕ → Bool
is_ascii_alphanumeric c = is_ascii_digit c || in_range b'A' b'Z' c || in_range b'a' b'z' c

abbrev pub is_ascii_hexdigit : ℕ → Bool
is_ascii_hexdigit c = is_ascii_digit c || in_range b'A' b'F' c || in_range b'a' b'f' c

-- `!text.is_empty() && text.bytes().all(|byte| byte.is_ascii_digit())`
abbrev pub is_digits : Text → Bool
is_digits text = not (is_empty text) && all is_ascii_digit text

-- `[…].join(separator)`
unfoldable pub join_text : Text → List Text → Text
join_text separator [] = []
join_text separator (part ∷ []) = part
join_text separator (part ∷ next ∷ parts) = part ++ separator ++ join_text separator (next ∷ parts)

search_tests :
    (split_text (lit ", ") (lit "a, b,c, ") ≡ lit "a" ∷ lit "b,c" ∷ [] ∷ [])
    × (split_once (lit " -") (lit "3 -4 -5") ≡ some (lit "3", lit "4 -5"))
    × (strip_suffix (lit "12% left") (lit "% left") ≡ some (lit "12"))
    × (strip_suffix (lit "left") (lit "% left") ≡ none)
    × (trim_end_matches is_ascii_whitespace (lit " a b  ") ≡ lit " a b")
unfolding split_text split_once strip_suffix trim_end_matches
search_tests = (refl, refl, refl, refl, refl)
