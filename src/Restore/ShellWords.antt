-- ===== src/Restore/ShellWords.antt =====
-- How a POSIX shell splits a line into words, for lines whose every character outside single
-- quotes is a blank, a quote or a backslash. Any other unquoted character is refused, so that a
-- line which is accepted has no expansion, no operator and no comment.
use tmux_rescue.Common.{
  List, Option, [], if◌then◌else◌, list_eq, none, num_eq, refl, some, ◌++◌, ◌==◌, ◌∷◌, ◌≡◌,
}
use tmux_rescue.Std.Text.{Bytes, lit}

pub data Mode : Type 0 where
  blank bare quoted escaped : Mode

-- The current word, and the words that follow.
unfoldable pub split_from : Mode → Bytes → Bytes → Option (List Bytes)
split_from blank word [] = some []
split_from bare word [] = some (word ∷ [])
split_from quoted word [] = none
split_from escaped word [] = none
split_from blank word (b ∷ bs) =
    if b == b' '
    then split_from blank [] bs
    else if b == b'\''
    then split_from quoted [] bs
    else if b == b'\\'
    then split_from escaped [] bs
    else none
split_from bare word (b ∷ bs) =
    let ended : Option (List Bytes) = elim (split_from blank [] bs) [
      | none ↦ none
      | some words ↦ some (word ∷ words)
    ] in
    let reopened = split_from quoted word bs in
    let escape = split_from escaped word bs in
    if b == b' '
    then ended
    else if b == b'\''
    then reopened
    else if b == b'\\'
    then escape
    else none
split_from quoted word (b ∷ bs) =
    let closed = split_from bare word bs in
    let longer = split_from quoted (word ++ b ∷ []) bs in if b == b'\'' then closed else longer
split_from escaped word (b ∷ bs) =
    let longer = split_from bare (word ++ b ∷ []) bs in if b == 0x0A then none else longer

unfoldable pub split_words : Bytes → Option (List Bytes)
unfolding split_from
split_words line = split_from blank [] line

split_words_tests :
    (split_words (lit "'a b' 'it'\\''s'") ≡ some (lit "a b" ∷ lit "it's" ∷ []))
    × (split_words (lit "'' ''") ≡ some ([] ∷ [] ∷ []))
    × (split_words (lit "'a") ≡ none)
    × (split_words (lit "ls; rm") ≡ none)
unfolding split_words
split_words_tests = (refl, refl, refl, refl)
