-- ===== src/VisiblePane/Shape.antt =====
-- The shape of an accepted grid.
use tmux_rescue.Common.{
  All, Bool, Bool-cases, List, Option-cases, [], ap, append_assoc, arith, drop, inl, inr, length,
  length-append, length-drop, list_eq, num_eq, refl, some, some-injective, suc, sym, take, zero, ℕ,
  ◌++◌, ◌+◌, ◌-◌, ◌==◌, ◌∙◌, ◌∷◌, ◌≡◌, ◌≤◌,
}
use tmux_rescue.Std.Path.{split}
use tmux_rescue.Std.Text.{Text}
use tmux_rescue.Std.Utf8.{chars, decode}
use tmux_rescue.Std.Utf8.Append.{decode-newline}
use tmux_rescue.Selector.{flag}
use tmux_rescue.VisiblePane.Grid.{VisibleRow, drop_last, pop_newline, rows_of}

abbrev pub print_lines : List VisibleRow → Text
print_lines [] = []
print_lines (row ∷ rows) = row.text ++ 0x0A ∷ print_lines rows

pub join_lines : List Text → Text
join_lines [] = []
join_lines (line ∷ []) = line
join_lines (line ∷ next ∷ lines) = line ++ 0x0A ∷ join_lines (next ∷ lines)

join_lines-cons :
    (b : ℕ) (line : Text) (lines : List Text)
    → join_lines ((b ∷ line) ∷ lines) ≡ b ∷ join_lines (line ∷ lines)
unfolding join_lines
join_lines-cons b line [] = refl
join_lines-cons b line (next ∷ lines) = refl

-- A text is its lines, and there is one at least.
pub join_lines-split :
    (text : Text)
    → (line : Text) × (lines : List Text) × (split 0x0A text ≡ line ∷ lines)
      × (join_lines (line ∷ lines) ≡ text)
unfolding split join_lines
join_lines-split [] = ([], [], refl, refl)
join_lines-split (b ∷ text) = elim (Bool-cases (b == 0x0A)) [
  | inl newline ↦
      let same : b ≡ 0x0A = (num_eq.decides b 0x0A).0 newline in
      let (line, lines, parts, whole) = join_lines-split text in
      ([], line ∷ lines, rw (parts, newline, split) refl, rw (same, whole) refl)
  | inr other ↦
      let (line, lines, parts, whole) = join_lines-split text in
      (
        b ∷ line,
        lines,
        rw (parts, other, split) refl,
        join_lines-cons b line lines ∙ ap (λ t. b ∷ t) whole,
      )
]

-- A row of text in UTF-8 with one flag for each of its characters.
abbrev pub IsRow : VisibleRow → Type 0
IsRow row = (cs : List ℕ) × (decode row.text ≡ some cs) × (length row.faint_by_char ≡ length cs)

length-take : (n : ℕ) (flags : List Bool) → n ≤ length flags → length (take n flags) ≡ n
length-take zero flags h = refl
length-take (suc n) [] h = omega arith
length-take (suc n) (flag ∷ flags) h = ap suc (length-take n flags (omega arith))

first_flags-IsRow :
    (text : Text) (cs : List ℕ) (flags : List Bool)
    → decode text ≡ some cs
    → length cs ≤ length flags
    → IsRow (record { text = text; faint_by_char = take (length (chars text)) flags })
unfolding chars
first_flags-IsRow text cs flags h enough =
    (cs, h, rw (h, chars) (length-take (length cs) flags enough))

chars_are : (text : Text) (cs : List ℕ) → decode text ≡ some cs → length (chars text) ≡ length cs
unfolding chars
chars_are text cs h = rw (h, chars) refl

pub rows_of-IsRow :
    (lines : List Text) (line : Text) (flags : List Bool) (cs : List ℕ)
    → decode (join_lines (line ∷ lines)) ≡ some cs
    → length flags ≡ length cs
    → All IsRow (rows_of flags (line ∷ lines))
unfolding rows_of join_lines
rows_of-IsRow [] line flags cs h same = (first_flags-IsRow line cs flags h (omega arith), tt)
rows_of-IsRow (next ∷ lines) line flags cs h same =
    let (before, after, first, second, cut) =
      decode-newline line (join_lines (next ∷ lines)) cs h in
    let counted : length cs ≡ length before + suc (length after) =
      ap length cut ∙ length-append before (0x0A ∷ after) in
    let count = chars_are line before first in
    (
      first_flags-IsRow line before flags first (omega arith),
      rows_of-IsRow lines next (drop (length (chars line) + 1) flags) after second
          (omega (arith, length-drop (length (chars line) + 1) flags)),
    )

pub pop_newline-eq-some :
    (text rest : Text) → pop_newline text ≡ some rest → text ≡ rest ++ 0x0A ∷ []
unfolding pop_newline
pop_newline-eq-some [] rest h = cc
pop_newline-eq-some (c ∷ []) rest h = elim (Bool-cases (c == 0x0A)) [
  | inl newline ↦
      let same : c ≡ 0x0A = (num_eq.decides c 0x0A).0 newline in
      let empty : [] ≡ rest = some-injective (rw (newline, pop_newline) at h) in
      rw (same, ← empty) refl
  | inr other ↦ let never = rw (other, pop_newline) at h in cc
]
pop_newline-eq-some (c ∷ d ∷ text) rest h = elim (Option-cases (pop_newline (d ∷ text))) [
  | inl nothing ↦ let never = rw (nothing, pop_newline) at h in cc
  | inr (popped, found) ↦
      let same : c ∷ popped ≡ rest = some-injective (rw (found, pop_newline) at h) in
      rw (← same) (ap (λ t. c ∷ t) (pop_newline-eq-some (d ∷ text) popped found))
]

pub drop_last-length : (flags : List Bool) → length (drop_last flags) ≡ length flags - 1
unfolding drop_last
drop_last-length [] = omega arith
drop_last-length (a ∷ []) = omega arith
drop_last-length (a ∷ b ∷ flags) = omega (arith, drop_last-length (b ∷ flags))

-- The texts of the rows are the lines, whatever their flags.
pub rows_of-print_lines :
    (lines : List Text) (line : Text) (flags : List Bool)
    → print_lines (rows_of flags (line ∷ lines)) ≡ join_lines (line ∷ lines) ++ 0x0A ∷ []
unfolding rows_of join_lines
rows_of-print_lines [] line flags = refl
rows_of-print_lines (next ∷ lines) line flags =
    ap (λ t. line ++ 0x0A ∷ t)
      (rows_of-print_lines lines next (drop (length (chars line) + 1) flags))
    ∙ sym (append_assoc line (0x0A ∷ join_lines (next ∷ lines)) (0x0A ∷ []))
