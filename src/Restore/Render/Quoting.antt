-- ===== src/Restore/Render/Quoting.antt =====
-- What `render_argv` gives: the rendered line, its words, and its errors.
use tmux_rescue.Common.{
  All, All-append, Bool-cases, List, Option, Result, [], ap, append-nil, append_assoc, arith, err,
  false, if◌then◌else◌, inl, inr, list_eq, none, num_eq, ok, refl, some, suc, zero, ℕ, ◌++◌, ◌==◌,
  ◌∙◌, ◌∷◌, ◌≡◌,
}
use tmux_rescue.Std.Ascii.{IsPrintable}
use tmux_rescue.Std.Text.{Bytes, lit}
use tmux_rescue.Model.OsString.{LosslessOsString}
use tmux_rescue.Restore.Render.{
  contains_terminal_control, quote, quote_bytes, render_loop, separator,
}
use tmux_rescue.Restore.Render.Control.{contains_terminal_control-IsPrintable}
use tmux_rescue.Restore.Shell.{RestorePlanningError, SourcePaneCoordinate, unsafe_shell_input}
use tmux_rescue.Restore.ShellWords.{bare, quoted, split_from, split_words}

-- The line that the loop builds, written directly.
unfoldable pub joined : ℕ → List LosslessOsString → Bytes
joined index [] = []
joined index (argument ∷ arguments) =
    separator index ++ quote argument.bytes ++ joined (suc index) arguments

-- The first argument, from position `index` on, that holds a terminal control.
unfoldable pub first_unsafe : ℕ → List LosslessOsString → Option ℕ
first_unsafe index [] = none
first_unsafe index (argument ∷ arguments) =
    if contains_terminal_control argument.bytes
    then some index
    else first_unsafe (suc index) arguments

-- The loop: the first unsafe argument is its error, else the joined line is its result.
abbrev pub loop_result :
    SourcePaneCoordinate → Bytes → Option ℕ → Bytes → Result RestorePlanningError Bytes
loop_result pane output (some index) line = err (unsafe_shell_input pane index)
loop_result pane output none line = ok (output ++ line)

loop_result-append :
    (pane : SourcePaneCoordinate) (output space quoted_argument : Bytes) (fault : Option ℕ)
    (line : Bytes)
    → loop_result pane (output ++ space ++ quoted_argument) fault line
      ≡ loop_result pane output fault (space ++ quoted_argument ++ line)
loop_result-append pane output space quoted_argument none line = ap ok (simp append_assoc)
loop_result-append pane output space quoted_argument (some index) line = refl

pub render_loop_lem :
    (pane : SourcePaneCoordinate) (index : ℕ) (output : Bytes) (arguments : List LosslessOsString)
    → render_loop pane index output arguments
      ≡ loop_result pane output (first_unsafe index arguments) (joined index arguments)
unfolding render_loop first_unsafe joined
render_loop_lem pane index output [] = rw append-nil
render_loop_lem pane index output (argument ∷ arguments) =
    elim (Bool-cases (contains_terminal_control argument.bytes)) [
      | inl bad ↦ rw bad
      | inr good ↦ rw good (
          render_loop_lem pane (suc index) (output ++ separator index ++ quote argument.bytes)
            arguments
          ∙ loop_result-append pane output (separator index) (quote argument.bytes) _ _)
    ]

split_from-quote_bytes :
    (word bs rest : Bytes)
    → split_from quoted word (quote_bytes bs ++ lit "'" ++ rest) ≡ split_from bare (word ++ bs) rest
unfolding split_from quote_bytes
split_from-quote_bytes word [] rest = rw append-nil
split_from-quote_bytes word (b ∷ bs) rest = elim (Bool-cases (b == b'\'')) [
  | inl quotes ↦
      let same : b ≡ b'\'' = (num_eq.decides b b'\'').0 quotes in
      rw quotes (
        split_from-quote_bytes (word ++ lit "'") bs rest
        ∙ ap (λ w. split_from bare w rest) (append_assoc word (lit "'") bs ∙ rw same))
  | inr plain ↦
      rw (plain, plain)
        (split_from-quote_bytes (word ++ b ∷ []) bs rest
          ∙ ap (λ w. split_from bare w rest) (append_assoc word (b ∷ []) bs))
]

abbrev pub argv_bytes : List LosslessOsString → List Bytes
argv_bytes [] = []
argv_bytes (argument ∷ arguments) = argument.bytes ∷ argv_bytes arguments

-- After a word, the rest of the line splits into the rest of the arguments.
split_from-joined :
    (word : Bytes) (index : ℕ) (arguments : List LosslessOsString)
    → split_from bare word (joined (suc index) arguments) ≡ some (word ∷ argv_bytes arguments)
unfolding split_from joined quote
split_from-joined word index [] = refl
split_from-joined word index (argument ∷ arguments) = rw (
  split_from-quote_bytes [] argument.bytes (joined (suc (suc index)) arguments),
  split_from-joined argument.bytes (suc index) arguments,
)

pub split_words-joined :
    (arguments : List LosslessOsString)
    → split_words (joined 0 arguments) ≡ some (argv_bytes arguments)
unfolding split_words joined quote
split_words-joined [] = refl
split_words-joined (argument ∷ arguments) =
    split_from-quote_bytes [] argument.bytes (joined 1 arguments)
    ∙ split_from-joined argument.bytes 0 arguments

quote_bytes-IsPrintable : (bs : Bytes) → All IsPrintable bs → All IsPrintable (quote_bytes bs)
unfolding quote_bytes
quote_bytes-IsPrintable [] h = tt
quote_bytes-IsPrintable (b ∷ bs) (p, h) =
    let rest = quote_bytes-IsPrintable bs h in
    elim (Bool-cases (b == b'\'')) [
      | inl quotes ↦
          rw quotes (All-append IsPrintable (lit "'\\''") (quote_bytes bs) (omega arith) rest)
      | inr plain ↦ rw plain (p, rest)
    ]

separator-IsPrintable : (index : ℕ) → All IsPrintable (separator index)
separator-IsPrintable zero = tt
separator-IsPrintable (suc index) = omega arith

pub joined-IsPrintable :
    (index : ℕ) (argv : List LosslessOsString)
    → All (λ argument. contains_terminal_control argument.bytes ≡ false) argv
    → All IsPrintable (joined index argv)
unfolding joined quote
joined-IsPrintable index [] h = tt
joined-IsPrintable index (argument ∷ arguments) (clean, h) =
    let inner =
      quote_bytes-IsPrintable argument.bytes
        (contains_terminal_control-IsPrintable argument.bytes clean) in
    All-append IsPrintable (separator index ++ quote argument.bytes) (joined (suc index) arguments)
      (All-append IsPrintable (separator index) (quote argument.bytes) (separator-IsPrintable index)
        (
          omega arith,
          All-append IsPrintable (quote_bytes argument.bytes) (lit "'") inner (omega arith),
        ))
      (joined-IsPrintable (suc index) arguments h)
