-- ===== src/Restore/Render.antt =====
-- `render_argv` and `contains_terminal_control`: a command as one line of shell input.
pub mod Control
pub mod Quoting
pub mod Line
pub mod Tests
use tmux_rescue.Common.{
  Bool, List, Option, Result, [], any, drop, err, false, if◌then◌else◌, in_range, length, list_eq,
  ltb, none, num_eq, ok, some, suc, take, true, zero, ℕ, ◌*◌, ◌++◌, ◌+◌, ◌-◌, ◌==◌, ◌>>=◌, ◌>>◌,
  ◌||◌, ◌∷◌,
}
use tmux_rescue.Std.Text.{Bytes, lit}
use tmux_rescue.Std.Utf8.{all_valid, broken, from_utf8, is_control}
use tmux_rescue.Model.OsString.{LosslessOsString}
use tmux_rescue.Restore.Shell.{
  RestorePlanningError, SourcePaneCoordinate, TargetShell, shell_input_too_large,
  unsafe_shell_input,
}

abbrev pub max_rendered_shell_input_bytes : ℕ
max_rendered_shell_input_bytes = 16 * 1024

pub record RenderedShellInput : Type 0 where
  pub bytes : Bytes
  pub shell : TargetShell

-- `*byte < 0x20 || matches!(*byte, 0x7f..=0x9f)`
abbrev pub is_control_byte : ℕ → Bool
is_control_byte b = ltb b 0x20 || in_range 0x7F 0x9F b

-- The end of the malformed sequence: of the input, if it breaks off in a character.
abbrev pub invalid_end : Bytes → ℕ → Option ℕ → ℕ
invalid_end remaining valid_up_to none = length remaining
invalid_end remaining valid_up_to (some error_len) = valid_up_to + error_len

-- The `while` loop of `contains_terminal_control`; `none` means that the fuel ran out.
pub control_loop : ℕ → Bytes → Option Bool
control_loop zero remaining = none
control_loop (suc fuel) [] = some false
control_loop (suc fuel) (b ∷ bs) = elim (from_utf8 (b ∷ bs)) [
  | all_valid cs ↦ some (any is_control cs)
  | broken cs valid_up_to error_len ↦
      let end = invalid_end (b ∷ bs) valid_up_to error_len in
      let next = control_loop fuel (drop end (b ∷ bs)) in
      if any is_control cs
      then some true
      else if any is_control_byte (take (end - valid_up_to) (drop valid_up_to (b ∷ bs)))
      then some true
      else next
]

-- Each round takes a byte at least, so the fuel is enough (`control_loop_total`).
unfoldable pub contains_terminal_control : Bytes → Bool
unfolding control_loop
contains_terminal_control bytes = elim (control_loop (suc (length bytes)) bytes) [
  | some found ↦ found
  | none ↦ true
]

-- The bytes of one argument, each `'` as `'\''`.
unfoldable pub quote_bytes : Bytes → Bytes
quote_bytes [] = []
quote_bytes (b ∷ bs) = if b == b'\'' then lit "'\\''" ++ quote_bytes bs else b ∷ quote_bytes bs

unfoldable pub quote : Bytes → Bytes
quote argument = lit "'" ++ quote_bytes argument ++ lit "'"

abbrev pub separator : ℕ → Bytes
separator zero = []
separator (suc index) = lit " "

-- The loop over the arguments, from position `index` on, with the output so far.
pub render_loop :
    SourcePaneCoordinate → ℕ → Bytes → List LosslessOsString → Result RestorePlanningError Bytes
render_loop pane index output [] = ok output
render_loop pane index output (argument ∷ arguments) =
    let next =
      render_loop pane (suc index) (output ++ separator index ++ quote argument.bytes) arguments in
    if contains_terminal_control argument.bytes then err (unsafe_shell_input pane index) else next

unfoldable pub render_argv :
    TargetShell
    → List LosslessOsString
    → SourcePaneCoordinate
    → Result RestorePlanningError RenderedShellInput
unfolding render_loop quote quote_bytes
render_argv shell argv pane = do
  output ← render_loop pane 0 [] argv
  if ltb max_rendered_shell_input_bytes (length output)
      then err (shell_input_too_large pane (length output) max_rendered_shell_input_bytes)
      else ok (record { bytes = output; shell = shell })
