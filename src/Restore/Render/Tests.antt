-- ===== src/Restore/Render/Tests.antt =====
-- The theorems on rendering, at a command with a quote.
use tmux_rescue.Common.{
  All, Bool, List, String, [], arith, false, length, list_eq, num_eq, ok, refl, some, true, ◌↔◌,
  ◌∷◌, ◌≡◌, ◌≤◌,
}
use tmux_rescue.Std.Ascii.{IsPrintable}
use tmux_rescue.Std.Text.{lit}
use tmux_rescue.Std.Utf8.{from_utf8}
use tmux_rescue.Model.OsString.{LosslessOsString, RecordedAbsolutePath}
use tmux_rescue.Model.Snapshot.Tests.{os}
use tmux_rescue.Restore.Render.{
  RenderedShellInput, contains_terminal_control, control_loop, max_rendered_shell_input_bytes,
  quote, quote_bytes, render_argv, render_loop,
}
use tmux_rescue.Restore.Render.Control.{contains_terminal_control-IsPrintable, control_loop_total}
use tmux_rescue.Restore.Render.Line.{
  IsClean, render_argv-IsPrintable, render_argv-eq-ok_iff, split_words-render_argv,
}
use tmux_rescue.Restore.Render.Quoting.{joined}
use tmux_rescue.Restore.Shell.{
  ExecutableFileIdentity, SourcePaneCoordinate, TargetShell, posix_like,
}
use tmux_rescue.Restore.ShellWords.{split_words}

abbrev pub at_path : String → RecordedAbsolutePath
at_path text = record { path = os (lit text) }

abbrev pub identity : ExecutableFileIdentity
identity = record {
  device = 1;
  inode = 2;
  size = 3;
  modified_seconds = 4;
  modified_nanoseconds = 5;
  changed_seconds = 6;
  changed_nanoseconds = 7;
}

abbrev pub test_shell : TargetShell
test_shell = record {
  executable = at_path "/bin/sh";
  executable_identity = at_path "/bin/dash";
  file_identity = identity;
  dialect = posix_like;
}

abbrev pub first_coordinate : SourcePaneCoordinate
first_coordinate = record { session_name = lit "work"; window_index = 1; pane_index = 4 }

-- A quote, a blank, an empty word and a command substitution.
abbrev pub awkward_argv : List LosslessOsString
awkward_argv = os (lit "it's a") ∷ os [] ∷ os (lit "$(id)") ∷ []

abbrev line : RenderedShellInput
line = record { bytes = lit "'it'\\''s a' '' '$(id)'"; shell = test_shell }

render_line : render_argv test_shell awkward_argv first_coordinate ≡ ok line
unfolding render_argv render_loop quote quote_bytes contains_terminal_control control_loop from_utf8
render_line = refl

split_words-render_argv_example :
    split_words line.bytes ≡ some (lit "it's a" ∷ [] ∷ lit "$(id)" ∷ [])
split_words-render_argv_example =
    split_words-render_argv test_shell awkward_argv first_coordinate line render_line

render_argv-IsPrintable_example :
    All IsPrintable line.bytes × (length line.bytes ≤ max_rendered_shell_input_bytes)
render_argv-IsPrintable_example =
    render_argv-IsPrintable test_shell awkward_argv first_coordinate line render_line

render_argv-eq-ok_iff_example :
    ((input : RenderedShellInput) × (render_argv test_shell awkward_argv first_coordinate
        ≡ ok input))
    ↔ (IsClean awkward_argv × (length (joined 0 awkward_argv) ≤ max_rendered_shell_input_bytes))
render_argv-eq-ok_iff_example = render_argv-eq-ok_iff test_shell awkward_argv first_coordinate

-- A byte that is not UTF-8 and no control.
scan_latin : contains_terminal_control (b'a' ∷ 0xE9 ∷ b'b' ∷ []) ≡ false
unfolding contains_terminal_control control_loop from_utf8
scan_latin = refl

-- U+0085 is refused.
scan_next_line : contains_terminal_control (b'a' ∷ 0xC2 ∷ 0x85 ∷ []) ≡ true
unfolding contains_terminal_control control_loop from_utf8
scan_next_line = refl

contains_terminal_control-IsPrintable_example : All IsPrintable (b'a' ∷ 0xE9 ∷ b'b' ∷ [])
contains_terminal_control-IsPrintable_example =
    contains_terminal_control-IsPrintable (b'a' ∷ 0xE9 ∷ b'b' ∷ []) scan_latin

control_loop_total_example :
    (found : Bool) × (control_loop 4 (b'a' ∷ 0xE9 ∷ b'b' ∷ []) ≡ some found)
control_loop_total_example = control_loop_total 4 (b'a' ∷ 0xE9 ∷ b'b' ∷ []) (omega arith)
