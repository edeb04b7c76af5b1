-- ===== src/Restore/Shell.antt =====
-- The target shell and the executables of a plan, as values. How they are found on the system
-- (`passwd`, `access`, ELF headers) is input and output, and is not modelled.
use tmux_rescue.Common.{
  List, Option, [], contains, if◌then◌else◌, list_eq, none, num_eq, some, ℕ, ◌∷◌,
}
use tmux_rescue.Std.Path.{file_name}
use tmux_rescue.Std.Text.{Bytes, Text, lit}
use tmux_rescue.Model.OsString.{RecordedAbsolutePath}

-- `ShellDialect`
pub data ShellDialect : Type 0 where
  posix_like : ShellDialect

abbrev posix_shells : List Text
posix_shells =
    lit "sh" ∷ lit "bash" ∷ lit "dash" ∷ lit "zsh" ∷ lit "ksh" ∷ lit "mksh" ∷ lit "ash" ∷ []

pub shell_dialect : Bytes → Option ShellDialect
shell_dialect path = elim (file_name path) [
  | none ↦ none
  | some name ↦ if contains posix_shells name then some posix_like else none
]

-- The two signed fields of seconds are offsets from the least `i64`.
pub record ExecutableFileIdentity : Type 0 where
  pub device : ℕ
  pub inode : ℕ
  pub size : ℕ
  pub modified_seconds : ℕ
  pub modified_nanoseconds : ℕ
  pub changed_seconds : ℕ
  pub changed_nanoseconds : ℕ

pub record TargetShell : Type 0 where
  pub executable : RecordedAbsolutePath
  pub executable_identity : RecordedAbsolutePath
  pub file_identity : ExecutableFileIdentity
  pub dialect : ShellDialect

pub record PlanningExecutable : Type 0 where
  pub path : RecordedAbsolutePath
  pub file_identity : ExecutableFileIdentity

-- `SourcePaneCoordinate` (capture.rs): where a pane stood in the source.
pub record SourcePaneCoordinate : Type 0 where
  pub session_name : Text
  pub window_index : ℕ
  pub pane_index : ℕ

pub data RestorePlanningError : Type 0 where
  environment : Text → RestorePlanningError
  unsafe_shell_input : (pane : SourcePaneCoordinate) (argument_index : ℕ) → RestorePlanningError
  shell_input_too_large : (pane : SourcePaneCoordinate) (actual maximum : ℕ) → RestorePlanningError
