-- ===== src/Process.antt =====
-- process.rs: what `/proc` says about processes, as bytes, and the foreground job of a pane. The
-- reads themselves are input and output.
pub mod Select
pub mod Stat
pub mod Cmdline
pub mod Pinned
mod Tests
use tmux_rescue.Common.{
  Bool, List, Option, Result, [], err, false, if◌then◌else◌, is_empty, length, list_eq, ltb, none,
  num_eq, ok, refl, some, true, ℕ, ◌==◌, ◌>>=◌, ◌>>◌, ◌∷◌, ◌≡◌,
}
use tmux_rescue.Std.Number.{ℤ}
use tmux_rescue.Std.Path.{split}
use tmux_rescue.Std.Text.{Bytes, Text, lit}
use tmux_rescue.Model.Error.{SnapshotValidationError, max_os_value_bytes}
use tmux_rescue.Model.OsString.{LosslessOsString, from_bytes}
use tmux_rescue.Selector.{value}

-- `ProcessInspectionFailure`; an invalid value is told by the error that the source formats.
pub data ProcessInspectionFailure : Type 0 where
  malformed_proc_stat : (process_id : ℕ) (reason : Text) → ProcessInspectionFailure
  process_id_mismatch : (expected actual : ℕ) → ProcessInspectionFailure
  pane_has_no_tty no_foreground_process_group foreground_leader_gone : ProcessInspectionFailure
  ambiguous_foreground_job tool_evidence_raced : ProcessInspectionFailure
  pane_tty_mismatch pane_working_directory_mismatch : (process_id : ℕ) → ProcessInspectionFailure
  process_not_live observation_raced : (process_id : ℕ) → ProcessInspectionFailure
  io : (operation : Text) (process_id : Option ℕ) (reason : Text) → ProcessInspectionFailure
  read_limit_exceeded :
      (operation : Text) (process_id actual maximum : ℕ) → ProcessInspectionFailure
  invalid_evidence : Text → ProcessInspectionFailure
  cmdline_too_large : (actual maximum : ℕ) → ProcessInspectionFailure
  cmdline_missing_final_nul empty_argv_zero : ProcessInspectionFailure
  invalid_command_value : SnapshotValidationError → ProcessInspectionFailure

abbrev pub Inspected : Type 0 → Type 0
Inspected A = Result ProcessInspectionFailure A

unfoldable pub fail_if : Bool → ProcessInspectionFailure → Inspected (Unit {0})
fail_if test failure = if test then err failure else ok tt

pub fail_if-eq-ok :
    {A : Type 0} (test : Bool) (failure : ProcessInspectionFailure) (rest : Inspected A) {a : A}
    → (fail_if test failure >> rest) ≡ ok a
    → (test ≡ false) × (rest ≡ ok a)
unfolding fail_if
fail_if-eq-ok true failure rest h = cc
fail_if-eq-ok false failure rest h = (refl, h)

pub record ProcessStat : Type 0 where
  pub process_id : ℕ
  pub state : ℕ
  pub parent_process_id : ℕ
  pub process_group : ℕ
  pub session_id : ℕ
  pub tty_device : ℤ
  pub foreground_process_group : ℤ
  pub start_time : ℕ

unfoldable pub max_cmdline_bytes : ℕ
max_cmdline_bytes = max_os_value_bytes

-- The arguments of `parse_proc_cmdline`, from its parts.
unfoldable pub arguments_of_parts : List Bytes → Inspected (List LosslessOsString)
arguments_of_parts [] = ok []
arguments_of_parts (part ∷ parts) = elim (from_bytes part (lit "operating-system value")) [
  | err error ↦ err (invalid_command_value error)
  | ok value ↦ (arguments_of_parts parts >>= λ values. ok (value ∷ values))
]

-- All but the last byte, if that is NUL.
unfoldable pub without_final_nul : Bytes → Option Bytes
without_final_nul [] = none
without_final_nul (b ∷ []) = if b == 0 then some [] else none
without_final_nul (b ∷ c ∷ bytes) = elim (without_final_nul (c ∷ bytes)) [
  | none ↦ none
  | some rest ↦ some (b ∷ rest)
]

abbrev pub first_is_empty : List LosslessOsString → Bool
first_is_empty [] = true
first_is_empty (argument ∷ _) = is_empty argument.bytes

unfoldable pub parse_proc_cmdline : Bytes → Inspected (List LosslessOsString)
parse_proc_cmdline input = do
  fail_if (ltb max_cmdline_bytes (length input))
      (cmdline_too_large (length input) max_cmdline_bytes)
  elim (without_final_nul input) [
    | none ↦ err cmdline_missing_final_nul
    | some arguments ↦ do
      argv ← arguments_of_parts (split 0 arguments)
      fail_if (first_is_empty argv) empty_argv_zero
      ok argv
  ]
