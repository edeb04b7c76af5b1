-- ===== src/Model/Error.antt =====
-- The limits of a snapshot, and `SnapshotValidationError`. A field or a reason is the text that
-- the source formats; `u32` and `usize` values are numbers.
use tmux_rescue.Common.{Bool, Result, err, false, ok, refl, true, ℕ, ◌*◌, ◌>>◌, ◌≡◌}
use tmux_rescue.Std.Text.{Text}

abbrev pub max_snapshot_bytes : ℕ
max_snapshot_bytes = 16 * 1024 * 1024

abbrev pub max_sessions : ℕ
max_sessions = 1024

abbrev pub max_windows_per_session : ℕ
max_windows_per_session = 1024

abbrev pub max_panes_per_window : ℕ
max_panes_per_window = 1024

abbrev pub max_arguments : ℕ
max_arguments = 4096

abbrev pub max_os_value_bytes : ℕ
max_os_value_bytes = 1024 * 1024

abbrev pub max_name_bytes : ℕ
max_name_bytes = 4096

abbrev pub max_diagnostic_bytes : ℕ
max_diagnostic_bytes = 4096

abbrev pub max_codex_prompt_bytes : ℕ
max_codex_prompt_bytes = 16 * 1024

abbrev pub max_topology_validation_attempts : ℕ
max_topology_validation_attempts = 3

pub data SnapshotValidationError : Type 0 where
  snapshot_too_large : (actual maximum : ℕ) → SnapshotValidationError
  invalid_json : Text → SnapshotValidationError
  invalid_capture_time : (value : Text) → SnapshotValidationError
  empty_sessions : SnapshotValidationError
  too_many_sessions : (actual maximum : ℕ) → SnapshotValidationError
  duplicate_session_name : (name : Text) → SnapshotValidationError
  empty_windows : (session : Text) → SnapshotValidationError
  too_many_windows : (session : Text) (actual maximum : ℕ) → SnapshotValidationError
  duplicate_window_index : (session : Text) (index : ℕ) → SnapshotValidationError
  empty_panes : (session : Text) (window_index : ℕ) → SnapshotValidationError
  too_many_panes : (session : Text) (window_index actual maximum : ℕ) → SnapshotValidationError
  duplicate_pane_index : (session : Text) (window_index index : ℕ) → SnapshotValidationError
  path_not_absolute : (field : Text) → SnapshotValidationError
  invalid_os_encoding : (field reason : Text) → SnapshotValidationError
  os_value_contains_nul : (field : Text) → SnapshotValidationError
  os_value_too_long : (field : Text) (actual maximum : ℕ) → SnapshotValidationError
  empty_executable : (field : Text) → SnapshotValidationError
  empty_argv : (field : Text) → SnapshotValidationError
  too_many_arguments : (field : Text) (actual maximum : ℕ) → SnapshotValidationError
  empty_argv_zero : (field : Text) → SnapshotValidationError
  invalid_unstable_attempt_count : (actual expected : ℕ) → SnapshotValidationError
  invalid_session_id : (tool value : Text) → SnapshotValidationError
  invalid_codex_prompt_text : (reason : Text) → SnapshotValidationError
  invalid_recognized_serve_command : (tool reason : Text) → SnapshotValidationError
  invalid_capture_failure : (field reason : Text) → SnapshotValidationError
  invalid_tmux_name : (field reason : Text) → SnapshotValidationError

-- `Result<_, SnapshotValidationError>`
abbrev pub Validation : Type 0 → Type 0
Validation A = Result SnapshotValidationError A

-- `if refused { return Err(error) }`
unfoldable pub refuse_if : Bool → SnapshotValidationError → Validation (Unit {0})
refuse_if true error = err error
refuse_if false error = ok tt

-- A guarded step that succeeds has passed its guard.
pub refuse_if-eq-ok :
    {A : Type 0} {refused : Bool} (error : SnapshotValidationError) {next : Validation A} {a : A}
    → (refuse_if refused error >> next) ≡ ok a
    → (refused ≡ false) × (next ≡ ok a)
unfolding refuse_if
refuse_if-eq-ok {refused = true} error h = cc
refuse_if-eq-ok {refused = false} error h = (refl, h)

pub refuse_if-next :
    {A : Type 0} {refused : Bool} (error : SnapshotValidationError) {next : Validation A}
    → refused ≡ false
    → (refuse_if refused error >> next) ≡ next
unfolding refuse_if
refuse_if-next {refused = true} error h = cc
refuse_if-next {refused = false} error h = refl
