-- ===== src/Model/Name.antt =====
-- The validated texts of a snapshot: prompt text, capture failures, session and window names.
pub mod Laws
use tmux_rescue.Common.{
  Bool, all, any, err, if◌then◌else◌, is_empty, length, list_eq, ltb, not, num_eq, ok, ℕ, ◌&&◌,
  ◌++◌, ◌==◌, ◌>>=◌, ◌>>◌, ◌||◌,
}
use tmux_rescue.Std.Text.{Text, decimal, lit}
use tmux_rescue.Std.Utf8.{chars, is_control, is_whitespace}
use tmux_rescue.Model.Error.{
  Validation, invalid_capture_failure, invalid_codex_prompt_text, invalid_tmux_name,
  max_codex_prompt_bytes, max_diagnostic_bytes, max_name_bytes, refuse_if,
}

pub record CapturedPromptText : Type 0 where
  pub text : Text

-- `character != '\n' && character.is_control()`
abbrev pub is_prompt_control : ℕ → Bool
is_prompt_control c = not (c == 0x0A) && is_control c

size_reason : Text → Text → ℕ → Text
size_reason what text maximum =
    what ++ lit " is " ++ decimal (length text) ++ lit " bytes; the maximum is " ++ decimal maximum

unfoldable pub prompt_text_try_new : Text → Validation CapturedPromptText
unfolding size_reason
prompt_text_try_new text =
    if is_empty text
    then err (invalid_codex_prompt_text (lit "text is empty"))
    else if all is_whitespace (chars text)
    then err (invalid_codex_prompt_text (lit "text contains only whitespace"))
    else if ltb max_codex_prompt_bytes (length text)
    then err (invalid_codex_prompt_text (size_reason (lit "text") text max_codex_prompt_bytes))
    else if any is_prompt_control (chars text)
    then err (invalid_codex_prompt_text (lit "text contains terminal control characters"))
    else ok (record { text = text })

pub record CapturedCodexPromptArea : Type 0 where
  pub text : CapturedPromptText

unfoldable pub prompt_area_try_new : Text → Validation CapturedCodexPromptArea
prompt_area_try_new text = do valid ← prompt_text_try_new text; ok (record { text = valid })

pub record CaptureFailure : Type 0 where
  pub message : Text

unfoldable pub failure_from_raw : Text → Text → Validation CaptureFailure
unfolding size_reason
failure_from_raw message field =
    if is_empty message
    then err (invalid_capture_failure field (lit "message is empty"))
    else if ltb max_diagnostic_bytes (length message)
    then err
        (invalid_capture_failure field (size_reason (lit "message") message max_diagnostic_bytes))
    else if any is_control (chars message)
    then err (invalid_capture_failure field (lit "message contains terminal control characters"))
    else ok (record { message = message })

unfoldable pub validate_name : Text → Text → Validation (Unit {0})
unfolding size_reason
validate_name name field =
    if ltb max_name_bytes (length name)
    then err (invalid_tmux_name field (size_reason (lit "name") name max_name_bytes))
    else if any is_control (chars name)
    then err (invalid_tmux_name field (lit "name contains control characters"))
    else ok tt

-- `name.contains([':', '.'])`
abbrev pub is_target_separator : ℕ → Bool
is_target_separator c = c == b':' || c == b'.'

session_field : ℕ → Text
session_field position = lit "sessions[" ++ decimal position ++ lit "].name"

unfoldable pub validate_session_name : Text → ℕ → Validation (Unit {0})
unfolding session_field
validate_session_name name position =
    if is_empty name
    then err (invalid_tmux_name (session_field position) (lit "session name is empty"))
    else do
      validate_name name (session_field position)
      refuse_if (any is_target_separator (chars name))
          (invalid_tmux_name (session_field position) (lit "session name contains ':' or '.'"))

unfoldable pub validate_window_name : Text → ℕ → ℕ → Validation (Unit {0})
validate_window_name name session_position window_position = validate_name name (
    lit "sessions["
    ++ decimal session_position
    ++ lit "].windows["
    ++ decimal window_position
    ++ lit "].name")
