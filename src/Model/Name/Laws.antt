-- ===== src/Model/Name/Laws.antt =====
-- What every accepted text of a snapshot satisfies; such a text is accepted again, at any place.
use tmux_rescue.Common.{>>=-eq-ok, all, any, arith, false, is_empty, length, ok, ℕ, ◌↔◌, ◌≡◌, ◌≤◌}
use tmux_rescue.Std.Text.{Text}
use tmux_rescue.Std.Utf8.{chars, is_control, is_whitespace}
use tmux_rescue.Model.Error.{
  max_codex_prompt_bytes, max_diagnostic_bytes, max_name_bytes, refuse_if,
}
use tmux_rescue.Model.Name.{
  CaptureFailure, CapturedCodexPromptArea, CapturedPromptText, failure_from_raw, is_prompt_control,
  is_target_separator, prompt_area_try_new, prompt_text_try_new, session_field, validate_name,
  validate_session_name, validate_window_name,
}

pub record IsPromptText (prompt : CapturedPromptText) : Type 0 where
  pub some_text : is_empty prompt.text ≡ false
  pub some_visible : all is_whitespace (chars prompt.text) ≡ false
  pub fits : length prompt.text ≤ max_codex_prompt_bytes
  pub printable : any is_prompt_control (chars prompt.text) ≡ false

pub record IsFailure (failure : CaptureFailure) : Type 0 where
  pub some_text : is_empty failure.message ≡ false
  pub fits : length failure.message ≤ max_diagnostic_bytes
  pub printable : any is_control (chars failure.message) ≡ false

pub record IsName (name : Text) : Type 0 where
  pub fits : length name ≤ max_name_bytes
  pub printable : any is_control (chars name) ≡ false

pub record IsSessionName (name : Text) : Type 0 where
  pub some_text : is_empty name ≡ false
  pub proper : IsName name
  pub no_separator : any is_target_separator (chars name) ≡ false

pub prompt_text_try_new-IsPromptText :
    (text : Text) (prompt : CapturedPromptText)
    → prompt_text_try_new text ≡ ok prompt
    → IsPromptText prompt × (prompt.text ≡ text)
unfolding prompt_text_try_new
prompt_text_try_new-IsPromptText text prompt h = ground arith

pub prompt_text_try_new-text :
    (prompt : CapturedPromptText)
    → IsPromptText prompt
    → prompt_text_try_new prompt.text ≡ ok prompt
unfolding prompt_text_try_new
prompt_text_try_new-text prompt h = ground arith

pub prompt_area_try_new-IsPromptText :
    (text : Text) (area : CapturedCodexPromptArea)
    → prompt_area_try_new text ≡ ok area
    → IsPromptText area.text × (area.text.text ≡ text)
unfolding prompt_area_try_new
prompt_area_try_new-IsPromptText text area h =
    let (prompt, valid, same) = >>=-eq-ok (prompt_text_try_new text) _ h in
    ground (arith, prompt_text_try_new-IsPromptText text prompt valid)

pub prompt_area_try_new-text :
    (area : CapturedCodexPromptArea)
    → IsPromptText area.text
    → prompt_area_try_new area.text.text ≡ ok area
unfolding prompt_area_try_new
prompt_area_try_new-text area h = rw (prompt_text_try_new-text area.text h)

pub failure_from_raw-IsFailure :
    (message field : Text) (failure : CaptureFailure)
    → failure_from_raw message field ≡ ok failure
    → IsFailure failure × (failure.message ≡ message)
unfolding failure_from_raw
failure_from_raw-IsFailure message field failure h = ground arith

pub failure_from_raw-message :
    (failure : CaptureFailure) (field : Text)
    → IsFailure failure
    → failure_from_raw failure.message field ≡ ok failure
unfolding failure_from_raw
failure_from_raw-message failure field h = ground arith

pub validate_name_iff : (name field : Text) → (validate_name name field ≡ ok tt) ↔ IsName name
unfolding validate_name
validate_name_iff name field = (λ h. ground arith, λ h. ground arith)

pub validate_session_name_iff :
    (name : Text) (position : ℕ)
    → (validate_session_name name position ≡ ok tt) ↔ IsSessionName name
unfolding validate_session_name refuse_if
validate_session_name_iff name position =
    let (valid, accepted) = validate_name_iff name (session_field position) in
    (λ h. ground (arith, valid), λ h. ground (arith, accepted h.proper))

pub validate_window_name_iff :
    (name : Text) (session_position window_position : ℕ)
    → (validate_window_name name session_position window_position ≡ ok tt) ↔ IsName name
unfolding validate_window_name
validate_window_name_iff name session_position window_position = validate_name_iff name _
