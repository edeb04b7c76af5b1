-- ===== src/Model/Recovery.antt =====
-- `AutomaticRecovery` and `PaneRecovery`, with their raw forms.
pub mod Laws
use tmux_rescue.Model.Command
use tmux_rescue.Common.{Option, err, none, ok, some, ◌++◌, ◌>>=◌, ◌>>◌}
use tmux_rescue.Std.Text.{Text, lit}
use tmux_rescue.Model.Codec.{Codecs, Uuid}
use tmux_rescue.Model.Command.{CapturedCommand, RawCapturedCommand}
use tmux_rescue.Model.Error.{Validation, invalid_session_id}
use tmux_rescue.Model.Name.{
  CaptureFailure, CapturedCodexPromptArea, failure_from_raw, prompt_area_try_new,
}

pub record CodexSessionId : Type 0 where
  pub uuid : Uuid

pub record ClaudeSessionId : Type 0 where
  pub uuid : Uuid

pub record RecognizedMdBookServeCommand : Type 0 where
  pub command : CapturedCommand

pub record RecognizedBookshelfServeCommand : Type 0 where
  pub command : CapturedCommand

pub data AutomaticRecovery : Type 0 where
  codex : CodexSessionId → Option CapturedCodexPromptArea → AutomaticRecovery
  claude_code : ClaudeSessionId → AutomaticRecovery
  md_book_serve : RecognizedMdBookServeCommand → AutomaticRecovery
  bookshelf_serve : RecognizedBookshelfServeCommand → AutomaticRecovery

pub data PaneRecovery : Type 0 where
  idle : PaneRecovery
  automatic : AutomaticRecovery → PaneRecovery
  manual : CapturedCommand → PaneRecovery
  unavailable : CaptureFailure → PaneRecovery

pub record RawCapturedCodexPromptArea : Type 0 where
  pub text : Text

pub data RawAutomaticRecovery : Type 0 where
  raw_codex :
      (session_id : Text) (prompt_area : Option RawCapturedCodexPromptArea) → RawAutomaticRecovery
  raw_claude_code : (session_id : Text) → RawAutomaticRecovery
  raw_md_book_serve : RawCapturedCommand → RawAutomaticRecovery
  raw_bookshelf_serve : RawCapturedCommand → RawAutomaticRecovery

pub data RawPaneRecovery : Type 0 where
  raw_idle : RawPaneRecovery
  raw_automatic : RawAutomaticRecovery → RawPaneRecovery
  raw_manual : RawCapturedCommand → RawPaneRecovery
  raw_unavailable : (failure : Text) → RawPaneRecovery

abbrev pub mdbook : Text
mdbook = lit "mdbook"

abbrev pub book : Text
book = lit "book"

-- `RecognizedMdBookServeCommand::recognize`
unfoldable pub recognize_md_book : CapturedCommand → Validation RecognizedMdBookServeCommand
recognize_md_book command = do
  Command.validate_serve_command mdbook command
  ok (record { command = command })

-- `RecognizedBookshelfServeCommand::recognize`
unfoldable pub recognize_bookshelf : CapturedCommand → Validation RecognizedBookshelfServeCommand
recognize_bookshelf command = do
  Command.validate_serve_command book command
  ok (record { command = command })

-- `prompt_area.map(…).transpose()`
validate_prompt_area :
    Option RawCapturedCodexPromptArea → Validation (Option CapturedCodexPromptArea)
validate_prompt_area none = ok none
validate_prompt_area (some raw) = do area ← prompt_area_try_new raw.text; ok (some area)

raw_prompt_area : Option CapturedCodexPromptArea → Option RawCapturedCodexPromptArea
raw_prompt_area none = none
raw_prompt_area (some area) = some (record { text = area.text.text })

module _ (codecs : Codecs) where
  unfoldable pub parse_session_id : Text → Text → Validation Uuid
  parse_session_id tool session_id = elim (codecs.uuid_parse session_id) [
    | some uuid ↦ ok uuid
    | none ↦ err (invalid_session_id tool session_id)
  ]

  unfoldable pub validate_automatic : RawAutomaticRecovery → Text → Validation AutomaticRecovery
  unfolding validate_prompt_area
  validate_automatic (raw_codex session_id prompt_area) field = do
    parsed ← parse_session_id (lit "codex") session_id
    area ← validate_prompt_area prompt_area
    ok (codex (record { uuid = parsed }) area)
  validate_automatic (raw_claude_code session_id) field = do
    parsed ← parse_session_id (lit "claude_code") session_id
    ok (claude_code (record { uuid = parsed }))
  validate_automatic (raw_md_book_serve raw) field = do
    command ← Command.from_raw codecs raw (field ++ lit ".recovery.automatic.command")
    Command.validate_serve_command mdbook command
    ok (md_book_serve (record { command = command }))
  validate_automatic (raw_bookshelf_serve raw) field = do
    command ← Command.from_raw codecs raw (field ++ lit ".recovery.automatic.command")
    Command.validate_serve_command book command
    ok (bookshelf_serve (record { command = command }))

  unfoldable pub validate_recovery : RawPaneRecovery → Text → Validation PaneRecovery
  validate_recovery raw_idle field = ok idle
  validate_recovery (raw_manual raw) field = do
    command ← Command.from_raw codecs raw (field ++ lit ".recovery.command")
    ok (manual command)
  validate_recovery (raw_unavailable message) field = do
    failure ← failure_from_raw message (field ++ lit ".recovery.failure")
    ok (unavailable failure)
  validate_recovery (raw_automatic raw) field = do
    recovery ← validate_automatic raw field
    ok (automatic recovery)

  -- `RawAutomaticRecovery::from`
  unfoldable pub automatic_to_raw : AutomaticRecovery → RawAutomaticRecovery
  unfolding raw_prompt_area
  automatic_to_raw (codex session_id area) =
      raw_codex (codecs.uuid_display session_id.uuid) (raw_prompt_area area)
  automatic_to_raw (claude_code session_id) = raw_claude_code (codecs.uuid_display session_id.uuid)
  automatic_to_raw (md_book_serve recognized) =
      raw_md_book_serve (Command.to_raw codecs recognized.command)
  automatic_to_raw (bookshelf_serve recognized) =
      raw_bookshelf_serve (Command.to_raw codecs recognized.command)

  -- `RawPaneRecovery::from`
  unfoldable pub recovery_to_raw : PaneRecovery → RawPaneRecovery
  recovery_to_raw idle = raw_idle
  recovery_to_raw (manual command) = raw_manual (Command.to_raw codecs command)
  recovery_to_raw (unavailable failure) = raw_unavailable failure.message
  recovery_to_raw (automatic recovery) = raw_automatic (automatic_to_raw recovery)
