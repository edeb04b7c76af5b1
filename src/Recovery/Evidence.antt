-- ===== src/Recovery/Evidence.antt =====
-- The evidence about a pane's foreground processes, and the checks of its constructors.
use tmux_rescue.Common.{
  Bool, List, Option, Result, [], err, if◌then◌else◌, is_empty, length, list_eq, ltb, none, not,
  num_eq, ok, some, ℕ, ◌*◌, ◌==◌, ◌>>◌, ◌||◌, ◌∷◌,
}
use tmux_rescue.Std.Text.{Bytes, Text}
use tmux_rescue.Model.Codec.{Codecs, Uuid}
use tmux_rescue.Model.Command.{CapturedCommand}
use tmux_rescue.Model.OsString.{LosslessOsString, RecordedAbsolutePath}

-- `ProcessExecutableKey` (process.rs)
pub record ProcessExecutableKey : Type 0 where
  pub device : ℕ
  pub inode : ℕ

-- `ObservedExecutable` (process.rs)
pub data ObservedExecutable : Type 0 where
  unpinned_raw : ObservedExecutable
  pinned_linked : (key : ProcessExecutableKey) (link_count : ℕ) → ObservedExecutable
  pinned_unlinked :
      (key : ProcessExecutableKey) (identity_path : LosslessOsString) → ObservedExecutable

-- `ObservedProcessCommand` (process.rs)
pub record ObservedProcessCommand : Type 0 where
  pub command : CapturedCommand
  pub executable : ObservedExecutable

pub data ForegroundEvidenceError : Type 0 where
  zero_process_identity : ForegroundEvidenceError
  duplicate_process_identity : ℕ → ForegroundEvidenceError
  tty_mismatch process_not_in_foreground_group process_is_not_group_leader : ForegroundEvidenceError
  foreground_group_is_not_rooted : ForegroundEvidenceError
  invalid_tool_record_size : (actual maximum : ℕ) → ForegroundEvidenceError
  tool_record_not_held_by_foreground_group tool_record_outside_store : ForegroundEvidenceError
  invalid_tail_session_id : ForegroundEvidenceError

abbrev pub Checked : Type 0 → Type 0
Checked A = Result ForegroundEvidenceError A

unfoldable pub deny_if : Bool → ForegroundEvidenceError → Checked (Unit {0})
deny_if test error = if test then err error else ok tt

pub record ForegroundProcessMember : Type 0 where
  pub process_id : ℕ
  pub parent_process_id : ℕ
  pub process_group : ℕ
  pub process_start_time : ℕ
  pub process_tty : LosslessOsString
  pub command : ObservedProcessCommand
  pub working_directory : RecordedAbsolutePath

-- `ForegroundProcessMember::try_new_observed`
pub member_try_new : ForegroundProcessMember → Checked ForegroundProcessMember
member_try_new member = do
  deny_if
      (member.process_id == 0
        || member.parent_process_id == 0
        || member.process_group == 0
        || member.process_start_time == 0)
      zero_process_identity
  ok member

abbrev pub max_tool_record_bytes : ℕ
max_tool_record_bytes = 64 * 1024

-- The check of both `OpenedCodexSessionFile::try_new` and `OpenedClaudeSessionFile::try_new`.
pub check_record : ℕ → Bytes → Checked (Unit {0})
check_record holder bytes = do
  deny_if (holder == 0) zero_process_identity
  deny_if (is_empty bytes || ltb max_tool_record_bytes (length bytes))
      (invalid_tool_record_size (length bytes) max_tool_record_bytes)

pub record OpenedCodexSessionFile : Type 0 where
  pub holder_process_id : ℕ
  pub device : ℕ
  pub inode : ℕ
  pub path : RecordedAbsolutePath
  pub first_record : Bytes

pub codex_file_try_new : OpenedCodexSessionFile → Checked OpenedCodexSessionFile
codex_file_try_new file = do check_record file.holder_process_id file.first_record; ok file

pub record OpenedClaudeSessionFile : Type 0 where
  pub holder_process_id : ℕ
  pub path : RecordedAbsolutePath
  pub tool_record : Bytes

pub claude_file_try_new : OpenedClaudeSessionFile → Checked OpenedClaudeSessionFile
claude_file_try_new file = do check_record file.holder_process_id file.tool_record; ok file

pub data SessionTool : Type 0 where
  codex_tool claude_code_tool : SessionTool

pub record ToolAttributedTailSession : Type 0 where
  pub tool : SessionTool
  pub session_id : Uuid

pub tail_try_new : Codecs → SessionTool → Text → Checked ToolAttributedTailSession
tail_try_new codecs tool session_id = elim (codecs.uuid_parse session_id) [
  | none ↦ err invalid_tail_session_id
  | some uuid ↦ ok (record { tool = tool; session_id = uuid })
]

-- `CodexSessionEvidence` and `ClaudeSessionEvidence` are their lists of files.
pub record PaneTiedForegroundEvidence : Type 0 where
  pub command : ObservedProcessCommand
  pub pane_working_directory : RecordedAbsolutePath
  pub pane_tty : LosslessOsString
  pub process_tty : LosslessOsString
  pub foreground_process_group : ℕ
  pub process_id : ℕ
  pub process_group : ℕ
  pub process_start_time : ℕ
  pub members : List ForegroundProcessMember
  pub codex_session_evidence : Option (List OpenedCodexSessionFile)
  pub claude_session_evidence : Option (List OpenedClaudeSessionFile)
  pub tail_session : Option ToolAttributedTailSession

-- `PaneTiedForegroundEvidence::try_new_observed`
unfoldable pub evidence_try_new :
    ObservedProcessCommand
    → RecordedAbsolutePath
    → (pane_tty process_tty : LosslessOsString)
      (foreground_process_group process_id process_group process_start_time : ℕ)
    → Checked PaneTiedForegroundEvidence
evidence_try_new command directory pane_tty process_tty foreground process group start = do
  deny_if (foreground == 0 || process == 0 || group == 0 || start == 0) zero_process_identity
  deny_if (not (pane_tty.bytes == process_tty.bytes)) tty_mismatch
  deny_if (not (group == foreground)) process_not_in_foreground_group
  deny_if (not (process == group)) process_is_not_group_leader
  ok (record {
    command = command;
    pane_working_directory = directory;
    pane_tty = pane_tty;
    process_tty = process_tty;
    foreground_process_group = foreground;
    process_id = process;
    process_group = group;
    process_start_time = start;
    members = [];
    codex_session_evidence = none;
    claude_session_evidence = none;
    tail_session = none;
  })

pub with_tail_session :
    PaneTiedForegroundEvidence → ToolAttributedTailSession → PaneTiedForegroundEvidence
with_tail_session evidence tail = record evidence { tail_session = some tail }

-- `process_start_time_for`
unfoldable pub process_start_time_for : PaneTiedForegroundEvidence → ℕ → Option ℕ
process_start_time_for evidence process =
    if process == evidence.process_id
    then some evidence.process_start_time
    else find_start evidence.members
  where
    find_start : List ForegroundProcessMember → Option ℕ
    find_start [] = none
    find_start (member ∷ members) =
        if member.process_id == process then some member.process_start_time else find_start members
