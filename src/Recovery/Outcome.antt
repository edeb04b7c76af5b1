-- ===== src/Recovery/Outcome.antt =====
-- `ResolverOutcome`, the records that the tools write, and the commands of a foreground group.
use tmux_rescue.Common.{List, Option, Result, list_eq, map, num_eq, ℕ, ◌∷◌}
use tmux_rescue.Std.Path.{file_name}
use tmux_rescue.Std.Text.{Bytes, Text}
use tmux_rescue.Model.Command.{CapturedCommand}
use tmux_rescue.Model.Recovery.{AutomaticRecovery, PaneRecovery}
use tmux_rescue.Recovery.Evidence.{
  ForegroundProcessMember, ObservedProcessCommand, PaneTiedForegroundEvidence, pinned_linked,
  pinned_unlinked, unpinned_raw,
}

pub data ResolverFailure : Type 0 where
  insufficient_failure conflicting_failure : (reason : Text) → ResolverFailure

pub data ResolverOutcome : Type 0 where
  automatic_outcome : AutomaticRecovery → ResolverOutcome
  not_recognized : ResolverOutcome
  insufficient_evidence conflicting_evidence : ResolverFailure → ResolverOutcome

pub record PaneClassification : Type 0 where
  pub recovery : PaneRecovery
  pub resolver_outcome : ResolverOutcome

abbrev pub insufficient : Text → ResolverOutcome
insufficient reason = insufficient_evidence (insufficient_failure reason)

abbrev pub conflicting : Text → ResolverOutcome
conflicting reason = conflicting_evidence (conflicting_failure reason)

pub record CodexSessionMetaPayload : Type 0 where
  pub id : Text
  pub originator : Text
  pub thread_source : Text
  pub cwd : Text
  pub parent_thread_id : Option Text

pub record CodexSessionMeta : Type 0 where
  pub kind : Text
  pub payload : CodexSessionMetaPayload

-- The one variant, `Pty`, with its field.
pub record ClaudeTransportRecord : Type 0 where
  pub identity : Text

pub record ClaudeSessionRecord : Type 0 where
  pub pid : ℕ
  pub session_id : Text
  pub cwd : Text
  pub proc_start : Text
  pub kind : Text
  pub transport : ClaudeTransportRecord

-- `serde_json::from_slice` at the two record types, with the text of its error.
pub record RecordParsers : Type 0 where
  pub codex_meta : Bytes → Result Text CodexSessionMeta
  pub claude_record : Bytes → Result Text ClaudeSessionRecord

-- `executable_identity_basename` (process.rs)
unfoldable pub executable_identity_basename : ObservedProcessCommand → Option Bytes
executable_identity_basename observed = elim observed.executable [
  | unpinned_raw ↦ file_name observed.command.executable.bytes
  | pinned_linked _ _ ↦ file_name observed.command.executable.bytes
  | pinned_unlinked _ identity_path ↦ file_name identity_path.bytes
]

abbrev member_command : ForegroundProcessMember → ℕ × ObservedProcessCommand
member_command member = (member.process_id, member.command)

-- `observed_process_commands`
unfoldable pub observed_process_commands :
    PaneTiedForegroundEvidence → List (ℕ × ObservedProcessCommand)
observed_process_commands evidence =
    (evidence.process_id, evidence.command) ∷ map member_command evidence.members

abbrev plain_command : ℕ × ObservedProcessCommand → ℕ × CapturedCommand
plain_command (process, observed) = (process, observed.command)

-- `process_commands`
unfoldable pub process_commands : PaneTiedForegroundEvidence → List (ℕ × CapturedCommand)
process_commands evidence = map plain_command (observed_process_commands evidence)
