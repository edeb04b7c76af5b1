-- ===== src/Recovery/Claude/Evidence.antt =====
-- What the arguments and the records of Claude processes say, told without the scans: identity flags
-- with well-formed values, and current records.
use tmux_rescue.Common.{
  Bool, Bool-cases, List, Option, [], ap, contains, false, inl, inr, list_eq, map, none, num_eq,
  refl, some, true, ℕ, ◌++◌, ◌∷◌, ◌≡◌, ◌⊎◌,
}
use tmux_rescue.Std.Text.{Bytes, lit}
use tmux_rescue.Std.Utf8.{is_utf8}
use tmux_rescue.Model.Codec.{Codecs, Uuid}
use tmux_rescue.Model.Command.{CapturedCommand}
use tmux_rescue.Model.OsString.{LosslessOsString}
use tmux_rescue.Recovery.Claude.{behind_first, is_claude_tui}
use tmux_rescue.Recovery.Claude.Current.{IsCurrent}
use tmux_rescue.Recovery.Claude.Resolve.{claude_commands_of}
use tmux_rescue.Recovery.Evidence.{OpenedClaudeSessionFile, PaneTiedForegroundEvidence}
use tmux_rescue.Recovery.Outcome.{RecordParsers}

abbrev pub IsSeparateFlag : Bytes → Type 0
IsSeparateFlag argument =
    (argument ≡ lit "--session-id") ⊎ (argument ≡ lit "--resume") ⊎ (argument ≡ lit "-r")

-- A flag and its value in one argument.
abbrev pub IsInlineFlag : Bytes → Bytes → Type 0
IsInlineFlag argument value =
    (argument ≡ lit "--session-id=" ++ value) ⊎ (argument ≡ lit "--resume=" ++ value)

module _ (codecs : Codecs) where
  -- A value that is a UUID in UTF-8.
  abbrev pub IsIdentity : Bytes → Uuid → Type 0
  IsIdentity value session_id = (is_utf8 value ≡ true) × (codecs.uuid_parse value ≡ some session_id)

  -- The sessions that the identity flags in front of a `--` name, each with a well-formed value.
  pub data FlagsName : List LosslessOsString → List Uuid → Type 0 where
    no_arguments : FlagsName [] []
    dashes :
        {argument : LosslessOsString} {rest : List LosslessOsString}
        → argument.bytes ≡ lit "--"
        → FlagsName (argument ∷ rest) []
    separate_flag :
        {argument value : LosslessOsString} {rest : List LosslessOsString} {session_id : Uuid}
        {session_ids : List Uuid}
        → IsSeparateFlag argument.bytes
        → IsIdentity value.bytes session_id
        → FlagsName rest session_ids
        → FlagsName (argument ∷ value ∷ rest) (session_id ∷ session_ids)
    inline_flag :
        {argument : LosslessOsString} {value : Bytes} {rest : List LosslessOsString}
        {session_id : Uuid} {session_ids : List Uuid}
        → IsInlineFlag argument.bytes value
        → IsIdentity value session_id
        → FlagsName rest session_ids
        → FlagsName (argument ∷ rest) (session_id ∷ session_ids)
    other_argument :
        {argument : LosslessOsString} {rest : List LosslessOsString} {session_ids : List Uuid}
        → ¬ (argument.bytes ≡ lit "--")
        → ¬ IsSeparateFlag argument.bytes
        → ((value : Bytes) → ¬ IsInlineFlag argument.bytes value)
        → FlagsName rest session_ids
        → FlagsName (argument ∷ rest) session_ids

  -- The same of several commands, one behind the other.
  pub data CommandsName : List (ℕ × CapturedCommand) → List Uuid → Type 0 where
    no_commands : CommandsName [] []
    with_command :
        {process : ℕ} {command : CapturedCommand} {commands : List (ℕ × CapturedCommand)}
        {session_ids others : List Uuid}
        → FlagsName (behind_first command.argv) session_ids
        → CommandsName commands others
        → CommandsName ((process, command) ∷ commands) (session_ids ++ others)

  module _ (parsers : RecordParsers) (evidence : PaneTiedForegroundEvidence)
      (commands : List (ℕ × CapturedCommand)) where
    -- A process of one of the commands holds the file.
    abbrev pub is_held : OpenedClaudeSessionFile → Bool
    is_held file = contains (map (λ command. command.0) commands) file.holder_process_id

    -- The sessions that the files of these processes name, each with a current record.
    pub data RecordsName : List OpenedClaudeSessionFile → List Uuid → Type 0 where
      no_files : RecordsName [] []
      not_held :
          {file : OpenedClaudeSessionFile} {files : List OpenedClaudeSessionFile}
          {session_ids : List Uuid}
          → is_held file ≡ false
          → RecordsName files session_ids
          → RecordsName (file ∷ files) session_ids
      current_record :
          {file : OpenedClaudeSessionFile} {files : List OpenedClaudeSessionFile}
          {session_id : Uuid} {session_ids : List Uuid}
          → is_held file ≡ true
          → IsCurrent codecs parsers evidence file session_id
          → RecordsName files session_ids
          → RecordsName (file ∷ files) (session_id ∷ session_ids)

    -- Files that were not found name nothing.
    abbrev pub KnownRecordsName : Option (List OpenedClaudeSessionFile) → List Uuid → Type 0
    KnownRecordsName none session_ids = session_ids ≡ []
    KnownRecordsName (some files) session_ids = RecordsName files session_ids

-- The commands of interactive Claude sessions among all, in order.
pub data ClaudeCommands : (commands claude : List (ℕ × CapturedCommand)) → Type 0 where
  no_claude : ClaudeCommands [] []
  claude_tui :
      {process : ℕ} {command : CapturedCommand} {commands claude : List (ℕ × CapturedCommand)}
      → is_claude_tui command ≡ true
      → ClaudeCommands commands claude
      → ClaudeCommands ((process, command) ∷ commands) ((process, command) ∷ claude)
  other_command :
      {process : ℕ} {command : CapturedCommand} {commands claude : List (ℕ × CapturedCommand)}
      → is_claude_tui command ≡ false
      → ClaudeCommands commands claude
      → ClaudeCommands ((process, command) ∷ commands) claude

pub claude_commands_of-ClaudeCommands :
    (commands : List (ℕ × CapturedCommand)) → ClaudeCommands commands (claude_commands_of commands)
unfolding claude_commands_of
claude_commands_of-ClaudeCommands [] = no_claude
claude_commands_of-ClaudeCommands ((process, command) ∷ commands) =
    let rest = claude_commands_of-ClaudeCommands commands in
    elim (Bool-cases (is_claude_tui command)) [
      | inl tui ↦ rw (tui, claude_commands_of) (claude_tui tui rest)
      | inr other ↦ rw (other, claude_commands_of) (other_command other rest)
    ]

pub ClaudeCommands-claude_commands_of :
    (commands claude : List (ℕ × CapturedCommand))
    → ClaudeCommands commands claude
    → claude ≡ claude_commands_of commands
unfolding claude_commands_of
ClaudeCommands-claude_commands_of _ _ no_claude = refl
ClaudeCommands-claude_commands_of _ _
      (claude_tui {process = process} {command = command} {commands = commands} {claude = claude}
        tui rest) =
    rw (tui, claude_commands_of)
      (ap (λ l. (process, command) ∷ l) (ClaudeCommands-claude_commands_of commands claude rest))
ClaudeCommands-claude_commands_of _ _
      (other_command {command = command} {commands = commands} {claude = claude} other rest) =
    rw (other, claude_commands_of) (ClaudeCommands-claude_commands_of commands claude rest)
