-- ===== src/Recovery/Claude/Resolve.antt =====
-- `resolve_claude`: the session that the arguments and the records of Claude processes name.
use tmux_rescue.Common.{
  Bool, List, Option, [], contains, err, false, if◌then◌else◌, is_empty, length, list_eq, ltb, map,
  none, not, num_eq, ok, some, true, ℕ, ◌++◌, ◌==◌, ◌||◌, ◌∷◌,
}
use tmux_rescue.Std.Number.{parse_u64}
use tmux_rescue.Std.Text.{Bytes, lit, strip_prefix}
use tmux_rescue.Std.Utf8.{is_utf8}
use tmux_rescue.Model.Codec.{Codecs, Uuid}
use tmux_rescue.Model.Command.{CapturedCommand}
use tmux_rescue.Model.OsString.{LosslessOsString}
use tmux_rescue.Model.Recovery.{claude_code}
use tmux_rescue.Recovery.Claude.{behind_first, is_claude_tui}
use tmux_rescue.Recovery.Evidence.{
  OpenedClaudeSessionFile, PaneTiedForegroundEvidence, process_start_time_for,
}
use tmux_rescue.Recovery.Outcome.{
  ClaudeSessionRecord, RecordParsers, ResolverOutcome, automatic_outcome, conflicting, insufficient,
  process_commands,
}

-- `saw_identity_flag`, `invalid_identity` and `argv_candidates`.
pub record ArgvIdentity : Type 0 where
  pub saw_identity_flag : Bool
  pub invalid_identity : Bool
  pub argv_candidates : List Uuid

-- A flag was seen, with its value as it was parsed.
unfoldable pub saw_identity : ArgvIdentity → Option Uuid → ArgvIdentity
saw_identity found (some session_id) = record found {
  saw_identity_flag = true;
  argv_candidates = found.argv_candidates ++ session_id ∷ [];
}
saw_identity found none = record found { saw_identity_flag = true; invalid_identity = true }

abbrev pub is_separate_flag : Bytes → Bool
is_separate_flag argument =
    argument == lit "--session-id" || argument == lit "--resume" || argument == lit "-r"

-- `strip_prefix(b"--session-id=").or_else(|| strip_prefix(b"--resume="))`
unfoldable pub equals_value : Bytes → Option Bytes
equals_value argument = elim (strip_prefix argument (lit "--session-id=")) [
  | some value ↦ some value
  | none ↦ strip_prefix argument (lit "--resume=")
]

-- `invalid_record` and `record_candidates`.
pub record RecordIdentity : Type 0 where
  pub invalid_record : Bool
  pub record_candidates : List Uuid

unfoldable pub same_start : Option ℕ → Option ℕ → Bool
same_start none none = true
same_start (some a) (some b) = a == b
same_start _ _ = false

abbrev pub no_argv_identity : ArgvIdentity
no_argv_identity = record {
  saw_identity_flag = false;
  invalid_identity = false;
  argv_candidates = [];
}

abbrev pub no_record_identity : RecordIdentity
no_record_identity = record { invalid_record = false; record_candidates = [] }

unfoldable pub claude_commands_of : List (ℕ × CapturedCommand) → List (ℕ × CapturedCommand)
claude_commands_of [] = []
claude_commands_of ((process, command) ∷ commands) =
    let others = claude_commands_of commands in
    if is_claude_tui command then (process, command) ∷ others else others

-- `commands`
abbrev pub claude_commands : PaneTiedForegroundEvidence → List (ℕ × CapturedCommand)
claude_commands evidence = claude_commands_of (process_commands evidence)

abbrev process_of : ℕ × CapturedCommand → ℕ
process_of (process, command) = process

-- `claude_processes`
abbrev pub claude_processes : PaneTiedForegroundEvidence → List ℕ
claude_processes evidence = map process_of (claude_commands evidence)

module _ (codecs : Codecs) where
  -- `str::from_utf8(…).ok().and_then(|value| Uuid::parse_str(value).ok())`
  unfoldable pub parse_identity : Bytes → Option Uuid
  parse_identity value = if is_utf8 value then codecs.uuid_parse value else none

  -- One argument that is not `--` and takes no separate value.
  unfoldable pub scan_single : ArgvIdentity → Bytes → ArgvIdentity
  unfolding equals_value
  scan_single found argument = elim (equals_value argument) [
    | some value ↦ saw_identity found (parse_identity value)
    | none ↦ found
  ]

  -- The loop over the arguments from `index` on.
  unfoldable pub scan_arguments : ArgvIdentity → List LosslessOsString → ArgvIdentity
  scan_arguments found [] = found
  scan_arguments found (argument ∷ []) =
      if argument.bytes == lit "--"
      then found
      else if is_separate_flag argument.bytes
      then saw_identity found none
      else scan_single found argument.bytes
  scan_arguments found (argument ∷ value ∷ rest) =
      let behind_value = scan_arguments (saw_identity found (parse_identity value.bytes)) rest in
      let next = scan_arguments (scan_single found argument.bytes) (value ∷ rest) in
      if argument.bytes == lit "--"
      then found
      else if is_separate_flag argument.bytes
      then behind_value
      else next

  unfoldable pub scan_commands : ArgvIdentity → List (ℕ × CapturedCommand) → ArgvIdentity
  scan_commands found [] = found
  scan_commands found ((process, command) ∷ commands) =
      scan_commands (scan_arguments found (behind_first command.argv)) commands

  module _ (parsers : RecordParsers) (evidence : PaneTiedForegroundEvidence) where
    -- The condition that makes a parsed record stale, apart from its session identifier.
    unfoldable pub is_stale_record : OpenedClaudeSessionFile → ClaudeSessionRecord → Bool
    unfolding same_start
    is_stale_record file parsed =
        not (parsed.pid == file.holder_process_id)
        || not (parsed.kind == lit "interactive")
        || not (parsed.cwd == evidence.pane_working_directory.path.bytes)
        || not (
            same_start (parse_u64 parsed.proc_start)
              (process_start_time_for evidence file.holder_process_id))
        || not (parsed.transport.identity == evidence.pane_tty.bytes)

    -- The session that the record of a held file names; none makes the record invalid.
    unfoldable pub claude_record_session : OpenedClaudeSessionFile → Option Uuid
    claude_record_session file = elim (parsers.claude_record file.tool_record) [
      | err _ ↦ none
      | ok parsed ↦
          if is_stale_record file parsed then none else codecs.uuid_parse parsed.session_id
    ]

    abbrev pub add_record : RecordIdentity → Option Uuid → RecordIdentity
    add_record found none = record found { invalid_record = true }
    add_record found (some session_id) = record found {
      record_candidates = found.record_candidates ++ session_id ∷ [];
    }

    unfoldable pub scan_claude_files :
        RecordIdentity → List OpenedClaudeSessionFile → RecordIdentity
    scan_claude_files found [] = found
    scan_claude_files found (file ∷ files) =
        let skipped = scan_claude_files found files in
        let next = scan_claude_files (add_record found (claude_record_session file)) files in
        if not (contains (claude_processes evidence) file.holder_process_id) then skipped else next

    unfoldable pub scan_known_files : Option (List OpenedClaudeSessionFile) → RecordIdentity
    scan_known_files none = no_record_identity
    scan_known_files (some files) = scan_claude_files no_record_identity files

    unfoldable pub scan_claude_evidence : RecordIdentity
    scan_claude_evidence = scan_known_files evidence.claude_session_evidence

-- `into_iter().next()`
abbrev pub first_of : List Uuid → Option Uuid
first_of [] = none
first_of (session_id ∷ _) = some session_id

abbrev claude_session : Uuid → ResolverOutcome
claude_session session_id = automatic_outcome (claude_code (record { uuid = session_id }))

-- The candidates of the arguments and of the records, at most one each.
unfoldable pub agreed_session : Bool → Option Uuid → Option Uuid → ResolverOutcome
agreed_session saw_flag (some argv) (some recorded_id) =
    if argv == recorded_id
    then claude_session argv
    else conflicting (lit "Claude argv and process record identify different sessions")
agreed_session saw_flag (some argv) none = claude_session argv
agreed_session saw_flag none (some recorded_id) = claude_session recorded_id
agreed_session saw_flag none none =
    if saw_flag
    then insufficient (lit "Claude identity flag does not contain an exact UUID")
    else insufficient (lit "Claude has no exact argv or interactive process-record session UUID")

-- The checks behind the two loops.
unfoldable pub claude_outcome : ArgvIdentity → RecordIdentity → ResolverOutcome
unfolding agreed_session
claude_outcome argv records =
    if ltb 1 (length argv.argv_candidates) || ltb 1 (length records.record_candidates)
    then conflicting (lit "Claude evidence contains multiple exact session candidates")
    else if argv.invalid_identity || records.invalid_record
    then insufficient (lit "Claude evidence is incomplete, stale, or malformed")
    else agreed_session argv.saw_identity_flag (first_of argv.argv_candidates)
        (first_of records.record_candidates)

unfoldable pub resolve_claude :
    Codecs → RecordParsers → PaneTiedForegroundEvidence → Option ResolverOutcome
resolve_claude codecs parsers evidence =
    if is_empty (claude_commands evidence)
    then none
    else some (
        claude_outcome (scan_commands codecs no_argv_identity (claude_commands evidence))
          (scan_claude_evidence codecs parsers evidence))
