-- ===== src/Recovery/Codex.antt =====
-- `resolve_codex`: the session file that says which Codex session runs in a pane.
pub mod Unique
pub mod Resolved
use tmux_rescue.Common.{
  Bool, List, Option, Result, [], any, contains, err, false, if◌then◌else◌, is_empty, list_eq, none,
  not, num_eq, ok, some, suc, true, zero, ℕ, ◌&&◌, ◌++◌, ◌+◌, ◌==◌, ◌||◌, ◌∷◌,
}
use tmux_rescue.Std.Text.{Bytes, Text, lit}
use tmux_rescue.Std.Utf8.{is_utf8}
use tmux_rescue.Model.Codec.{Codecs, Uuid}
use tmux_rescue.Model.Command.{first_is_named, is_named}
use tmux_rescue.Model.OsString.{LosslessOsString}
use tmux_rescue.Model.Recovery.{codex}
use tmux_rescue.Recovery.Claude.{behind_first}
use tmux_rescue.Recovery.Evidence.{
  ObservedProcessCommand, OpenedCodexSessionFile, PaneTiedForegroundEvidence,
}
use tmux_rescue.Recovery.Outcome.{
  CodexSessionMeta, RecordParsers, ResolverOutcome, automatic_outcome, conflicting,
  executable_identity_basename, insufficient, not_recognized, observed_process_commands,
}

abbrev is_background_subcommand : LosslessOsString → Bool
is_background_subcommand argument =
    argument.bytes == lit "app-server"
    || argument.bytes == lit "exec"
    || argument.bytes == lit "mcp-server"

-- `argv` is not empty, so that `argv()[1..]` does not panic.
unfoldable pub is_codex_tui : ObservedProcessCommand → Bool
is_codex_tui observed =
    is_named (lit "codex") (executable_identity_basename observed)
    && first_is_named (lit "codex") observed.command.argv
    && not (any is_background_subcommand (behind_first observed.command.argv))

unfoldable pub codex_processes_of : List (ℕ × ObservedProcessCommand) → List ℕ
codex_processes_of [] = []
codex_processes_of ((process, observed) ∷ commands) =
    let others = codex_processes_of commands in
    if is_codex_tui observed then process ∷ others else others

-- `codex_processes`
abbrev pub codex_processes : PaneTiedForegroundEvidence → List ℕ
codex_processes evidence = codex_processes_of (observed_process_commands evidence)

-- `HashSet<(u64, u64)>::contains`
abbrev pub has_identity : List (ℕ × ℕ) → ℕ → ℕ → Bool
has_identity [] device inode = false
has_identity ((d, i) ∷ identities) device inode =
    d == device && i == inode || has_identity identities device inode

abbrev pub has_parent : Option Text → Bool
has_parent none = false
has_parent (some _) = true

-- The record of a session that the user started in this directory.
unfoldable pub is_root_session : Text → CodexSessionMeta → Bool
is_root_session pane_cwd meta = not (
    not (meta.kind == lit "session_meta")
    || not (meta.payload.originator == lit "codex-tui")
    || not (meta.payload.thread_source == lit "user")
    || not (meta.payload.cwd == pane_cwd)
    || has_parent meta.payload.parent_thread_id)

-- `matching_candidates` and `session_ids`, the latest first.
pub record Candidates : Type 0 where
  pub matching_candidates : ℕ
  pub session_ids : List Uuid

-- `matching_candidates += 1; session_ids.insert(session_id)`
unfoldable pub add_candidate : Candidates → Uuid → Candidates
add_candidate found session_id = record {
  matching_candidates = found.matching_candidates + 1;
  session_ids =
      if contains found.session_ids session_id
      then found.session_ids
      else session_id ∷ found.session_ids;
}

-- What one record of a new file does to the loop: `continue`, a candidate, or an early return.
pub data RecordVerdict : Type 0 where
  passed_over : RecordVerdict
  candidate : Uuid → RecordVerdict
  gives_up : ResolverOutcome → RecordVerdict

-- `expect("set length is one")` does not fail: one candidate left one identity.
unfoldable pub codex_outcome : (matching_candidates : ℕ) (session_ids : List Uuid) → ResolverOutcome
codex_outcome zero _ =
    insufficient (lit "Codex has no exact root session matching the pane directory")
codex_outcome (suc zero) (session_id ∷ _) =
    automatic_outcome (codex (record { uuid = session_id }) none)
codex_outcome (suc zero) [] = not_recognized
codex_outcome (suc (suc _)) _ = conflicting (lit "Codex has multiple exact root session candidates")

unfoldable pub no_candidates : Candidates
no_candidates = record { matching_candidates = 0; session_ids = [] }

abbrev pub scanned_outcome : Result ResolverOutcome Candidates → ResolverOutcome
scanned_outcome (ok found) = codex_outcome found.matching_candidates found.session_ids
scanned_outcome (err outcome) = outcome

module _ (codecs : Codecs) (parsers : RecordParsers) where
  unfoldable pub examine_codex_record : Text → OpenedCodexSessionFile → RecordVerdict
  examine_codex_record pane_cwd file = elim (parsers.codex_meta file.first_record) [
    | err error ↦ gives_up (insufficient (lit "Codex session metadata is unparseable: " ++ error))
    | ok meta ↦
        if is_root_session pane_cwd meta
        then (elim (codecs.uuid_parse meta.payload.id) [
          | some session_id ↦ candidate session_id
          | none ↦ gives_up (insufficient (lit "Codex payload.id is not a UUID"))
        ])
        else passed_over
  ]

  -- The loop over the files, from the identities seen so far; the error is an early return.
  unfoldable pub scan_codex_files :
      List ℕ
      → Text
      → List (ℕ × ℕ)
      → Candidates
      → List OpenedCodexSessionFile
      → Result ResolverOutcome Candidates
  scan_codex_files processes pane_cwd seen found [] = ok found
  scan_codex_files processes pane_cwd seen found (file ∷ files) =
      let skipped = scan_codex_files processes pane_cwd seen found files in
      let inserted = (file.device, file.inode) ∷ seen in
      if not (contains processes file.holder_process_id)
      then skipped
      else if has_identity seen file.device file.inode
      then skipped
      else (elim (examine_codex_record pane_cwd file) [
        | passed_over ↦ scan_codex_files processes pane_cwd inserted found files
        | candidate session_id ↦
            scan_codex_files processes pane_cwd inserted (add_candidate found session_id) files
        | gives_up outcome ↦ err outcome
      ])

  -- What is left to do once a Codex TUI runs in the group.
  unfoldable pub resolve_codex_files :
      List ℕ → Bytes → Option (List OpenedCodexSessionFile) → ResolverOutcome
  resolve_codex_files processes directory none =
      insufficient (lit "Codex has no opened session-file evidence")
  resolve_codex_files processes directory (some files) =
      if is_utf8 directory
      then scanned_outcome (scan_codex_files processes directory [] no_candidates files)
      else insufficient (lit "Codex JSON metadata cannot match a non-UTF-8 pane directory")

  unfoldable pub resolve_codex : PaneTiedForegroundEvidence → Option ResolverOutcome
  resolve_codex evidence =
      if is_empty (codex_processes evidence)
      then none
      else some (
          resolve_codex_files (codex_processes evidence) evidence.pane_working_directory.path.bytes
            evidence.codex_session_evidence)
