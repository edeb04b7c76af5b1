-- ===== src/Recovery/Classify/Valid.antt =====
-- The session identifiers that the evidence of a pane names have 128 bits.
use tmux_rescue.Common.{
  All, All-append, Bool-cases, List, Option-cases, Result-cases, [], if_both, inl, inr, list_eq,
  none, num_eq, some, ℕ, ◌<◌, ◌==◌, ◌^◌, ◌∷◌, ◌≡◌,
}
use tmux_rescue.Std.Text.{Bytes, Text, lit}
use tmux_rescue.Std.Utf8.{is_utf8}
use tmux_rescue.Model.Codec.{CodecLaws, Codecs, Uuid}
use tmux_rescue.Model.Command.{CapturedCommand}
use tmux_rescue.Model.OsString.{LosslessOsString}
use tmux_rescue.Recovery.Claude.{behind_first}
use tmux_rescue.Recovery.Claude.Agreed.{NamesOnly, by_argv, by_both, by_record}
use tmux_rescue.Recovery.Claude.Current.{HasCurrentRecord}
use tmux_rescue.Recovery.Claude.Resolve.{
  ArgvIdentity, equals_value, is_separate_flag, parse_identity, saw_identity, scan_arguments,
  scan_commands, scan_single,
}
use tmux_rescue.Recovery.Codex.{candidate, examine_codex_record, is_root_session}
use tmux_rescue.Recovery.Codex.Unique.{HasOneCandidate, first_file, later_file}
use tmux_rescue.Recovery.Evidence.{OpenedCodexSessionFile, PaneTiedForegroundEvidence}
use tmux_rescue.Recovery.Outcome.{RecordParsers}

module _ (codecs : Codecs) (laws : CodecLaws codecs) (parsers : RecordParsers) where
  abbrev pub IsUuid : Uuid → Type 0
  IsUuid uuid = uuid < 2 ^ 128

  examine_codex_record-IsUuid :
      (pane_cwd : Text) (file : OpenedCodexSessionFile) (session_id : Uuid)
      → examine_codex_record codecs parsers pane_cwd file ≡ candidate session_id
      → IsUuid session_id
  unfolding examine_codex_record
  examine_codex_record-IsUuid pane_cwd file session_id h =
      elim (Result-cases (parsers.codex_meta file.first_record)) [
        | inr (error, unparsed) ↦ let never = rw (unparsed, examine_codex_record) at h in cc
        | inl (meta, parsed) ↦ elim (Bool-cases (is_root_session pane_cwd meta)) [
          | inr other ↦ let never = rw (parsed, other, examine_codex_record) at h in cc
          | inl root ↦ elim (Option-cases (codecs.uuid_parse meta.payload.id)) [
            | inl no_uuid ↦ let never = rw (parsed, root, no_uuid, examine_codex_record) at h in cc
            | inr (uuid, well) ↦
                let same = rw (parsed, root, well, examine_codex_record) at h in
                let equal : uuid ≡ session_id = cc in
                rw (← equal) (laws.uuid_in_range meta.payload.id uuid well)
          ]
        ]
      ]

  pub HasOneCandidate-IsUuid :
      (pane_cwd : Text) (session_id : Uuid) (files : List OpenedCodexSessionFile)
      → HasOneCandidate codecs parsers pane_cwd session_id files
      → IsUuid session_id
  HasOneCandidate-IsUuid pane_cwd session_id [] one = elim one [ ]
  HasOneCandidate-IsUuid pane_cwd session_id (file ∷ files) (first_file named _) =
      examine_codex_record-IsUuid pane_cwd file session_id named
  HasOneCandidate-IsUuid pane_cwd session_id (file ∷ files) (later_file _ one) =
      HasOneCandidate-IsUuid pane_cwd session_id files one

  parse_identity-IsUuid :
      (value : Bytes) (uuid : Uuid) → parse_identity codecs value ≡ some uuid → IsUuid uuid
  unfolding parse_identity
  parse_identity-IsUuid value uuid h = elim (Bool-cases (is_utf8 value)) [
    | inl text ↦ laws.uuid_in_range value uuid (rw (text, parse_identity) at h)
    | inr other ↦ let never = rw (other, parse_identity) at h in cc
  ]

  abbrev pub AreUuids : ArgvIdentity → Type 0
  AreUuids found = All IsUuid found.argv_candidates

  saw_identity-AreUuids :
      (found : ArgvIdentity) (value : Bytes)
      → AreUuids found
      → AreUuids (saw_identity found (parse_identity codecs value))
  unfolding saw_identity
  saw_identity-AreUuids found value h = elim (Option-cases (parse_identity codecs value)) [
    | inl unparsed ↦ rw unparsed h
    | inr (uuid, parsed) ↦ rw parsed (
        All-append IsUuid found.argv_candidates (uuid ∷ []) h
          (parse_identity-IsUuid value uuid parsed, tt))
  ]

  scan_single-AreUuids :
      (found : ArgvIdentity) (argument : Bytes)
      → AreUuids found
      → AreUuids (scan_single codecs found argument)
  unfolding scan_single
  scan_single-AreUuids found argument h = elim (Option-cases (equals_value argument)) [
    | inl plain ↦ rw (plain, scan_single) h
    | inr (value, cut) ↦ rw (cut, scan_single) (saw_identity-AreUuids found value h)
  ]

  no_value-AreUuids : (found : ArgvIdentity) → AreUuids found → AreUuids (saw_identity found none)
  unfolding saw_identity
  no_value-AreUuids found h = h

  scan_arguments-AreUuids :
      (arguments : List LosslessOsString) (found : ArgvIdentity)
      → AreUuids found
      → AreUuids (scan_arguments codecs found arguments)
  unfolding scan_arguments
  scan_arguments-AreUuids [] found h = h
  scan_arguments-AreUuids (argument ∷ []) found h =
      if_both AreUuids (argument.bytes == lit "--") h (
        if_both AreUuids (is_separate_flag argument.bytes) (no_value-AreUuids found h)
          (scan_single-AreUuids found argument.bytes h))
  scan_arguments-AreUuids (argument ∷ value ∷ rest) found h =
      if_both AreUuids (argument.bytes == lit "--") h (
        if_both AreUuids (is_separate_flag argument.bytes)
          (scan_arguments-AreUuids rest _ (saw_identity-AreUuids found value.bytes h))
          (scan_arguments-AreUuids (value ∷ rest) _ (scan_single-AreUuids found argument.bytes h)))

  pub scan_commands-AreUuids :
      (commands : List (ℕ × CapturedCommand)) (found : ArgvIdentity)
      → AreUuids found
      → AreUuids (scan_commands codecs found commands)
  unfolding scan_commands
  scan_commands-AreUuids [] found h = h
  scan_commands-AreUuids ((process, command) ∷ commands) found h =
      scan_commands-AreUuids commands _
        (scan_arguments-AreUuids (behind_first command.argv) found h)

  pub NamesOnly-IsUuid :
      (session_id : Uuid) (argv records : List Uuid)
      → NamesOnly session_id argv records
      → All IsUuid argv
      → All IsUuid records
      → IsUuid session_id
  NamesOnly-IsUuid session_id argv records by_argv (valid, _) _ = valid
  NamesOnly-IsUuid session_id argv records by_record _ (valid, _) = valid
  NamesOnly-IsUuid session_id argv records by_both (valid, _) _ = valid

  -- The records of files that are held name sessions with 128 bits.
  pub current-IsUuid :
      (evidence : PaneTiedForegroundEvidence) (ids : List Uuid)
      → All (HasCurrentRecord codecs parsers evidence) ids
      → All IsUuid ids
  current-IsUuid evidence [] h = tt
  current-IsUuid evidence (session_id ∷ ids) ((file, held, current), h) = (
    laws.uuid_in_range current.parsed.session_id session_id current.session,
    current-IsUuid evidence ids h,
  )
