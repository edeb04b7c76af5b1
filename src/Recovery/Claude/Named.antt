-- ===== src/Recovery/Claude/Named.antt =====
-- The scans of all commands and of all files find exactly what these name.
use tmux_rescue.Common.{
  ==_refl, Bool-cases, List, Option, Option-cases, [], ap, append-nil, append_assoc, contains,
  false, inl, inr, list_eq, none, num_eq, refl, some, subst, sym, true, ℕ, ◌++◌, ◌↔◌, ◌∙◌, ◌∷◌, ◌≡◌,
}
use tmux_rescue.Model.Codec.{Codecs, Uuid}
use tmux_rescue.Model.Command.{CapturedCommand}
use tmux_rescue.Recovery.Claude.{behind_first}
use tmux_rescue.Recovery.Claude.Current.{IsCurrent, claude_record_session-IsCurrent}
use tmux_rescue.Recovery.Claude.Evidence.{
  CommandsName, KnownRecordsName, RecordsName, current_record, no_commands, no_files, not_held,
  with_command,
}
use tmux_rescue.Recovery.Claude.Resolve.{
  ArgvIdentity, RecordIdentity, add_record, claude_commands, claude_processes,
  claude_record_session, is_stale_record, no_argv_identity, no_record_identity, same_start,
  scan_arguments, scan_claude_files, scan_commands, scan_known_files,
}
use tmux_rescue.Recovery.Claude.Scanned.{FlagsName-IsExtended, IsExtended, scan_arguments-FlagsName}
use tmux_rescue.Recovery.Evidence.{
  OpenedClaudeSessionFile, PaneTiedForegroundEvidence, process_start_time_for,
}
use tmux_rescue.Recovery.Outcome.{RecordParsers}

module _ (codecs : Codecs) where
  CommandsName-IsExtended :
      (commands : List (ℕ × CapturedCommand)) (session_ids : List Uuid)
      → CommandsName codecs commands session_ids
      → (found : ArgvIdentity)
      → IsExtended codecs found (scan_commands codecs found commands) session_ids
  unfolding scan_commands
  CommandsName-IsExtended _ _ no_commands found = (refl, sym (append-nil found.argv_candidates))
  CommandsName-IsExtended _ _
        (with_command {command = command} {commands = commands} {session_ids = session_ids}
          {others = others} flags names)
        found =
      let scanned = scan_arguments codecs found (behind_first command.argv) in
      let (valid, added) =
        FlagsName-IsExtended codecs (behind_first command.argv) session_ids flags found in
      let (valid', added') = CommandsName-IsExtended commands others names scanned in
      (
        valid' ∙ valid,
        added'
            ∙ ap (λ ids. ids ++ others) added
            ∙ append_assoc found.argv_candidates session_ids others,
      )

  scan_commands-CommandsName :
      (commands : List (ℕ × CapturedCommand)) (found : ArgvIdentity)
      → (scan_commands codecs found commands).invalid_identity ≡ false
      → (found.invalid_identity ≡ false)
        × (session_ids : List Uuid) × CommandsName codecs commands session_ids
        × ((scan_commands codecs found commands).argv_candidates
            ≡ found.argv_candidates ++ session_ids)
  unfolding scan_commands
  scan_commands-CommandsName [] found valid =
      (valid, [], no_commands, sym (append-nil found.argv_candidates))
  scan_commands-CommandsName ((process, command) ∷ commands) found valid =
      let scanned = scan_arguments codecs found (behind_first command.argv) in
      let (valid', others, names, added') = scan_commands-CommandsName commands scanned valid in
      let (before, session_ids, flags, added) =
        scan_arguments-FlagsName codecs (behind_first command.argv) found valid' in
      (
        before,
        session_ids ++ others,
        with_command flags names,
        added'
            ∙ ap (λ ids. ids ++ others) added
            ∙ append_assoc found.argv_candidates session_ids others,
      )

module _ (codecs : Codecs) (parsers : RecordParsers) (evidence : PaneTiedForegroundEvidence) where
  same_start_refl : (a : Option ℕ) → same_start a a ≡ true
  unfolding same_start
  same_start_refl none = refl
  same_start_refl (some a) = ==_refl a

  IsCurrent-is_stale_record :
      (file : OpenedClaudeSessionFile) (session_id : Uuid)
      (current : IsCurrent codecs parsers evidence file session_id)
      → is_stale_record codecs parsers evidence file current.parsed ≡ false
  unfolding is_stale_record
  IsCurrent-is_stale_record file session_id current =
      rw
        (
          current.same_process,
          current.interactive,
          current.same_directory,
          current.started_together,
          current.same_terminal,
          ==_refl file.holder_process_id,
          ==_refl evidence.pane_working_directory.path.bytes,
          ==_refl evidence.pane_tty.bytes,
          same_start_refl (process_start_time_for evidence file.holder_process_id),
        )
        refl

  IsCurrent-claude_record_session :
      (file : OpenedClaudeSessionFile) (session_id : Uuid)
      → IsCurrent codecs parsers evidence file session_id
      → claude_record_session codecs parsers evidence file ≡ some session_id
  unfolding claude_record_session
  IsCurrent-claude_record_session file session_id current =
      rw
        (
          current.is_parsed,
          claude_record_session,
          IsCurrent-is_stale_record file session_id current,
          current.session,
        )
        refl

  -- The scan found no invalid record more, and added these sessions.
  abbrev pub IsRecorded : RecordIdentity → RecordIdentity → List Uuid → Type 0
  IsRecorded found result session_ids =
      (result.invalid_record ≡ found.invalid_record)
      × (result.record_candidates ≡ found.record_candidates ++ session_ids)

  step_not_held :
      (found : RecordIdentity) (file : OpenedClaudeSessionFile)
      (files : List OpenedClaudeSessionFile)
      → contains (claude_processes evidence) file.holder_process_id ≡ false
      → scan_claude_files codecs parsers evidence found (file ∷ files)
        ≡ scan_claude_files codecs parsers evidence found files
  unfolding scan_claude_files
  step_not_held found file files h = rw (h, scan_claude_files) refl

  step_held :
      (found : RecordIdentity) (file : OpenedClaudeSessionFile)
      (files : List OpenedClaudeSessionFile)
      → contains (claude_processes evidence) file.holder_process_id ≡ true
      → scan_claude_files codecs parsers evidence found (file ∷ files)
        ≡ scan_claude_files codecs parsers evidence
            (add_record codecs parsers evidence found
              (claude_record_session codecs parsers evidence file))
            files
  unfolding scan_claude_files
  step_held found file files h = rw (h, scan_claude_files) refl

  RecordsName-IsRecorded :
      (files : List OpenedClaudeSessionFile) (session_ids : List Uuid)
      → RecordsName codecs parsers evidence (claude_commands evidence) files session_ids
      → (found : RecordIdentity)
      → IsRecorded found (scan_claude_files codecs parsers evidence found files) session_ids
  unfolding scan_claude_files
  RecordsName-IsRecorded _ _ no_files found = (refl, sym (append-nil found.record_candidates))
  RecordsName-IsRecorded _ _
        (not_held {file = file} {files = files} {session_ids = session_ids} other names) found =
      subst (λ r. IsRecorded found r session_ids) (sym (step_not_held found file files other))
        (RecordsName-IsRecorded files session_ids names found)
  RecordsName-IsRecorded _ _
        (current_record {file = file} {files = files} {session_id = session_id}
          {session_ids = session_ids} held current names)
        found =
      let next = add_record codecs parsers evidence found (some session_id) in
      let step =
        step_held found file files held
        ∙ ap
            (λ o.
              scan_claude_files codecs parsers evidence (add_record codecs parsers evidence found o)
                files)
            (IsCurrent-claude_record_session file session_id current) in
      let (valid, added) = RecordsName-IsRecorded files session_ids names next in
      subst (λ r. IsRecorded found r (session_id ∷ session_ids)) (sym step)
        (valid, added ∙ append_assoc found.record_candidates (session_id ∷ []) session_ids)

  -- What a valid scan of files from one state on found.
  abbrev ScannedFiles : RecordIdentity → RecordIdentity → List OpenedClaudeSessionFile → Type 0
  ScannedFiles found result files =
      (found.invalid_record ≡ false)
      × (session_ids : List Uuid) × RecordsName codecs parsers evidence (claude_commands evidence)
          files session_ids
      × (result.record_candidates ≡ found.record_candidates ++ session_ids)

  scan_claude_files-RecordsName :
      (files : List OpenedClaudeSessionFile) (found : RecordIdentity)
      → (scan_claude_files codecs parsers evidence found files).invalid_record ≡ false
      → ScannedFiles found (scan_claude_files codecs parsers evidence found files) files
  unfolding scan_claude_files
  scan_claude_files-RecordsName [] found valid =
      (valid, [], no_files, sym (append-nil found.record_candidates))
  scan_claude_files-RecordsName (file ∷ files) found valid =
      elim (Bool-cases (contains (claude_processes evidence) file.holder_process_id)) [
        | inr other ↦
            let step = step_not_held found file files other in
            let (before, session_ids, names, added) =
              scan_claude_files-RecordsName files found
                (sym (ap RecordIdentity.invalid_record step) ∙ valid) in
            (
              before,
              session_ids,
              not_held other names,
              ap RecordIdentity.record_candidates step ∙ added,
            )
        | inl held ↦ elim (Option-cases (claude_record_session codecs parsers evidence file)) [
          | inl stale ↦
              let step =
                step_held found file files held
                ∙ ap
                    (λ o.
                      scan_claude_files codecs parsers evidence
                        (add_record codecs parsers evidence found o) files)
                    stale in
              let (before, _, _, _) =
                scan_claude_files-RecordsName files (add_record codecs parsers evidence found none)
                  (sym (ap RecordIdentity.invalid_record step) ∙ valid) in
              cc
          | inr (session_id, named) ↦
              let step =
                step_held found file files held
                ∙ ap
                    (λ o.
                      scan_claude_files codecs parsers evidence
                        (add_record codecs parsers evidence found o) files)
                    named in
              let (before, session_ids, names, added) =
                scan_claude_files-RecordsName files
                  (add_record codecs parsers evidence found (some session_id))
                  (sym (ap RecordIdentity.invalid_record step) ∙ valid) in
              (
                before,
                session_id ∷ session_ids,
                current_record held
                    (claude_record_session-IsCurrent codecs parsers evidence file session_id named)
                    names,
                ap RecordIdentity.record_candidates step
                    ∙ added
                    ∙ append_assoc found.record_candidates (session_id ∷ []) session_ids,
              )
        ]
      ]

  -- All the files that are known, if any are.
  pub scan_known_files-KnownRecordsName :
      (known : Option (List OpenedClaudeSessionFile)) (session_ids : List Uuid)
      → ((scan_known_files codecs parsers evidence known).invalid_record ≡ false)
          × ((scan_known_files codecs parsers evidence known).record_candidates ≡ session_ids)
        ↔ KnownRecordsName codecs parsers evidence (claude_commands evidence) known session_ids
  unfolding scan_known_files
  scan_known_files-KnownRecordsName none session_ids =
      (λ (_, same). sym same, λ same. (refl, sym same))
  scan_known_files-KnownRecordsName (some files) session_ids = (
    λ (valid, same).
        let (_, named_ids, names, added) =
          scan_claude_files-RecordsName files no_record_identity valid in
        subst (RecordsName codecs parsers evidence (claude_commands evidence) files)
          (sym added ∙ same) names,
    λ names. RecordsName-IsRecorded files session_ids names no_record_identity,
  )

-- All the arguments of the Claude processes.
pub scan_commands-CommandsName_iff :
    (codecs : Codecs) (commands : List (ℕ × CapturedCommand)) (session_ids : List Uuid)
    → ((scan_commands codecs no_argv_identity commands).invalid_identity ≡ false)
        × ((scan_commands codecs no_argv_identity commands).argv_candidates ≡ session_ids)
      ↔ CommandsName codecs commands session_ids
scan_commands-CommandsName_iff codecs commands session_ids = (
  λ (valid, same).
      let (_, named_ids, names, added) =
        scan_commands-CommandsName codecs commands no_argv_identity valid in
      subst (CommandsName codecs commands) (sym added ∙ same) names,
  λ names. CommandsName-IsExtended codecs commands session_ids names no_argv_identity,
)
