-- ===== src/Recovery/Classify/Accepted.antt =====
-- What the classification of a pane says is a recovery that a snapshot accepts.
use tmux_rescue.Model.Command
use tmux_rescue.Common.{
  >>=-eq-ok, Option, Result-cases, ap, arith, inl, inr, list_eq, num_eq, ok, ok-injective, refl,
  some, subst, sym, true, ◌≡◌, ◌⊎◌,
}
use tmux_rescue.Std.Text.{Text}
use tmux_rescue.Model.Codec.{CodecLaws, Codecs}
use tmux_rescue.Model.Command.{CapturedCommand}
use tmux_rescue.Model.Command.Laws.{IsCommand}
use tmux_rescue.Model.Recovery.{
  AutomaticRecovery, RecognizedBookshelfServeCommand, RecognizedMdBookServeCommand, automatic, book,
  bookshelf_serve, manual, md_book_serve, mdbook, recognize_bookshelf, recognize_md_book,
  recovery_to_raw, validate_recovery,
}
use tmux_rescue.Model.Recovery.Laws.{
  IsAutomatic, IsRecovery, IsServe, validate_recovery-recovery_to_raw,
}
use tmux_rescue.Recovery.Classify.{classify_pane, recovery_of, resolve_serve}
use tmux_rescue.Recovery.Classify.Family.{
  OnlyFamily, classify_pane-automatic_iff, only_claude, only_codex, only_serve,
}
use tmux_rescue.Recovery.Classify.Valid.{
  HasOneCandidate-IsUuid, NamesOnly-IsUuid, current-IsUuid, scan_commands-AreUuids,
}
use tmux_rescue.Recovery.Claude.Agreed.{
  AgreedEvidence, AgreesOn-AgreedEvidence, resolve_claude-automatic_iff,
}
use tmux_rescue.Recovery.Claude.Current.{scan_claude_evidence-HasCurrentRecord}
use tmux_rescue.Recovery.Claude.Evidence.{ClaudeCommands-claude_commands_of}
use tmux_rescue.Recovery.Claude.Resolve.{claude_commands, no_argv_identity, resolve_claude}
use tmux_rescue.Recovery.Codex.{resolve_codex}
use tmux_rescue.Recovery.Codex.Resolved.{resolve_codex-automatic_iff}
use tmux_rescue.Recovery.Evidence.{PaneTiedForegroundEvidence}
use tmux_rescue.Recovery.Outcome.{
  RecordParsers, ResolverOutcome, automatic_outcome, conflicting_evidence, insufficient_evidence,
  not_recognized, process_commands,
}

validate_serve_command-identifies :
    (tool : Text) (command : CapturedCommand) (u : Unit {0})
    → Command.validate_serve_command tool command ≡ ok u
    → Command.identifies_serve tool command ≡ true
unfolding Command.validate_serve_command
validate_serve_command-identifies tool command u h = ground arith

recognize_md_book-IsServe :
    (command : CapturedCommand) (recognized : RecognizedMdBookServeCommand)
    → IsCommand command
    → recognize_md_book command ≡ ok recognized
    → IsServe mdbook recognized.command
unfolding recognize_md_book
recognize_md_book-IsServe command recognized proper h =
    let (u, valid, made) = >>=-eq-ok (Command.validate_serve_command mdbook command) _ h in
    subst (λ r. IsServe mdbook (RecognizedMdBookServeCommand.command r)) (ok-injective made)
      (proper, validate_serve_command-identifies mdbook command u valid)

recognize_bookshelf-IsServe :
    (command : CapturedCommand) (recognized : RecognizedBookshelfServeCommand)
    → IsCommand command
    → recognize_bookshelf command ≡ ok recognized
    → IsServe book recognized.command
unfolding recognize_bookshelf
recognize_bookshelf-IsServe command recognized proper h =
    let (u, valid, made) = >>=-eq-ok (Command.validate_serve_command book command) _ h in
    subst (λ r. IsServe book (RecognizedBookshelfServeCommand.command r)) (ok-injective made)
      (proper, validate_serve_command-identifies book command u valid)

resolve_serve-IsAutomatic :
    (evidence : PaneTiedForegroundEvidence) (recovery : AutomaticRecovery)
    → IsCommand evidence.command.command
    → resolve_serve evidence ≡ some (automatic_outcome recovery)
    → IsAutomatic recovery
unfolding resolve_serve
resolve_serve-IsAutomatic evidence recovery proper h =
    let observed = evidence.command.command in
    elim (Result-cases (recognize_md_book observed)) [
      | inl (recognized, known) ↦
          let same = rw (known, resolve_serve) at h in
          let made : md_book_serve recognized ≡ recovery = cc in
          rw (← made) (recognize_md_book-IsServe observed recognized proper known)
      | inr (_, unknown) ↦ elim (Result-cases (recognize_bookshelf observed)) [
        | inl (recognized, known) ↦
            let same = rw (unknown, known, resolve_serve) at h in
            let made : bookshelf_serve recognized ≡ recovery = cc in
            rw (← made) (recognize_bookshelf-IsServe observed recognized proper known)
        | inr (_, neither) ↦ let never = rw (unknown, neither, resolve_serve) at h in cc
      ]
    ]

module _ (codecs : Codecs) (laws : CodecLaws codecs) (parsers : RecordParsers) where
  OnlyFamily-IsAutomatic :
      (evidence : PaneTiedForegroundEvidence) (recovery : AutomaticRecovery)
      (codex_claim claude_claim serve_claim : Option ResolverOutcome)
      → IsCommand evidence.command.command
      → resolve_codex codecs parsers evidence ≡ codex_claim
      → resolve_claude codecs parsers evidence ≡ claude_claim
      → resolve_serve evidence ≡ serve_claim
      → OnlyFamily recovery codex_claim claude_claim serve_claim
      → IsAutomatic recovery
  OnlyFamily-IsAutomatic evidence recovery codex_claim claude_claim serve_claim proper c l s
        only_serve =
      resolve_serve-IsAutomatic evidence recovery proper s
  OnlyFamily-IsAutomatic evidence recovery codex_claim claude_claim serve_claim proper c l s
        only_codex =
      let (session_id, files, result, _, _, _, one) =
        (resolve_codex-automatic_iff codecs parsers evidence recovery).0 c in
      rw result (HasOneCandidate-IsUuid codecs laws parsers _ session_id _ one, tt)
  OnlyFamily-IsAutomatic evidence recovery codex_claim claude_claim serve_claim proper c l s
        only_claude =
      let (session_id, commands, result, listed, _, agreed) =
        (resolve_claude-automatic_iff codecs parsers evidence recovery).0 l in
      let same = ClaudeCommands-claude_commands_of (process_commands evidence) commands listed in
      let (_, _, names) =
        (AgreesOn-AgreedEvidence codecs parsers evidence session_id).1
          (subst (λ c. AgreedEvidence codecs parsers evidence c session_id) same agreed) in
      rw result (
        NamesOnly-IsUuid codecs laws parsers session_id _ _ names
          (scan_commands-AreUuids codecs laws parsers (claude_commands evidence) no_argv_identity
            tt)
          (current-IsUuid codecs laws parsers evidence _
            (scan_claude_evidence-HasCurrentRecord codecs parsers evidence)))

  recovery_of-cases :
      (outcome : ResolverOutcome) (command : CapturedCommand)
      → ((recovery : AutomaticRecovery) × (outcome ≡ automatic_outcome recovery))
        ⊎ (recovery_of outcome command ≡ manual command)
  unfolding recovery_of
  recovery_of-cases (automatic_outcome r) command = inl (r, refl)
  recovery_of-cases not_recognized command = inr refl
  recovery_of-cases (insufficient_evidence _) command = inr refl
  recovery_of-cases (conflicting_evidence _) command = inr refl

  classify_pane-cases :
      (evidence : PaneTiedForegroundEvidence)
      → ((recovery : AutomaticRecovery) × ((classify_pane codecs parsers evidence).recovery
            ≡ automatic recovery))
        ⊎ ((classify_pane codecs parsers evidence).recovery ≡ manual evidence.command.command)
  unfolding classify_pane recovery_of
  classify_pane-cases evidence =
      elim (recovery_of-cases (classify_pane codecs parsers evidence).resolver_outcome
        evidence.command.command) [
          | inl (recovery, outcome) ↦
              inl (recovery, ap (λ o. recovery_of o evidence.command.command) outcome)
          | inr plain ↦ inr plain
        ]

  classify_pane-IsRecovery :
      (evidence : PaneTiedForegroundEvidence)
      → IsCommand evidence.command.command
      → IsRecovery (classify_pane codecs parsers evidence).recovery
  classify_pane-IsRecovery evidence proper = elim (classify_pane-cases evidence) [
    | inl (recovery, claimed) ↦
        let (only, _) = (classify_pane-automatic_iff codecs parsers evidence recovery).0 claimed in
        subst IsRecovery (sym claimed)
          (OnlyFamily-IsAutomatic evidence recovery _ _ _ proper refl refl refl only)
    | inr plain ↦ subst IsRecovery (sym plain) proper
  ]

  -- For a proper observed command, the classification is either an automatic recovery or that very
  -- command for manual use, and its raw form is read back as the same recovery.
  pub classify_pane-recovery_to_raw :
      (evidence : PaneTiedForegroundEvidence) (field : Text)
      → IsCommand evidence.command.command
      → (((recovery : AutomaticRecovery) × ((classify_pane codecs parsers evidence).recovery
              ≡ automatic recovery))
          ⊎ ((classify_pane codecs parsers evidence).recovery ≡ manual evidence.command.command))
        × (validate_recovery codecs
              (recovery_to_raw codecs (classify_pane codecs parsers evidence).recovery)
              field
            ≡ ok (classify_pane codecs parsers evidence).recovery)
  classify_pane-recovery_to_raw evidence field proper = (
    classify_pane-cases evidence,
    validate_recovery-recovery_to_raw codecs laws (classify_pane codecs parsers evidence).recovery
        field (classify_pane-IsRecovery evidence proper),
  )
