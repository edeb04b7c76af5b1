-- ===== src/Recovery/Classify.antt =====
-- `classify_pane`: one tool family, or the observed command as it is.
pub mod Family
pub mod Valid
pub mod Accepted
pub mod Tests
use tmux_rescue.Common.{
  List, Option, [], err, if◌then◌else◌, list_eq, none, not, num_eq, ok, some, ◌==◌, ◌∷◌,
}
use tmux_rescue.Std.Text.{lit}
use tmux_rescue.Model.Codec.{Codecs, Uuid}
use tmux_rescue.Model.Command.{CapturedCommand}
use tmux_rescue.Model.Recovery.{
  PaneRecovery, automatic, bookshelf_serve, claude_code, codex, manual, md_book_serve,
  recognize_bookshelf, recognize_md_book,
}
use tmux_rescue.Recovery.Claude.Resolve.{resolve_claude}
use tmux_rescue.Recovery.Codex.{resolve_codex}
use tmux_rescue.Recovery.Evidence.{
  PaneTiedForegroundEvidence, SessionTool, ToolAttributedTailSession, claude_code_tool, codex_tool,
}
use tmux_rescue.Recovery.Outcome.{
  PaneClassification, RecordParsers, ResolverOutcome, automatic_outcome, conflicting,
  not_recognized,
}

-- `resolve_serve`
unfoldable pub resolve_serve : PaneTiedForegroundEvidence → Option ResolverOutcome
resolve_serve evidence = elim (recognize_md_book evidence.command.command) [
  | ok recognized ↦ some (automatic_outcome (md_book_serve recognized))
  | err _ ↦ (elim (recognize_bookshelf evidence.command.command) [
    | ok recognized ↦ some (automatic_outcome (bookshelf_serve recognized))
    | err _ ↦ none
  ])
]

-- `into_iter().flatten()`
unfoldable pub flatten_outcomes : List (Option ResolverOutcome) → List ResolverOutcome
flatten_outcomes [] = []
flatten_outcomes (none ∷ outcomes) = flatten_outcomes outcomes
flatten_outcomes (some outcome ∷ outcomes) = outcome ∷ flatten_outcomes outcomes

unfoldable pub only_outcome : List ResolverOutcome → ResolverOutcome
only_outcome [] = not_recognized
only_outcome (outcome ∷ []) = outcome
only_outcome (_ ∷ _ ∷ _) =
    conflicting (lit "foreground process group matches multiple automatic-recovery tool families")

-- The session of an outcome of the tool of the tail.
unfoldable pub same_tool_session : SessionTool → ResolverOutcome → Option Uuid
same_tool_session codex_tool (automatic_outcome (codex session_id _)) = some session_id.uuid
same_tool_session claude_code_tool (automatic_outcome (claude_code session_id)) =
    some session_id.uuid
same_tool_session _ _ = none

unfoldable pub apply_tail_conflict :
    ResolverOutcome → Option ToolAttributedTailSession → ResolverOutcome
apply_tail_conflict outcome none = outcome
apply_tail_conflict outcome (some tail) = elim (same_tool_session tail.tool outcome) [
  | none ↦ outcome
  | some resolved ↦
      if not (resolved == tail.session_id)
      then conflicting (lit "same-tool pane tail contains a different exact session ID")
      else outcome
]

unfoldable pub recovery_of : ResolverOutcome → CapturedCommand → PaneRecovery
recovery_of (automatic_outcome recovery) command = automatic recovery
recovery_of _ command = manual command

module _ (codecs : Codecs) (parsers : RecordParsers) where
  -- `outcomes`
  abbrev pub outcomes : PaneTiedForegroundEvidence → List (Option ResolverOutcome)
  outcomes evidence =
      resolve_codex codecs parsers evidence
      ∷ resolve_claude codecs parsers evidence
      ∷ resolve_serve evidence
      ∷ []

  unfoldable pub classify_pane : PaneTiedForegroundEvidence → PaneClassification
  classify_pane evidence =
      let outcome =
        apply_tail_conflict (only_outcome (flatten_outcomes (outcomes evidence)))
          evidence.tail_session in
      record { recovery = recovery_of outcome evidence.command.command; resolver_outcome = outcome }
