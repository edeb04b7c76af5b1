-- ===== src/Recovery/Classify/Family.antt =====
-- A pane is recovered automatically exactly if one tool family claims it and its tail agrees.
use tmux_rescue.Common.{
  Bool-cases, Option, Option-cases, [], ap, inl, inr, list_eq, none, num_eq, refl, some,
  some-injective, sym, true, ◌==◌, ◌↔◌, ◌∙◌, ◌∷◌, ◌≡◌,
}
use tmux_rescue.Model.Codec.{Codecs, Uuid}
use tmux_rescue.Model.Command.{CapturedCommand}
use tmux_rescue.Model.Recovery.{
  AutomaticRecovery, automatic, bookshelf_serve, claude_code, codex, md_book_serve,
}
use tmux_rescue.Recovery.Classify.{
  apply_tail_conflict, classify_pane, flatten_outcomes, only_outcome, recovery_of, resolve_serve,
  same_tool_session,
}
use tmux_rescue.Recovery.Claude.Resolve.{resolve_claude}
use tmux_rescue.Recovery.Codex.{resolve_codex}
use tmux_rescue.Recovery.Evidence.{
  PaneTiedForegroundEvidence, SessionTool, ToolAttributedTailSession, claude_code_tool, codex_tool,
}
use tmux_rescue.Recovery.Outcome.{
  RecordParsers, ResolverOutcome, automatic_outcome, conflicting_evidence, insufficient_evidence,
  not_recognized,
}

-- One family resolves to the recovery, and the others do not recognise the pane.
pub data OnlyFamily (recovery : AutomaticRecovery)
    : (codex_claim claude_claim serve_claim : Option ResolverOutcome) → Type 0 where
  only_codex : OnlyFamily recovery (some (automatic_outcome recovery)) none none
  only_claude : OnlyFamily recovery none (some (automatic_outcome recovery)) none
  only_serve : OnlyFamily recovery none none (some (automatic_outcome recovery))

-- A session of a tool is the one that a recovery with the same tool resumes.
abbrev pub SameSession : SessionTool → Uuid → AutomaticRecovery → Type 0
SameSession codex_tool session_id (codex resumed prompt) = resumed.uuid ≡ session_id
SameSession claude_code_tool session_id (claude_code resumed) = resumed.uuid ≡ session_id
SameSession codex_tool session_id (claude_code resumed) = Unit
SameSession claude_code_tool session_id (codex resumed prompt) = Unit
SameSession tool session_id (md_book_serve recognized) = Unit
SameSession tool session_id (bookshelf_serve recognized) = Unit

-- A session that the pane's tail attributes to the same tool is the same session.
abbrev pub TailAgrees : Option ToolAttributedTailSession → AutomaticRecovery → Type 0
TailAgrees none recovery = Unit
TailAgrees (some tail) recovery = SameSession tail.tool tail.session_id recovery

-- The session that the code compares, if there is one.
same_tool_session-SameSession :
    (tool : SessionTool) (session_id : Uuid) (recovery : AutomaticRecovery)
    → ((resolved : Uuid)
        → same_tool_session tool (automatic_outcome recovery) ≡ some resolved
        → resolved ≡ session_id)
      ↔ SameSession tool session_id recovery
unfolding same_tool_session
same_tool_session-SameSession codex_tool session_id (codex resumed prompt) =
    (λ f. f resumed.uuid refl, λ same resolved h. sym (some-injective h) ∙ same)
same_tool_session-SameSession claude_code_tool session_id (claude_code resumed) =
    (λ f. f resumed.uuid refl, λ same resolved h. sym (some-injective h) ∙ same)
same_tool_session-SameSession codex_tool session_id (claude_code resumed) =
    (λ f. tt, λ same resolved h. cc)
same_tool_session-SameSession claude_code_tool session_id (codex resumed prompt) =
    (λ f. tt, λ same resolved h. cc)
same_tool_session-SameSession codex_tool session_id (md_book_serve recognized) =
    (λ f. tt, λ same resolved h. cc)
same_tool_session-SameSession claude_code_tool session_id (md_book_serve recognized) =
    (λ f. tt, λ same resolved h. cc)
same_tool_session-SameSession codex_tool session_id (bookshelf_serve recognized) =
    (λ f. tt, λ same resolved h. cc)
same_tool_session-SameSession claude_code_tool session_id (bookshelf_serve recognized) =
    (λ f. tt, λ same resolved h. cc)

only_outcome-automatic :
    (a b c : Option ResolverOutcome) (recovery : AutomaticRecovery)
    → only_outcome (flatten_outcomes (a ∷ b ∷ c ∷ [])) ≡ automatic_outcome recovery
    → OnlyFamily recovery a b c
unfolding only_outcome flatten_outcomes
only_outcome-automatic none none none recovery h = cc
only_outcome-automatic (some a) none none recovery h = rw h only_codex
only_outcome-automatic none (some b) none recovery h = rw h only_claude
only_outcome-automatic none none (some c) recovery h = rw h only_serve
only_outcome-automatic (some a) (some b) c recovery h = cc
only_outcome-automatic (some a) none (some c) recovery h = cc
only_outcome-automatic none (some b) (some c) recovery h = cc

OnlyFamily-only_outcome :
    (a b c : Option ResolverOutcome) (recovery : AutomaticRecovery)
    → OnlyFamily recovery a b c
    → only_outcome (flatten_outcomes (a ∷ b ∷ c ∷ [])) ≡ automatic_outcome recovery
unfolding only_outcome flatten_outcomes
OnlyFamily-only_outcome a b c recovery only_codex = refl
OnlyFamily-only_outcome a b c recovery only_claude = refl
OnlyFamily-only_outcome a b c recovery only_serve = refl

apply_tail_conflict-automatic :
    (outcome : ResolverOutcome) (known : Option ToolAttributedTailSession)
    (recovery : AutomaticRecovery)
    → apply_tail_conflict outcome known ≡ automatic_outcome recovery
    → (outcome ≡ automatic_outcome recovery) × TailAgrees known recovery
unfolding apply_tail_conflict
apply_tail_conflict-automatic outcome none recovery h = (h, tt)
apply_tail_conflict-automatic outcome (some tail) recovery h =
    elim (Option-cases (same_tool_session tail.tool outcome)) [
      | inl unattributed ↦
          let same = rw (unattributed, apply_tail_conflict) at h in
          (
            same,
            (same_tool_session-SameSession tail.tool tail.session_id recovery).0
                (λ session_id named. let none_named = rw same at unattributed in cc),
          )
      | inr (resolved, named) ↦ elim (Bool-cases (resolved == tail.session_id)) [
        | inl agrees ↦
            let same = rw (named, agrees, apply_tail_conflict) at h in
            let equal = (num_eq.decides resolved tail.session_id).0 agrees in
            (
              same,
              (same_tool_session-SameSession tail.tool tail.session_id recovery).0
                  (λ session_id also. let this = rw same at named in cc),
            )
        | inr differs ↦ let never = rw (named, differs, apply_tail_conflict) at h in cc
      ]
    ]

TailAgrees-apply_tail_conflict :
    (known : Option ToolAttributedTailSession) (recovery : AutomaticRecovery)
    → TailAgrees known recovery
    → apply_tail_conflict (automatic_outcome recovery) known ≡ automatic_outcome recovery
unfolding apply_tail_conflict
TailAgrees-apply_tail_conflict none recovery agrees = refl
TailAgrees-apply_tail_conflict (some tail) recovery agrees =
    elim (Option-cases (same_tool_session tail.tool (automatic_outcome recovery))) [
      | inl unattributed ↦ rw (unattributed, apply_tail_conflict) refl
      | inr (resolved, named) ↦
          let same : (resolved == tail.session_id) ≡ true =
            (num_eq.decides resolved tail.session_id).1 (
              (same_tool_session-SameSession tail.tool tail.session_id recovery).1 agrees resolved
                named) in
          rw (named, same, apply_tail_conflict) refl
    ]

recovery_of-automatic :
    (outcome : ResolverOutcome) (command : CapturedCommand) (recovery : AutomaticRecovery)
    → recovery_of outcome command ≡ automatic recovery
    → outcome ≡ automatic_outcome recovery
unfolding recovery_of
recovery_of-automatic (automatic_outcome r) command recovery h = cc
recovery_of-automatic not_recognized command recovery h = cc
recovery_of-automatic (insufficient_evidence _) command recovery h = cc
recovery_of-automatic (conflicting_evidence _) command recovery h = cc

module _ (codecs : Codecs) (parsers : RecordParsers) where
  -- A pane gets an automatic recovery exactly if one of the three tool families resolves to it, the
  -- others do not recognise the pane, and the session in the pane's tail, if it is of the same tool,
  -- is the same.
  pub classify_pane-automatic_iff :
      (evidence : PaneTiedForegroundEvidence) (recovery : AutomaticRecovery)
      → ((classify_pane codecs parsers evidence).recovery ≡ automatic recovery) ↔ (
          OnlyFamily recovery
            (resolve_codex codecs parsers evidence)
            (resolve_claude codecs parsers evidence)
            (resolve_serve evidence)
          × TailAgrees evidence.tail_session recovery)
  unfolding classify_pane recovery_of
  classify_pane-automatic_iff evidence recovery = (
    λ h.
        let outcome = recovery_of-automatic _ _ recovery h in
        let (only, agrees) =
          apply_tail_conflict-automatic _ evidence.tail_session recovery outcome in
        (only_outcome-automatic _ _ _ recovery only, agrees),
    λ (only, agrees).
        let claimed = OnlyFamily-only_outcome _ _ _ recovery only in
        ap (λ o. recovery_of o evidence.command.command)
          (ap (λ o. apply_tail_conflict o evidence.tail_session) claimed
            ∙ TailAgrees-apply_tail_conflict evidence.tail_session recovery agrees),
  )
