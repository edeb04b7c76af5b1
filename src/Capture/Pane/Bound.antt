-- ===== src/Capture/Pane/Bound.antt =====
-- A prompt is kept only with the session that the pane is still in.
use tmux_rescue.Common.{
  Bool-cases, Option-cases, Result-cases, ap, inl, inr, list_eq, num_eq, ok, ok-injective, refl,
  some, sym, ℕ, ◌==◌, ◌≡◌,
}
use tmux_rescue.Std.Text.{Text}
use tmux_rescue.Capture.{TopologyPane}
use tmux_rescue.Capture.Pane.{
  bind_prompt, capture_codex, capture_prompt, codex_recovery, codex_session_of, try_bind,
}
use tmux_rescue.Capture.Source.{
  CaptureSource, PaneProcessObservation, foreground, idle_process, unavailable_process,
}
use tmux_rescue.Model.Codec.{Codecs}
use tmux_rescue.Model.Name.{CapturedCodexPromptArea}
use tmux_rescue.Model.Recovery.{CodexSessionId, PaneRecovery}
use tmux_rescue.Prompt.Area.{
  CodexPromptAreaObservation, absent, capture_visible_codex_prompt, captured, skipped,
}
use tmux_rescue.Recovery.Classify.{classify_pane}
use tmux_rescue.Recovery.Evidence.{PaneTiedForegroundEvidence}
use tmux_rescue.Recovery.Outcome.{RecordParsers}
use tmux_rescue.Restore.Shell.{SourcePaneCoordinate}
use tmux_rescue.VisiblePane.Grid.{VisiblePaneGrid}

module _ {S : Type 0} (display_width : Text → ℕ) (codecs : Codecs) (parsers : RecordParsers)
    (source : CaptureSource S) where
  try_bind-eq-ok :
      (expected : CodexSessionId) (closing : PaneProcessObservation)
      (area : CapturedCodexPromptArea) (recovery : PaneRecovery)
      → try_bind display_width codecs parsers source expected closing area ≡ ok recovery
      → (evidence : PaneTiedForegroundEvidence) × (closing ≡ foreground evidence)
        × (again : CodexSessionId) × (codex_session_of
              (classify_pane codecs parsers evidence).recovery
            ≡ some again)
        × (again.uuid ≡ expected.uuid)
        × (recovery ≡ codex_recovery expected (some area))
  unfolding try_bind
  try_bind-eq-ok expected idle_process area recovery h = cc
  try_bind-eq-ok expected (unavailable_process failure) area recovery h = cc
  try_bind-eq-ok expected (foreground evidence) area recovery h =
      elim (Option-cases (codex_session_of (classify_pane codecs parsers evidence).recovery)) [
        | inl other ↦ let never = rw (other, try_bind) at h in cc
        | inr (again, resolved) ↦ elim (Bool-cases (again.uuid == expected.uuid)) [
          | inr changed ↦ let never = rw (resolved, changed, try_bind) at h in cc
          | inl same ↦
              let made = ok-injective (rw (resolved, same, try_bind) at h) in
              (evidence, refl, again, resolved, (num_eq.decides _ _).0 same, sym made)
        ]
      ]

  -- The prompt was read off the pane, and a second look finds the same session.
  pub record IsBound (pane : TopologyPane) (session_id : CodexSessionId)
      (area : CapturedCodexPromptArea) (state : S) : Type 0 where
    pub grid : VisiblePaneGrid
    pub between_looks : S
    pub is_read : source.read_visible_pane pane state ≡ (ok grid, between_looks)
    pub is_captured : capture_visible_codex_prompt display_width grid ≡ captured area
    pub evidence : PaneTiedForegroundEvidence
    pub last_state : S
    pub looked_again : source.inspect_pane pane between_looks ≡ (foreground evidence, last_state)
    pub again : CodexSessionId
    pub resolved : codex_session_of (classify_pane codecs parsers evidence).recovery ≡ some again
    pub same_session : again.uuid ≡ session_id.uuid

  module _ (pane : TopologyPane) (coordinate : SourcePaneCoordinate) (attempt : ℕ) where
    bind_prompt-IsBound :
        (session_id : CodexSessionId) (area kept : CapturedCodexPromptArea)
        (closing : PaneProcessObservation) (state : S)
        → (bind_prompt display_width codecs parsers source pane coordinate attempt session_id area
            closing state).0
          ≡ codex_recovery session_id (some kept)
        → (area ≡ kept)
          × (evidence : PaneTiedForegroundEvidence) × (closing ≡ foreground evidence)
          × (again : CodexSessionId) × (codex_session_of
                (classify_pane codecs parsers evidence).recovery
              ≡ some again)
          × (again.uuid ≡ session_id.uuid)
    unfolding bind_prompt
    bind_prompt-IsBound session_id area kept closing state h =
        elim (Result-cases (try_bind display_width codecs parsers source session_id closing area)) [
          | inr (failure, refused) ↦ let never = rw (refused, bind_prompt) at h in cc
          | inl (recovery, bound) ↦
              let same = rw (bound, bind_prompt) at h in
              let (evidence, seen_again, again, resolved, equal, made) =
                try_bind-eq-ok session_id closing area recovery bound in
              (cc, evidence, seen_again, again, resolved, equal)
        ]

    capture_prompt-IsBound :
        (session_id : CodexSessionId) (observation : CodexPromptAreaObservation)
        (kept : CapturedCodexPromptArea) (state : S)
        → (capture_prompt display_width codecs parsers source pane coordinate attempt session_id
            observation state).0
          ≡ codex_recovery session_id (some kept)
        → (observation ≡ captured kept)
          × (evidence : PaneTiedForegroundEvidence) × (source.inspect_pane pane state
              ≡ (foreground evidence, (source.inspect_pane pane state).1))
          × (again : CodexSessionId) × (codex_session_of
                (classify_pane codecs parsers evidence).recovery
              ≡ some again)
          × (again.uuid ≡ session_id.uuid)
    unfolding capture_prompt
    capture_prompt-IsBound session_id absent kept state h = cc
    capture_prompt-IsBound session_id (skipped failure) kept state h = cc
    capture_prompt-IsBound session_id (captured area) kept state h =
        let (same, evidence, seen_again, again, resolved, equal) =
          bind_prompt-IsBound session_id area kept (source.inspect_pane pane state).0
            (source.inspect_pane pane state).1 h in
        (
          ap captured same,
          evidence,
          ap (λ o. (o, (source.inspect_pane pane state).1)) seen_again,
          again,
          resolved,
          equal,
        )

    -- A Codex recovery has a prompt only if the prompt was captured from the visible pane and a look
    -- at the pane after that finds the same Codex session.
    pub capture_codex-IsBound :
        (session_id : CodexSessionId) (area : CapturedCodexPromptArea) (state : S)
        → (capture_codex display_width codecs parsers source pane coordinate attempt session_id
            state).0
          ≡ codex_recovery session_id (some area)
        → IsBound pane session_id area state
    unfolding capture_codex
    capture_codex-IsBound session_id area state h =
        let between = (source.read_visible_pane pane state).1 in
        elim (Result-cases (source.read_visible_pane pane state).0) [
          | inr (failure, unread) ↦ let never = rw (unread, capture_codex) at h in cc
          | inl (grid, read) ↦
              let (seen, evidence, seen_again, again, resolved, equal) =
                capture_prompt-IsBound session_id (capture_visible_codex_prompt display_width grid)
                  area between (rw (read, capture_codex) at h) in
              record {
                grid = grid;
                between_looks = between;
                is_read = ap (λ g. (g, between)) read;
                is_captured = seen;
                evidence = evidence;
                last_state = (source.inspect_pane pane between).1;
                looked_again = seen_again;
                again = again;
                resolved = resolved;
                same_session = equal;
              }
        ]
