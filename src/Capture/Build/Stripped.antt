-- ===== src/Capture/Build/Stripped.antt =====
-- A snapshot that would be too large loses its prompts, and nothing else.
use tmux_rescue.Model.OsString
use mathlib.Core.Path.{ap₂}
use tmux_rescue.Common.{
  >>=-eq-ok, Bool-cases, List, Option, Result-cases, [], ap, arith, inl, inr, is_empty, length,
  list_eq, ltb, map, none, not_ltb→le, num_eq, ok, ok-injective, refl, some, sym, true, ℕ, ◌<◌, ◌∙◌,
  ◌∷◌, ◌≡◌, ◌≤◌, ◌⊎◌,
}
use tmux_rescue.Std.Text.{Bytes, Text}
use tmux_rescue.Capture.Build.{
  build_result_with_serialization_limit, finish_result, finish_stripped, finish_within, serialized,
  strip_panes, strip_prompt_enrichment, strip_windows, take_prompt,
}
use tmux_rescue.Capture.Source.{CaptureCandidate, CaptureEvent, CaptureResult}
use tmux_rescue.Model.Codec.{Codecs}
use tmux_rescue.Model.Recovery.{
  RawPaneRecovery, raw_automatic, raw_bookshelf_serve, raw_claude_code, raw_codex, raw_idle,
  raw_manual, raw_md_book_serve, raw_unavailable,
}
use tmux_rescue.Model.Snapshot.{
  CaptureTime, RawCaptureConsistency, RawPaneSnapshot, RawSessionSnapshot, RawSnapshot,
  RawWindowSnapshot, SnapshotSource,
}
use tmux_rescue.Model.Snapshot.Json.{Serde, from_capture_raw}

-- A recovery without its prompt.
abbrev pub forget_prompt : RawPaneRecovery → RawPaneRecovery
forget_prompt (raw_automatic (raw_codex session_id _)) = raw_automatic (raw_codex session_id none)
forget_prompt recovery = recovery

abbrev pub forget_pane : RawPaneSnapshot → RawPaneSnapshot
forget_pane pane = record pane { recovery = forget_prompt pane.recovery }

abbrev pub forget_window : RawWindowSnapshot → RawWindowSnapshot
forget_window window = record window { panes = map forget_pane window.panes }

abbrev pub forget_session : RawSessionSnapshot → RawSessionSnapshot
forget_session session = record session { windows = map forget_window session.windows }

take_prompt-forget_prompt :
    (recovery : RawPaneRecovery) → (take_prompt recovery).0 ≡ forget_prompt recovery
unfolding take_prompt
take_prompt-forget_prompt raw_idle = refl
take_prompt-forget_prompt (raw_manual command) = refl
take_prompt-forget_prompt (raw_unavailable failure) = refl
take_prompt-forget_prompt (raw_automatic (raw_codex session_id none)) = refl
take_prompt-forget_prompt (raw_automatic (raw_codex session_id (some area))) = refl
take_prompt-forget_prompt (raw_automatic (raw_claude_code session_id)) = refl
take_prompt-forget_prompt (raw_automatic (raw_md_book_serve command)) = refl
take_prompt-forget_prompt (raw_automatic (raw_bookshelf_serve command)) = refl

strip_panes-forget_pane :
    (session_name : Text) (window_index : ℕ) (panes : List RawPaneSnapshot)
    → (strip_panes session_name window_index panes).0 ≡ map forget_pane panes
unfolding strip_panes
strip_panes-forget_pane session_name window_index [] = refl
strip_panes-forget_pane session_name window_index (pane ∷ panes) =
    ap₂ (λ (r : RawPaneRecovery) rest. record pane { recovery = r } ∷ rest)
      (take_prompt-forget_prompt pane.recovery)
      (strip_panes-forget_pane session_name window_index panes)

strip_windows-forget_window :
    (session_name : Text) (windows : List RawWindowSnapshot)
    → (strip_windows session_name windows).0 ≡ map forget_window windows
unfolding strip_windows
strip_windows-forget_window session_name [] = refl
strip_windows-forget_window session_name (window ∷ windows) =
    ap₂ (λ (p : List RawPaneSnapshot) rest. record window { panes = p } ∷ rest)
      (strip_panes-forget_pane session_name window.source_index window.panes)
      (strip_windows-forget_window session_name windows)

pub strip_prompt_enrichment-forget_session :
    (sessions : List RawSessionSnapshot)
    → (strip_prompt_enrichment sessions).0 ≡ map forget_session sessions
unfolding strip_prompt_enrichment
strip_prompt_enrichment-forget_session [] = refl
strip_prompt_enrichment-forget_session (session ∷ sessions) =
    ap₂ (λ (w : List RawWindowSnapshot) rest. record session { windows = w } ∷ rest)
      (strip_windows-forget_window session.name session.windows)
      (strip_prompt_enrichment-forget_session sessions)

module _ {Instant : Type 0} (parse_rfc3339 : Text → Option Instant) (codecs : Codecs)
    (serde : Serde) where
  -- How a captured candidate becomes a snapshot: as it is, or without its prompts where it was too
  -- large; the bytes of what is kept are within the limit.
  pub record IsBuilt (raw : RawSnapshot) (limit attempts : ℕ) (result : CaptureResult Instant)
      : Type 0 where
    pub kept : RawSnapshot
    pub refined : from_capture_raw parse_rfc3339 codecs serde kept ≡ ok result.snapshot
    pub bytes : Bytes
    pub written : serde.to_vec_pretty kept ≡ ok bytes
    pub fits : length bytes ≤ limit
    pub whole_or_stripped :
        (kept ≡ raw)
        ⊎ ((original : Bytes) × (serde.to_vec_pretty raw ≡ ok original)
            × (limit < length original)
            × (kept ≡ record raw { sessions = map forget_session raw.sessions }))
    pub same_attempts : result.attempts ≡ attempts

  serialized-eq-ok :
      (raw : RawSnapshot) (bytes : Bytes)
      → serialized parse_rfc3339 codecs serde raw ≡ ok bytes
      → serde.to_vec_pretty raw ≡ ok bytes
  serialized-eq-ok raw bytes h = elim (Result-cases (serde.to_vec_pretty raw)) [
    | inl (written, serial) ↦ serial ∙ (let same = rw serial at h in cc)
    | inr (error, failed) ↦ let never = rw failed at h in cc
  ]

  finish_result-eq-ok :
      (raw : RawSnapshot) (attempts : ℕ) (events : List CaptureEvent)
      (result : CaptureResult Instant)
      → finish_result parse_rfc3339 codecs serde raw attempts events ≡ ok result
      → (from_capture_raw parse_rfc3339 codecs serde raw ≡ ok result.snapshot)
        × (result.attempts ≡ attempts)
  unfolding finish_result
  finish_result-eq-ok raw attempts events result h =
      elim (Result-cases (from_capture_raw parse_rfc3339 codecs serde raw)) [
        | inr (error, refused) ↦ let never = rw (refused, finish_result) at h in cc
        | inl (snapshot, made) ↦
            let same = ok-injective (rw (made, finish_result) at h) in
            (
              made ∙ ap (λ (r : CaptureResult Instant). ok r.snapshot) same,
              sym (ap CaptureResult.attempts same),
            )
      ]

  finish_within-eq-ok :
      (raw : RawSnapshot) (attempts : ℕ) (events : List CaptureEvent) (limit : ℕ) (bytes : Bytes)
      (result : CaptureResult Instant)
      → finish_within parse_rfc3339 codecs serde raw attempts events limit bytes ≡ ok result
      → (length bytes ≤ limit)
        × (from_capture_raw parse_rfc3339 codecs serde raw ≡ ok result.snapshot)
        × (result.attempts ≡ attempts)
  unfolding finish_within
  finish_within-eq-ok raw attempts events limit bytes result h =
      elim (Bool-cases (ltb limit (length bytes))) [
        | inl large ↦ let never = rw (large, finish_within) at h in cc
        | inr small ↦
            let (made, same) =
              finish_result-eq-ok raw attempts events result (rw (small, finish_within) at h) in
            (not_ltb→le (length bytes) limit small, made, same)
      ]

  -- Where nothing could be stripped, the size is the same and still too large.
  finish_stripped-IsBuilt :
      (raw : RawSnapshot) (attempt attempts : ℕ) (events : List CaptureEvent) (limit : ℕ)
      (original : Bytes) (result : CaptureResult Instant)
      → serde.to_vec_pretty raw ≡ ok original
      → ltb limit (length original) ≡ true
      → finish_stripped parse_rfc3339 codecs serde raw attempt attempts events limit original
        ≡ ok result
      → IsBuilt raw limit attempts result
  unfolding finish_stripped
  finish_stripped-IsBuilt raw attempt attempts events limit original result written large h =
      let stripped = strip_prompt_enrichment raw.sessions in
      let over : limit < length original = ground arith in
      elim (Bool-cases (is_empty stripped.1)) [
        | inl unaffected ↦
            let (small, _, _) =
              finish_within-eq-ok (record raw { sessions = stripped.0 }) attempts events limit
                original result (rw (unaffected, finish_stripped) at h) in
            absurd (omega arith)
        | inr affected ↦
            let (bytes, serial, h₁) =
              >>=-eq-ok
                (serialized parse_rfc3339 codecs serde (record raw { sessions = stripped.0 })) _
                (rw (affected, finish_stripped) at h) in
            let (small, made, same) =
              finish_within-eq-ok (record raw { sessions = stripped.0 }) attempts _ limit bytes
                result h₁ in
            record {
              kept = record raw { sessions = stripped.0 };
              refined = made;
              bytes = bytes;
              written = serialized-eq-ok (record raw { sessions = stripped.0 }) bytes serial;
              fits = small;
              whole_or_stripped = inr (
                original,
                written,
                over,
                ap (λ (sessions : List RawSessionSnapshot). record raw { sessions = sessions })
                    (strip_prompt_enrichment-forget_session raw.sessions),
              );
              same_attempts = same;
            }
      ]

  -- The candidate of a capture, as a raw snapshot.
  abbrev pub raw_of :
      CaptureTime Instant → SnapshotSource → RawCaptureConsistency → CaptureCandidate → RawSnapshot
  raw_of captured_at source consistency made = record {
    captured_at = captured_at.encoded;
    source = OsString.path_to_raw codecs source.path;
    consistency = consistency;
    sessions = made.sessions;
  }

  -- A result has the snapshot that the candidate refines to, if its JSON is within the limit, and
  -- else that of the candidate without prompts, whose JSON then is within the limit; nothing but
  -- prompts is ever dropped.
  pub build_result_with_serialization_limit-IsBuilt :
      (captured_at : CaptureTime Instant) (source : SnapshotSource)
      (consistency : RawCaptureConsistency) (made : CaptureCandidate) (attempts : ℕ)
      (events : List CaptureEvent) (limit : ℕ) (result : CaptureResult Instant)
      → build_result_with_serialization_limit parse_rfc3339 codecs serde captured_at source
          consistency made attempts events limit
        ≡ ok result
      → IsBuilt (raw_of captured_at source consistency made) limit attempts result
  unfolding build_result_with_serialization_limit
  build_result_with_serialization_limit-IsBuilt captured_at source consistency made attempts events
        limit result h =
      let raw = raw_of captured_at source consistency made in
      let (bytes, serial, h₁) = >>=-eq-ok (serialized parse_rfc3339 codecs serde raw) _ h in
      let written = serialized-eq-ok raw bytes serial in
      elim (Bool-cases (ltb limit (length bytes))) [
        | inl large ↦
            finish_stripped-IsBuilt raw made.attempt attempts events limit bytes result written
              large (rw large at h₁)
        | inr small ↦
            let (refined, same) = finish_result-eq-ok raw attempts events result (rw small at h₁) in
            record {
              kept = raw;
              refined = refined;
              bytes = bytes;
              written = written;
              fits = not_ltb→le (length bytes) limit small;
              whole_or_stripped = inl refl;
              same_attempts = same;
            }
      ]
