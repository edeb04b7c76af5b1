-- ===== src/Capture/Build.antt =====
-- `build_result`: the candidate as a snapshot, without its prompts if it would be too large.
pub mod Stripped
use tmux_rescue.Model.OsString
use tmux_rescue.Common.{
  Bool, List, Option, Result, [], err, false, if◌then◌else◌, is_empty, length, list_eq, ltb, map,
  none, num_eq, ok, some, true, ℕ, ◌++◌, ◌>>=◌, ◌>>◌, ◌∷◌,
}
use tmux_rescue.Std.Text.{Bytes, Text}
use tmux_rescue.Capture.Source.{
  CaptureCandidate, CaptureError, CaptureEvent, CaptureResult, codex_prompt_capture_skipped,
  invalid_candidate,
}
use tmux_rescue.Model.Codec.{Codecs}
use tmux_rescue.Model.Error.{Validation, max_snapshot_bytes, snapshot_too_large}
use tmux_rescue.Model.Recovery.{RawPaneRecovery, raw_automatic, raw_codex}
use tmux_rescue.Model.Snapshot.{
  CaptureTime, RawCaptureConsistency, RawPaneSnapshot, RawSessionSnapshot, RawSnapshot,
  RawWindowSnapshot, SnapshotSource,
}
use tmux_rescue.Model.Snapshot.Json.{Serde, from_capture_raw, or_invalid_json}
use tmux_rescue.Prompt.Area.{snapshot_size_budget_exceeded}
use tmux_rescue.Restore.Shell.{SourcePaneCoordinate}

-- What `strip_prompt_enrichment` leaves, with the coordinates of the panes that lost a prompt.
abbrev pub Stripped : Type 0 → Type 0
Stripped A = A × List SourcePaneCoordinate

-- `prompt_area.take()`, and whether there was one.
unfoldable pub take_prompt : RawPaneRecovery → RawPaneRecovery × Bool
take_prompt (raw_automatic (raw_codex session_id (some _))) =
    (raw_automatic (raw_codex session_id none), true)
take_prompt recovery = (recovery, false)

unfoldable pub strip_panes : Text → ℕ → List RawPaneSnapshot → Stripped (List RawPaneSnapshot)
strip_panes session_name window_index [] = ([], [])
strip_panes session_name window_index (pane ∷ panes) =
    let (recovery, taken) = take_prompt pane.recovery in
    let (others, affected) = strip_panes session_name window_index panes in
    let coordinate : SourcePaneCoordinate = record {
      session_name = session_name;
      window_index = window_index;
      pane_index = pane.source_index;
    } in
    (
      record pane { recovery = recovery } ∷ others,
      if taken then coordinate ∷ affected else affected,
    )

unfoldable pub strip_windows : Text → List RawWindowSnapshot → Stripped (List RawWindowSnapshot)
strip_windows session_name [] = ([], [])
strip_windows session_name (window ∷ windows) =
    let (panes, affected) = strip_panes session_name window.source_index window.panes in
    let (others, later) = strip_windows session_name windows in
    (record window { panes = panes } ∷ others, affected ++ later)

unfoldable pub strip_prompt_enrichment :
    List RawSessionSnapshot → Stripped (List RawSessionSnapshot)
strip_prompt_enrichment [] = ([], [])
strip_prompt_enrichment (session ∷ sessions) =
    let (windows, affected) = strip_windows session.name session.windows in
    let (others, later) = strip_prompt_enrichment sessions in
    (record session { windows = windows } ∷ others, affected ++ later)

abbrev pub budget_event : ℕ → SourcePaneCoordinate → CaptureEvent
budget_event attempt pane = codex_prompt_capture_skipped attempt pane snapshot_size_budget_exceeded

-- `map_err(CaptureError::InvalidCandidate)`
abbrev pub or_invalid_candidate : {A : Type 0} → Validation A → Result CaptureError A
or_invalid_candidate (ok a) = ok a
or_invalid_candidate (err error) = err (invalid_candidate error)

module _ {Instant : Type 0} (parse_rfc3339 : Text → Option Instant) (codecs : Codecs)
    (serde : Serde) where
  -- `serialize_for_persistence` with its two `map_err`.
  abbrev pub serialized : RawSnapshot → Result CaptureError Bytes
  serialized raw = or_invalid_candidate (or_invalid_json (serde.to_vec_pretty raw))

  -- The end of the function: what fits is refined.
  unfoldable pub finish_result :
      RawSnapshot → ℕ → List CaptureEvent → Result CaptureError (CaptureResult Instant)
  finish_result raw attempts events = do
    snapshot ← or_invalid_candidate (from_capture_raw parse_rfc3339 codecs serde raw)
    ok (record { snapshot = snapshot; attempts = attempts; events = events })

  -- The second check of the size.
  unfoldable pub finish_within :
      RawSnapshot → ℕ → List CaptureEvent → ℕ → Bytes → Result CaptureError (CaptureResult Instant)
  finish_within raw attempts events limit persisted =
      if ltb limit (length persisted)
      then err (invalid_candidate (snapshot_too_large (length persisted) limit))
      else finish_result raw attempts events

  -- A snapshot past the limit, with the bytes it had: serialised again if it lost prompts.
  unfoldable pub finish_stripped :
      RawSnapshot
      → (attempt attempts : ℕ) → List CaptureEvent
      → (limit : ℕ) → Bytes
      → Result CaptureError (CaptureResult Instant)
  finish_stripped raw attempt attempts events limit persisted =
      let (sessions, affected) = strip_prompt_enrichment raw.sessions in
      let stripped : RawSnapshot = record raw { sessions = sessions } in
      if is_empty affected
      then finish_within stripped attempts events limit persisted
      else serialized stripped
        >>= finish_within stripped attempts (events ++ map (budget_event attempt) affected) limit

  unfoldable pub build_result_with_serialization_limit :
      CaptureTime Instant
      → SnapshotSource
      → RawCaptureConsistency
      → CaptureCandidate
      → ℕ
      → List CaptureEvent
      → ℕ
      → Result CaptureError (CaptureResult Instant)
  build_result_with_serialization_limit captured_at source consistency made attempts events limit =
      let raw : RawSnapshot = record {
        captured_at = captured_at.encoded;
        source = OsString.path_to_raw codecs source.path;
        consistency = consistency;
        sessions = made.sessions;
      } in
      serialized raw >>= λ persisted.
      if ltb limit (length persisted)
      then finish_stripped raw made.attempt attempts events limit persisted
      else finish_result raw attempts events

  unfoldable pub build_result :
      CaptureTime Instant
      → SnapshotSource
      → RawCaptureConsistency
      → CaptureCandidate
      → ℕ
      → List CaptureEvent
      → Result CaptureError (CaptureResult Instant)
  build_result captured_at source consistency made attempts events =
      build_result_with_serialization_limit captured_at source consistency made attempts events
        max_snapshot_bytes
