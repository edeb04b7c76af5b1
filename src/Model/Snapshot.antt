-- ===== src/Model/Snapshot.antt =====
-- `RawSnapshot` and `ValidatedSnapshot`: the tree of sessions, windows and panes, its refinement
-- from the raw form, and the way back.
pub mod Laws
pub mod RoundTrip
pub mod Json
pub mod Tests
use tmux_rescue.Model.OsString
use tmux_rescue.Common.{
  List, Option, [], contains, err, if◌then◌else◌, is_empty, length, list_eq, ltb, map, none, num_eq,
  ok, some, ℕ, ◌++◌, ◌+◌, ◌==◌, ◌>>=◌, ◌>>◌, ◌∷◌,
}
use tmux_rescue.Std.Text.{Text, decimal, lit}
use tmux_rescue.Model.Codec.{Codecs}
use tmux_rescue.Model.Error.{
  Validation, duplicate_pane_index, duplicate_session_name, duplicate_window_index, empty_panes,
  empty_sessions, empty_windows, invalid_capture_time, invalid_unstable_attempt_count,
  max_panes_per_window, max_sessions, max_topology_validation_attempts, max_windows_per_session,
  refuse_if, too_many_panes, too_many_sessions, too_many_windows,
}
use tmux_rescue.Model.Name.{validate_session_name, validate_window_name}
use tmux_rescue.Model.OsString.{RawEncodedOsString, RecordedAbsolutePath}
use tmux_rescue.Model.Recovery.{PaneRecovery, RawPaneRecovery, recovery_to_raw, validate_recovery}

pub record RawPaneSnapshot : Type 0 where
  pub source_index : ℕ
  pub working_directory : RawEncodedOsString
  pub recovery : RawPaneRecovery

pub record RawWindowSnapshot : Type 0 where
  pub source_index : ℕ
  pub name : Text
  pub panes : List RawPaneSnapshot

pub record RawSessionSnapshot : Type 0 where
  pub name : Text
  pub working_directory : RawEncodedOsString
  pub windows : List RawWindowSnapshot

pub data RawCaptureConsistency : Type 0 where
  raw_stable : RawCaptureConsistency
  raw_unstable : (attempts : ℕ) → RawCaptureConsistency

pub record RawSnapshot : Type 0 where
  pub captured_at : Text
  pub source : RawEncodedOsString
  pub consistency : RawCaptureConsistency
  pub sessions : List RawSessionSnapshot

pub record PaneSnapshot : Type 0 where
  pub source_index : ℕ
  pub working_directory : RecordedAbsolutePath
  pub recovery : PaneRecovery

pub record WindowSnapshot : Type 0 where
  pub source_index : ℕ
  pub name : Text
  pub panes : List PaneSnapshot

pub record SessionSnapshot : Type 0 where
  pub name : Text
  pub working_directory : RecordedAbsolutePath
  pub windows : List WindowSnapshot

pub record SnapshotSource : Type 0 where
  pub path : RecordedAbsolutePath

pub record ExhaustedAttemptCount : Type 0 where
  pub attempts : ℕ

pub data CaptureConsistency : Type 0 where
  stable : CaptureConsistency
  unstable : ExhaustedAttemptCount → CaptureConsistency

-- `OffsetDateTime` is of the crate `time`: a parameter, with its parser.
pub record CaptureTime (Instant : Type 0) : Type 0 where
  pub value : Instant
  pub encoded : Text

pub record ValidatedSnapshot (Instant : Type 0) : Type 0 where
  pub captured_at : CaptureTime Instant
  pub source : SnapshotSource
  pub consistency : CaptureConsistency
  pub sessions : List SessionSnapshot

module _ (codecs : Codecs) where
  -- One pane, at its `field` of the raw snapshot.
  validate_pane : RawPaneSnapshot → Text → Validation PaneSnapshot
  validate_pane raw field = do
    working_directory ←
        OsString.path_from_raw codecs raw.working_directory (field ++ lit ".working_directory")
    recovery ← validate_recovery codecs raw.recovery field
    ok (record {
      source_index = raw.source_index;
      working_directory = working_directory;
      recovery = recovery;
    })

  -- The loop of `validate_window`: the indexes seen so far, and the position of the next pane.
  validate_panes :
      Text → ℕ → Text → List ℕ → ℕ → List RawPaneSnapshot → Validation (List PaneSnapshot)
  validate_panes session window_index field seen position [] = ok []
  validate_panes session window_index field seen position (raw ∷ raws) = do
    refuse_if (contains seen raw.source_index)
        (duplicate_pane_index session window_index raw.source_index)
    pane ← validate_pane raw (field ++ lit ".panes[" ++ decimal position ++ lit "]")
    panes ← validate_panes session window_index field (raw.source_index ∷ seen) (position + 1) raws
    ok (pane ∷ panes)

  pub validate_window : RawWindowSnapshot → Text → ℕ → ℕ → Validation WindowSnapshot
  validate_window raw session session_position window_position = do
    validate_window_name raw.name session_position window_position
    refuse_if (is_empty raw.panes) (empty_panes session raw.source_index)
    refuse_if (ltb max_panes_per_window (length raw.panes))
        (too_many_panes session raw.source_index (length raw.panes) max_panes_per_window)
    panes ←
        validate_panes session raw.source_index
          (lit "sessions["
            ++ decimal session_position
            ++ lit "].windows["
            ++ decimal window_position
            ++ lit "]")
          [] 0 raw.panes
    ok (record { source_index = raw.source_index; name = raw.name; panes = panes })

  -- The loop of `validate_session`.
  validate_windows :
      Text → ℕ → List ℕ → ℕ → List RawWindowSnapshot → Validation (List WindowSnapshot)
  validate_windows session session_position seen position [] = ok []
  validate_windows session session_position seen position (raw ∷ raws) = do
    refuse_if (contains seen raw.source_index) (duplicate_window_index session raw.source_index)
    window ← validate_window raw session session_position position
    windows ←
        validate_windows session session_position (raw.source_index ∷ seen) (position + 1) raws
    ok (window ∷ windows)

  pub validate_session : RawSessionSnapshot → ℕ → Validation SessionSnapshot
  validate_session raw session_position = do
    working_directory ←
        OsString.path_from_raw codecs raw.working_directory
          (lit "sessions[" ++ decimal session_position ++ lit "].working_directory")
    refuse_if (is_empty raw.windows) (empty_windows raw.name)
    refuse_if (ltb max_windows_per_session (length raw.windows))
        (too_many_windows raw.name (length raw.windows) max_windows_per_session)
    windows ← validate_windows raw.name session_position [] 0 raw.windows
    ok (record { name = raw.name; working_directory = working_directory; windows = windows })

  -- The loop of `refine`.
  validate_sessions : List Text → ℕ → List RawSessionSnapshot → Validation (List SessionSnapshot)
  validate_sessions seen position [] = ok []
  validate_sessions seen position (raw ∷ raws) = do
    validate_session_name raw.name position
    refuse_if (contains seen raw.name) (duplicate_session_name raw.name)
    session ← validate_session raw position
    sessions ← validate_sessions (raw.name ∷ seen) (position + 1) raws
    ok (session ∷ sessions)

  pub pane_to_raw : PaneSnapshot → RawPaneSnapshot
  pane_to_raw pane = record {
    source_index = pane.source_index;
    working_directory = OsString.path_to_raw codecs pane.working_directory;
    recovery = recovery_to_raw codecs pane.recovery;
  }

  pub window_to_raw : WindowSnapshot → RawWindowSnapshot
  window_to_raw window = record {
    source_index = window.source_index;
    name = window.name;
    panes = map pane_to_raw window.panes;
  }

  pub session_to_raw : SessionSnapshot → RawSessionSnapshot
  session_to_raw session = record {
    name = session.name;
    working_directory = OsString.path_to_raw codecs session.working_directory;
    windows = map window_to_raw session.windows;
  }

refine_consistency : RawCaptureConsistency → Validation CaptureConsistency
refine_consistency raw_stable = ok stable
refine_consistency (raw_unstable attempts) =
    if attempts == max_topology_validation_attempts
    then ok (unstable (record { attempts = attempts }))
    else err (invalid_unstable_attempt_count attempts max_topology_validation_attempts)

consistency_to_raw : CaptureConsistency → RawCaptureConsistency
consistency_to_raw stable = raw_stable
consistency_to_raw (unstable count) = raw_unstable count.attempts

module _ {Instant : Type 0} (parse_rfc3339 : Text → Option Instant) where
  -- `CaptureTime::parse`
  pub parse_capture_time : Text → Validation (CaptureTime Instant)
  parse_capture_time encoded = elim (parse_rfc3339 encoded) [
    | some value ↦ ok (record { value = value; encoded = encoded })
    | none ↦ err (invalid_capture_time encoded)
  ]

  module _ (codecs : Codecs) where
    pub refine : RawSnapshot → Validation (ValidatedSnapshot Instant)
    refine raw = do
      captured_at ← parse_capture_time raw.captured_at
      path ← OsString.path_from_raw codecs raw.source (lit "source")
      consistency ← refine_consistency raw.consistency
      refuse_if (is_empty raw.sessions) empty_sessions
      refuse_if (ltb max_sessions (length raw.sessions))
          (too_many_sessions (length raw.sessions) max_sessions)
      sessions ← validate_sessions codecs [] 0 raw.sessions
      ok (record {
        captured_at = captured_at;
        source = record { path = path };
        consistency = consistency;
        sessions = sessions;
      })

-- `RawSnapshot::from`
pub snapshot_to_raw : {Instant : Type 0} → Codecs → ValidatedSnapshot Instant → RawSnapshot
snapshot_to_raw codecs snapshot = record {
  captured_at = snapshot.captured_at.encoded;
  source = OsString.path_to_raw codecs snapshot.source.path;
  consistency = consistency_to_raw snapshot.consistency;
  sessions = map (session_to_raw codecs) snapshot.sessions;
}
