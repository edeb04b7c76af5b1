-- ===== src/Model/Snapshot/Laws.antt =====
-- What every accepted snapshot satisfies: every name, path, index and size is in order.
use tmux_rescue.Model.OsString
use tmux_rescue.Common.{
  >>=-eq-ok, All, IsDistinct, IsNew, List, Option, [], arith, false, is_empty, is_empty-length,
  length, list_eq, num_eq, ok, some, ℕ, ◌+◌, ◌∷◌, ◌≡◌, ◌≤◌,
}
use tmux_rescue.Std.Text.{Text}
use tmux_rescue.Model.Codec.{CodecLaws, Codecs}
use tmux_rescue.Model.Error.{
  max_panes_per_window, max_sessions, max_topology_validation_attempts, max_windows_per_session,
  refuse_if-eq-ok,
}
use tmux_rescue.Model.Name.{validate_session_name, validate_window_name}
use tmux_rescue.Model.Name.Laws.{
  IsName, IsSessionName, validate_session_name_iff, validate_window_name_iff,
}
use tmux_rescue.Model.OsString.Laws.{IsRecordedPath, path_from_raw-IsRecordedPath}
use tmux_rescue.Model.Recovery.{validate_recovery}
use tmux_rescue.Model.Recovery.Laws.{IsRecovery, validate_recovery-IsRecovery}
use tmux_rescue.Model.Snapshot.{
  CaptureConsistency, CaptureTime, PaneSnapshot, RawCaptureConsistency, RawPaneSnapshot,
  RawSessionSnapshot, RawSnapshot, RawWindowSnapshot, SessionSnapshot, ValidatedSnapshot,
  WindowSnapshot, parse_capture_time, raw_stable, raw_unstable, refine, refine_consistency, stable,
  unstable, validate_pane, validate_panes, validate_session, validate_sessions, validate_window,
  validate_windows,
}

abbrev pub IsPane : PaneSnapshot → Type 0
IsPane pane = IsRecordedPath pane.working_directory × IsRecovery pane.recovery

abbrev pub pane_indexes : List PaneSnapshot → List ℕ
pane_indexes [] = []
pane_indexes (pane ∷ panes) = pane.source_index ∷ pane_indexes panes

pub record IsWindow (window : WindowSnapshot) : Type 0 where
  pub proper_name : IsName window.name
  pub some_pane : is_empty window.panes ≡ false
  pub few_panes : length window.panes ≤ max_panes_per_window
  pub each_pane : All IsPane window.panes
  pub distinct : IsDistinct (pane_indexes window.panes)

abbrev pub window_indexes : List WindowSnapshot → List ℕ
window_indexes [] = []
window_indexes (window ∷ windows) = window.source_index ∷ window_indexes windows

pub record IsSession (session : SessionSnapshot) : Type 0 where
  pub proper_name : IsSessionName session.name
  pub proper_path : IsRecordedPath session.working_directory
  pub some_window : is_empty session.windows ≡ false
  pub few_windows : length session.windows ≤ max_windows_per_session
  pub each_window : All IsWindow session.windows
  pub distinct : IsDistinct (window_indexes session.windows)

abbrev pub session_names : List SessionSnapshot → List Text
session_names [] = []
session_names (session ∷ sessions) = session.name ∷ session_names sessions

-- An unstable snapshot has used up the attempts.
abbrev pub IsConsistency : CaptureConsistency → Type 0
IsConsistency stable = Unit
IsConsistency (unstable count) = count.attempts ≡ max_topology_validation_attempts

module _ {Instant : Type 0} (parse_rfc3339 : Text → Option Instant) where
  pub record IsSnapshot (snapshot : ValidatedSnapshot Instant) : Type 0 where
    pub proper_time : parse_rfc3339 snapshot.captured_at.encoded ≡ some snapshot.captured_at.value
    pub proper_source : IsRecordedPath snapshot.source.path
    pub proper_consistency : IsConsistency snapshot.consistency
    pub some_session : is_empty snapshot.sessions ≡ false
    pub few_sessions : length snapshot.sessions ≤ max_sessions
    pub each_session : All IsSession snapshot.sessions
    pub distinct : IsDistinct (session_names snapshot.sessions)

module _ (codecs : Codecs) (laws : CodecLaws codecs) where
  validate_pane-IsPane :
      (raw : RawPaneSnapshot) (field : Text) (pane : PaneSnapshot)
      → validate_pane codecs raw field ≡ ok pane
      → IsPane pane × (pane.source_index ≡ raw.source_index)
  unfolding validate_pane
  validate_pane-IsPane raw field pane h =
      let (path, located, h₁) =
        >>=-eq-ok (OsString.path_from_raw codecs raw.working_directory _) _ h in
      let (recovery, found, same) = >>=-eq-ok (validate_recovery codecs raw.recovery field) _ h₁ in
      ground (
        arith,
        path_from_raw-IsRecordedPath codecs raw.working_directory _ path located,
        validate_recovery-IsRecovery codecs laws raw.recovery field recovery found,
      )

  validate_panes-IsPane :
      (session : Text) (window_index : ℕ) (field : Text) (seen : List ℕ) (position : ℕ)
      (raws : List RawPaneSnapshot) (panes : List PaneSnapshot)
      → validate_panes codecs session window_index field seen position raws ≡ ok panes
      → All IsPane panes × IsNew seen (pane_indexes panes) × (length panes ≡ length raws)
  unfolding validate_panes
  validate_panes-IsPane session window_index field seen position [] panes h = ground arith
  validate_panes-IsPane session window_index field seen position (raw ∷ raws) panes h =
      let (new, h₁) = refuse_if-eq-ok _ h in
      let (pane, valid, h₂) = >>=-eq-ok (validate_pane codecs raw _) _ h₁ in
      let (rest, others, same) =
        >>=-eq-ok
          (validate_panes codecs session window_index field (raw.source_index ∷ seen) (position + 1)
            raws)
          _ h₂ in
      ground (
        arith,
        validate_pane-IsPane raw _ pane valid,
        validate_panes-IsPane session window_index field (raw.source_index ∷ seen) (position + 1)
            raws rest others,
      )

  pub validate_window-IsWindow :
      (raw : RawWindowSnapshot) (session : Text) (session_position window_position : ℕ)
      (window : WindowSnapshot)
      → validate_window codecs raw session session_position window_position ≡ ok window
      → IsWindow window × (window.source_index ≡ raw.source_index)
  unfolding validate_window
  validate_window-IsWindow raw session session_position window_position window h =
      let (_, named, h₁) = >>=-eq-ok (validate_window_name raw.name _ _) _ h in
      let (some_pane, h₂) = refuse_if-eq-ok _ h₁ in
      let (few, h₃) = refuse_if-eq-ok _ h₂ in
      let (panes, valid, same) =
        >>=-eq-ok (validate_panes codecs session raw.source_index _ [] 0 raw.panes) _ h₃ in
      ground (
        arith,
        (validate_window_name_iff raw.name _ _).0 named,
        validate_panes-IsPane session raw.source_index _ [] 0 raw.panes panes valid,
        is_empty-length panes,
        is_empty-length raw.panes,
      )

  validate_windows-IsWindow :
      (session : Text) (session_position : ℕ) (seen : List ℕ) (position : ℕ)
      (raws : List RawWindowSnapshot) (windows : List WindowSnapshot)
      → validate_windows codecs session session_position seen position raws ≡ ok windows
      → All IsWindow windows × IsNew seen (window_indexes windows) × (length windows ≡ length raws)
  unfolding validate_windows
  validate_windows-IsWindow session session_position seen position [] windows h = ground arith
  validate_windows-IsWindow session session_position seen position (raw ∷ raws) windows h =
      let (new, h₁) = refuse_if-eq-ok _ h in
      let (window, valid, h₂) =
        >>=-eq-ok (validate_window codecs raw session session_position position) _ h₁ in
      let (rest, others, same) =
        >>=-eq-ok
          (validate_windows codecs session session_position (raw.source_index ∷ seen) (position + 1)
            raws)
          _ h₂ in
      let proper = validate_window-IsWindow raw session session_position position window valid in
      let later =
        validate_windows-IsWindow session session_position (raw.source_index ∷ seen) (position + 1)
          raws rest others in
      ground arith

  pub validate_session-IsSession :
      (raw : RawSessionSnapshot) (position : ℕ) (session : SessionSnapshot)
      → IsSessionName raw.name
      → validate_session codecs raw position ≡ ok session
      → IsSession session × (session.name ≡ raw.name)
  unfolding validate_session
  validate_session-IsSession raw position session named h =
      let (path, located, h₁) =
        >>=-eq-ok (OsString.path_from_raw codecs raw.working_directory _) _ h in
      let (some_window, h₂) = refuse_if-eq-ok _ h₁ in
      let (few, h₃) = refuse_if-eq-ok _ h₂ in
      let (windows, valid, same) =
        >>=-eq-ok (validate_windows codecs raw.name position [] 0 raw.windows) _ h₃ in
      ground (
        arith,
        path_from_raw-IsRecordedPath codecs raw.working_directory _ path located,
        validate_windows-IsWindow raw.name position [] 0 raw.windows windows valid,
        is_empty-length windows,
        is_empty-length raw.windows,
      )

  validate_sessions-IsSession :
      (seen : List Text) (position : ℕ) (raws : List RawSessionSnapshot)
      (sessions : List SessionSnapshot)
      → validate_sessions codecs seen position raws ≡ ok sessions
      → All IsSession sessions
        × IsNew seen (session_names sessions)
        × (length sessions ≡ length raws)
  unfolding validate_sessions
  validate_sessions-IsSession seen position [] sessions h = ground arith
  validate_sessions-IsSession seen position (raw ∷ raws) sessions h =
      let (_, named, h₁) = >>=-eq-ok (validate_session_name raw.name position) _ h in
      let (new, h₂) = refuse_if-eq-ok _ h₁ in
      let (session, valid, h₃) = >>=-eq-ok (validate_session codecs raw position) _ h₂ in
      let (rest, others, same) =
        >>=-eq-ok (validate_sessions codecs (raw.name ∷ seen) (position + 1) raws) _ h₃ in
      let proper =
        validate_session-IsSession raw position session
          ((validate_session_name_iff raw.name position).0 named) valid in
      let later = validate_sessions-IsSession (raw.name ∷ seen) (position + 1) raws rest others in
      ground arith

refine_consistency-IsConsistency :
    (raw : RawCaptureConsistency) (consistency : CaptureConsistency)
    → refine_consistency raw ≡ ok consistency
    → IsConsistency consistency
unfolding refine_consistency
refine_consistency-IsConsistency raw_stable consistency h = ground arith
refine_consistency-IsConsistency (raw_unstable attempts) consistency h = ground arith

module _ {Instant : Type 0} (parse_rfc3339 : Text → Option Instant) where
  parse_capture_time_lem :
      (encoded : Text) (time : CaptureTime Instant)
      → parse_capture_time parse_rfc3339 encoded ≡ ok time
      → parse_rfc3339 time.encoded ≡ some time.value
  unfolding parse_capture_time
  parse_capture_time_lem encoded time h = ground arith

  module _ (codecs : Codecs) (laws : CodecLaws codecs) where
    -- A snapshot that `refine` accepts is well formed: names, paths, recoveries and the capture
    -- time are valid, every level is nonempty and within its limit, and session names, window
    -- indexes and pane indexes are distinct in their level.
    pub refine-IsSnapshot :
        (raw : RawSnapshot) (snapshot : ValidatedSnapshot Instant)
        → refine parse_rfc3339 codecs raw ≡ ok snapshot
        → IsSnapshot parse_rfc3339 snapshot
    unfolding refine
    refine-IsSnapshot raw snapshot h =
        let (time, parsed, h₁) = >>=-eq-ok (parse_capture_time parse_rfc3339 raw.captured_at) _ h in
        let (path, located, h₂) = >>=-eq-ok (OsString.path_from_raw codecs raw.source _) _ h₁ in
        let (consistency, known, h₃) = >>=-eq-ok (refine_consistency raw.consistency) _ h₂ in
        let (some_session, h₄) = refuse_if-eq-ok _ h₃ in
        let (few, h₅) = refuse_if-eq-ok _ h₄ in
        let (sessions, valid, same) = >>=-eq-ok (validate_sessions codecs [] 0 raw.sessions) _ h₅ in
        ground (
          arith,
          parse_capture_time_lem raw.captured_at time parsed,
          path_from_raw-IsRecordedPath codecs raw.source _ path located,
          refine_consistency-IsConsistency raw.consistency consistency known,
          validate_sessions-IsSession codecs laws [] 0 raw.sessions sessions valid,
          is_empty-length sessions,
          is_empty-length raw.sessions,
        )
