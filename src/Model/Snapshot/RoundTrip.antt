-- ===== src/Model/Snapshot/RoundTrip.antt =====
-- Reading back a well-formed snapshot.
use tmux_rescue.Common.{
  All, IsNew, List, Option, [], arith, false, is_empty-map, length, length-map, le→not_ltb, list_eq,
  ltb, map, num_eq, ok, refl, some, ℕ, ◌+◌, ◌∙◌, ◌∷◌, ◌≡◌, ◌≤◌,
}
use tmux_rescue.Std.Text.{Text}
use tmux_rescue.Model.Codec.{CodecLaws, Codecs}
use tmux_rescue.Model.Error.{refuse_if-next}
use tmux_rescue.Model.Name.Laws.{validate_session_name_iff, validate_window_name_iff}
use tmux_rescue.Model.OsString.Laws.{path_from_raw-path_to_raw}
use tmux_rescue.Model.Recovery.Laws.{validate_recovery-recovery_to_raw}
use tmux_rescue.Model.Snapshot.{
  CaptureConsistency, CaptureTime, PaneSnapshot, SessionSnapshot, ValidatedSnapshot, WindowSnapshot,
  consistency_to_raw, pane_to_raw, parse_capture_time, refine, refine_consistency, session_to_raw,
  snapshot_to_raw, stable, unstable, validate_pane, validate_panes, validate_session,
  validate_sessions, validate_window, validate_windows, window_to_raw,
}
use tmux_rescue.Model.Snapshot.Laws.{
  IsConsistency, IsPane, IsSession, IsSnapshot, IsWindow, pane_indexes, session_names,
  window_indexes,
}

few_mapped :
    {A B : Type 0} (xs : List A) (f : A → B) {maximum : ℕ}
    → length xs ≤ maximum
    → ltb maximum (length (map f xs)) ≡ false
few_mapped xs f {maximum} h = rw (length-map xs f) (le→not_ltb (length xs) maximum h)

module _ (codecs : Codecs) (laws : CodecLaws codecs) where
  validate_pane-pane_to_raw :
      (pane : PaneSnapshot) (field : Text)
      → IsPane pane
      → validate_pane codecs (pane_to_raw codecs pane) field ≡ ok pane
  unfolding validate_pane pane_to_raw
  validate_pane-pane_to_raw pane field h = rw (
    path_from_raw-path_to_raw codecs laws pane.working_directory _ h.0,
    validate_recovery-recovery_to_raw codecs laws pane.recovery field h.1,
  )

  validate_panes-map :
      (session : Text) (window_index : ℕ) (field : Text) (seen : List ℕ) (position : ℕ)
      (panes : List PaneSnapshot)
      → All IsPane panes
      → IsNew seen (pane_indexes panes)
      → validate_panes codecs session window_index field seen position
          (map (pane_to_raw codecs) panes)
        ≡ ok panes
  unfolding validate_panes pane_to_raw
  validate_panes-map session window_index field seen position [] h k = refl
  validate_panes-map session window_index field seen position (pane ∷ panes) (p, h) (new, k) =
      refuse_if-next _ new
      ∙ rw (
        validate_pane-pane_to_raw pane _ p,
        validate_panes-map session window_index field (pane.source_index ∷ seen) (position + 1)
            panes h k,
      )

  validate_window-window_to_raw :
      (window : WindowSnapshot) (session : Text) (session_position window_position : ℕ)
      → IsWindow window
      → validate_window codecs
          (window_to_raw codecs window)
          session
          session_position
          window_position
        ≡ ok window
  unfolding validate_window window_to_raw
  validate_window-window_to_raw window session session_position window_position h = rw (
    (validate_window_name_iff window.name session_position window_position).1 h.proper_name,
    refuse_if-next _ (is_empty-map window.panes (pane_to_raw codecs) ∙ h.some_pane),
    refuse_if-next _ (few_mapped window.panes (pane_to_raw codecs) h.few_panes),
    validate_panes-map session window.source_index _ [] 0 window.panes h.each_pane h.distinct,
  )

  validate_windows-map :
      (session : Text) (session_position : ℕ) (seen : List ℕ) (position : ℕ)
      (windows : List WindowSnapshot)
      → All IsWindow windows
      → IsNew seen (window_indexes windows)
      → validate_windows codecs session session_position seen position
          (map (window_to_raw codecs) windows)
        ≡ ok windows
  unfolding validate_windows window_to_raw
  validate_windows-map session session_position seen position [] h k = refl
  validate_windows-map session session_position seen position (window ∷ windows) (p, h) (new, k) =
      refuse_if-next _ new
      ∙ rw (
        validate_window-window_to_raw window session session_position position p,
        validate_windows-map session session_position (window.source_index ∷ seen) (position + 1)
            windows h k,
      )

  validate_session-session_to_raw :
      (session : SessionSnapshot) (position : ℕ)
      → IsSession session
      → validate_session codecs (session_to_raw codecs session) position ≡ ok session
  unfolding validate_session session_to_raw
  validate_session-session_to_raw session position h = rw (
    path_from_raw-path_to_raw codecs laws session.working_directory _ h.proper_path,
    refuse_if-next _ (is_empty-map session.windows (window_to_raw codecs) ∙ h.some_window),
    refuse_if-next _ (few_mapped session.windows (window_to_raw codecs) h.few_windows),
    validate_windows-map session.name position [] 0 session.windows h.each_window h.distinct,
  )

  validate_sessions-map :
      (seen : List Text) (position : ℕ) (sessions : List SessionSnapshot)
      → All IsSession sessions
      → IsNew seen (session_names sessions)
      → validate_sessions codecs seen position (map (session_to_raw codecs) sessions) ≡ ok sessions
  unfolding validate_sessions session_to_raw
  validate_sessions-map seen position [] h k = refl
  validate_sessions-map seen position (session ∷ sessions) (p, h) (new, k) = rw (
    (validate_session_name_iff session.name position).1 p.proper_name,
    refuse_if-next _ new,
    validate_session-session_to_raw session position p,
    validate_sessions-map (session.name ∷ seen) (position + 1) sessions h k,
  )

refine_consistency-consistency_to_raw :
    (consistency : CaptureConsistency)
    → IsConsistency consistency
    → refine_consistency (consistency_to_raw consistency) ≡ ok consistency
unfolding refine_consistency consistency_to_raw
refine_consistency-consistency_to_raw stable h = refl
refine_consistency-consistency_to_raw (unstable count) h = ground arith

module _ {Instant : Type 0} (parse_rfc3339 : Text → Option Instant) where
  parse_capture_time-encoded :
      (time : CaptureTime Instant)
      → parse_rfc3339 time.encoded ≡ some time.value
      → parse_capture_time parse_rfc3339 time.encoded ≡ ok time
  unfolding parse_capture_time
  parse_capture_time-encoded time h = rw (h, parse_capture_time)

  module _ (codecs : Codecs) (laws : CodecLaws codecs) where
    -- For a well-formed snapshot, refining its raw form gives the snapshot back.
    pub refine-snapshot_to_raw :
        (snapshot : ValidatedSnapshot Instant)
        → IsSnapshot parse_rfc3339 snapshot
        → refine parse_rfc3339 codecs (snapshot_to_raw codecs snapshot) ≡ ok snapshot
    unfolding refine snapshot_to_raw
    refine-snapshot_to_raw snapshot h = rw (
      parse_capture_time-encoded snapshot.captured_at h.proper_time,
      path_from_raw-path_to_raw codecs laws snapshot.source.path _ h.proper_source,
      refine_consistency-consistency_to_raw snapshot.consistency h.proper_consistency,
      refuse_if-next _ (is_empty-map snapshot.sessions (session_to_raw codecs) ∙ h.some_session),
      refuse_if-next _ (few_mapped snapshot.sessions (session_to_raw codecs) h.few_sessions),
      validate_sessions-map codecs laws [] 0 snapshot.sessions h.each_session h.distinct,
    )
