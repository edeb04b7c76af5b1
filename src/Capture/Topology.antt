-- ===== src/Capture/Topology.antt =====
-- `TopologyObservation`: what runs where, checked and in one order, and its fingerprint.
mod Tests
pub mod Ordered
use tmux_rescue.Common.{
  Bool, List, [], contains, false, if◌then◌else◌, is_empty, length, list_eq, ltb, map, num_eq, ok,
  true, ℕ, ◌&&◌, ◌+◌, ◌==◌, ◌>>=◌, ◌>>◌, ◌∷◌,
}
use tmux_rescue.Std.Sort.{sort_by}
use tmux_rescue.Std.Text.{Text}
use tmux_rescue.Capture.{TopologyPane, TopologySession, TopologyWindow}
use tmux_rescue.Model.Error.{
  Validation, duplicate_pane_index, duplicate_session_name, duplicate_window_index, empty_panes,
  empty_sessions, empty_windows, max_panes_per_window, max_sessions, max_windows_per_session,
  refuse_if, too_many_panes, too_many_sessions, too_many_windows,
}
use tmux_rescue.Model.Name.{validate_session_name, validate_window_name}

-- `Ord` of texts: by their bytes.
abbrev pub text_less : Text → Text → Bool
text_less [] [] = false
text_less [] (_ ∷ _) = true
text_less (_ ∷ _) [] = false
text_less (c ∷ text) (d ∷ other) =
    let later = text_less text other in if ltb c d then true else if c == d then later else false

pub record TopologyObservation : Type 0 where
  pub sessions : List TopologySession

-- The loop over the panes of a window.
unfoldable pub check_pane_indexes : Text → ℕ → List ℕ → List TopologyPane → Validation (Unit {0})
check_pane_indexes session window_index seen [] = ok tt
check_pane_indexes session window_index seen (pane ∷ panes) = do
  refuse_if (contains seen pane.source_index)
      (duplicate_pane_index session window_index pane.source_index)
  check_pane_indexes session window_index (pane.source_index ∷ seen) panes

abbrev pub pane_key : TopologyPane → ℕ
pane_key pane = pane.source_index

abbrev pub window_key : TopologyWindow → ℕ
window_key window = window.source_index

abbrev pub session_key : TopologySession → Text
session_key session = session.name

-- The body of the loop over the windows, behind the check of the index.
unfoldable pub check_window : Text → TopologyWindow → Validation TopologyWindow
check_window session window = do
  refuse_if (is_empty window.panes) (empty_panes session window.source_index)
  refuse_if (ltb max_panes_per_window (length window.panes))
      (too_many_panes session window.source_index (length window.panes) max_panes_per_window)
  check_pane_indexes session window.source_index [] window.panes
  ok (record window { panes = sort_by pane_key ltb window.panes })

unfoldable pub check_windows :
    Text → ℕ → List ℕ → ℕ → List TopologyWindow → Validation (List TopologyWindow)
check_windows session session_position seen position [] = ok []
check_windows session session_position seen position (window ∷ windows) = do
  validate_window_name window.name session_position position
  refuse_if (contains seen window.source_index) (duplicate_window_index session window.source_index)
  checked ← check_window session window
  others ←
      check_windows session session_position (window.source_index ∷ seen) (position + 1) windows
  ok (checked ∷ others)

-- The body of the loop over the sessions, behind the check of the name.
unfoldable pub check_session : ℕ → TopologySession → Validation TopologySession
check_session position session = do
  refuse_if (is_empty session.windows) (empty_windows session.name)
  refuse_if (ltb max_windows_per_session (length session.windows))
      (too_many_windows session.name (length session.windows) max_windows_per_session)
  windows ← check_windows session.name position [] 0 session.windows
  ok (record session { windows = sort_by window_key ltb windows })

unfoldable pub check_sessions :
    List Text → ℕ → List TopologySession → Validation (List TopologySession)
check_sessions seen position [] = ok []
check_sessions seen position (session ∷ sessions) = do
  validate_session_name session.name position
  refuse_if (contains seen session.name) (duplicate_session_name session.name)
  checked ← check_session position session
  others ← check_sessions (session.name ∷ seen) (position + 1) sessions
  ok (checked ∷ others)

-- `TopologyObservation::try_new`
unfoldable pub topology_try_new : List TopologySession → Validation TopologyObservation
topology_try_new sessions = do
  refuse_if (is_empty sessions) empty_sessions
  refuse_if (ltb max_sessions (length sessions)) (too_many_sessions (length sessions) max_sessions)
  checked ← check_sessions [] 0 sessions
  ok (record { sessions = sort_by session_key text_less checked })

-- `TopologyFingerprint`, as the tree of its tuples.
pub record PaneFingerprint : Type 0 where
  pub source_index : ℕ
  pub pane_id : Text

pub record WindowFingerprint : Type 0 where
  pub source_index : ℕ
  pub panes : List PaneFingerprint

pub record SessionFingerprint : Type 0 where
  pub name : Text
  pub windows : List WindowFingerprint

abbrev pane_fingerprint : TopologyPane → PaneFingerprint
pane_fingerprint pane = record { source_index = pane.source_index; pane_id = pane.pane_id.text }

abbrev window_fingerprint : TopologyWindow → WindowFingerprint
window_fingerprint window = record {
  source_index = window.source_index;
  panes = map pane_fingerprint window.panes;
}

abbrev session_fingerprint : TopologySession → SessionFingerprint
session_fingerprint session = record {
  name = session.name;
  windows = map window_fingerprint session.windows;
}

unfoldable pub fingerprint : TopologyObservation → List SessionFingerprint
fingerprint reading = map session_fingerprint reading.sessions

same_list : {A : Type 0} → (A → A → Bool) → List A → List A → Bool
same_list same [] [] = true
same_list same (a ∷ xs) (b ∷ ys) = same a b && same_list same xs ys
same_list same _ _ = false

same_pane : PaneFingerprint → PaneFingerprint → Bool
same_pane a b = a.source_index == b.source_index && a.pane_id == b.pane_id

same_window : WindowFingerprint → WindowFingerprint → Bool
same_window a b = a.source_index == b.source_index && same_list same_pane a.panes b.panes

same_session : SessionFingerprint → SessionFingerprint → Bool
same_session a b = a.name == b.name && same_list same_window a.windows b.windows

-- The derived `PartialEq` of `TopologyFingerprint`.
unfoldable pub same_fingerprint : List SessionFingerprint → List SessionFingerprint → Bool
unfolding same_list same_pane same_window same_session
same_fingerprint = same_list same_session
