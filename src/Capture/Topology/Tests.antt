-- ===== src/Capture/Topology/Tests.antt =====
-- Two sessions out of order, one with its windows and panes out of order.
use tmux_rescue.Common.{List, [], list_eq, num_eq, ok, refl, ℕ, ◌∷◌, ◌≡◌}
use tmux_rescue.Std.Sort.{insert_sorted, sort_by}
use tmux_rescue.Std.Text.{Text, lit}
use tmux_rescue.Std.Utf8.{chars}
use tmux_rescue.Capture.{TopologyPane, TopologySession, TopologyWindow, explicit_command}
use tmux_rescue.Capture.Topology.{
  TopologyObservation, check_pane_indexes, check_session, check_sessions, check_window,
  check_windows, topology_try_new,
}
use tmux_rescue.Capture.Topology.Ordered.{IsOrderedTopology, topology_try_new-IsOrderedTopology}
use tmux_rescue.Model.Error.{refuse_if}
use tmux_rescue.Model.Name.{validate_name, validate_session_name, validate_window_name}
use tmux_rescue.Model.Snapshot.Tests.{panes}

abbrev pane_at : ℕ → TopologyPane
pane_at index = record {
  source_index = index;
  pane_id = record { text = lit "%0" };
  working_directory = record { path = record { bytes = lit "/srv" } };
  process_anchor = record {
    pane_pid = 7;
    pane_tty = record { bytes = lit "/dev/pts/1" };
    initial_process = explicit_command;
  };
}

abbrev window_at : ℕ → List TopologyPane → TopologyWindow
window_at index panes = record { source_index = index; name = lit "docs"; panes = panes }

abbrev session_named : Text → List TopologyWindow → TopologySession
session_named name windows = record {
  name = name;
  working_directory = record { path = record { bytes = lit "/srv" } };
  windows = windows;
}

abbrev listed : List TopologySession
listed =
    session_named (lit "work")
      (window_at 3 (pane_at 1 ∷ pane_at 0 ∷ []) ∷ window_at 1 (pane_at 0 ∷ []) ∷ [])
    ∷ session_named (lit "home") (window_at 0 (pane_at 0 ∷ []) ∷ [])
    ∷ []

abbrev in_order : TopologyObservation
in_order = record {
  sessions =
      session_named (lit "home") (window_at 0 (pane_at 0 ∷ []) ∷ [])
      ∷ session_named (lit "work")
          (window_at 1 (pane_at 0 ∷ []) ∷ window_at 3 (pane_at 0 ∷ pane_at 1 ∷ []) ∷ [])
      ∷ [];
}

accepted : topology_try_new listed ≡ ok in_order
unfolding topology_try_new check_sessions check_session check_windows check_window
    check_pane_indexes refuse_if sort_by insert_sorted validate_session_name validate_window_name
    validate_name chars
accepted = refl

topology_try_new-IsOrderedTopology_example : IsOrderedTopology in_order
topology_try_new-IsOrderedTopology_example =
    topology_try_new-IsOrderedTopology listed in_order accepted
