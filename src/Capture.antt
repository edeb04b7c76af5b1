-- ===== src/Capture.antt =====
-- capture.rs: a snapshot of a running tmux server, from two readings of its topology.
pub mod Topology
pub mod Source
pub mod Pane
pub mod Build
pub mod Run
mod Tests
use tmux_rescue.Common.{
  Bool, List, Result, err, false, if◌then◌else◌, is_empty, list_eq, not, num_eq, ok, ℕ, ◌==◌,
}
use tmux_rescue.Std.Path.{is_absolute}
use tmux_rescue.Std.Text.{Text}
use tmux_rescue.Model.OsString.{LosslessOsString, RecordedAbsolutePath}
use tmux_rescue.VisiblePane.{TmuxPaneId}

pub data PaneInitialProcess : Type 0 where
  default_shell : (executable : LosslessOsString) → PaneInitialProcess
  explicit_command : PaneInitialProcess

pub record PaneProcessAnchor : Type 0 where
  pub pane_pid : ℕ
  pub pane_tty : LosslessOsString
  pub initial_process : PaneInitialProcess

pub data PaneAnchorError : Type 0 where
  zero_pane_process_id pane_tty_not_absolute empty_default_shell : PaneAnchorError

is_empty_shell : PaneInitialProcess → Bool
is_empty_shell (default_shell executable) = is_empty executable.bytes
is_empty_shell explicit_command = false

-- `PaneProcessAnchor::try_new`
unfoldable pub anchor_try_new :
    ℕ → LosslessOsString → PaneInitialProcess → Result PaneAnchorError PaneProcessAnchor
unfolding is_empty_shell
anchor_try_new pane_pid pane_tty initial_process =
    if pane_pid == 0
    then err zero_pane_process_id
    else if not (is_absolute pane_tty.bytes)
    then err pane_tty_not_absolute
    else if is_empty_shell initial_process
    then err empty_default_shell
    else ok (record { pane_pid = pane_pid; pane_tty = pane_tty; initial_process = initial_process })

pub record TopologyPane : Type 0 where
  pub source_index : ℕ
  pub pane_id : TmuxPaneId
  pub working_directory : RecordedAbsolutePath
  pub process_anchor : PaneProcessAnchor

pub record TopologyWindow : Type 0 where
  pub source_index : ℕ
  pub name : Text
  pub panes : List TopologyPane

pub record TopologySession : Type 0 where
  pub name : Text
  pub working_directory : RecordedAbsolutePath
  pub windows : List TopologyWindow
