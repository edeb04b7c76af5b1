-- ===== src/Process/Select.antt =====
-- `select_foreground_processes`: the job that a pane's terminal has in the foreground.
pub mod Job
pub mod Chain
pub mod Tree
pub mod Upward
use tmux_rescue.Common.{
  Bool, List, Option, [], err, if◌then◌else◌, list_eq, ltb, none, not, num_eq, ok, some, ℕ, ◌&&◌,
  ◌==◌, ◌>>=◌, ◌>>◌, ◌||◌, ◌∷◌,
}
use tmux_rescue.Std.Number.{integer_beq, negsuc, pos, ℤ}
use tmux_rescue.Std.Sort.{sort_by}
use tmux_rescue.Process.{
  Inspected, ProcessStat, ambiguous_foreground_job, fail_if, foreground_leader_gone,
  no_foreground_process_group, pane_has_no_tty,
}
use tmux_rescue.Recovery.Group.{Parents, reaches_leader}

-- `matches!(state, b'Z' | b'X' | b'x')`
abbrev pub is_dead : ℕ → Bool
is_dead state = state == b'Z' || state == b'X' || state == b'x'

-- The closure of `filter`.
unfoldable pub is_in_job : ProcessStat → ℕ → ProcessStat → Bool
is_in_job pane group process =
    process.process_group == group
    && process.session_id == pane.session_id
    && integer_beq process.tty_device pane.tty_device
    && not (is_dead process.state)

unfoldable pub filter : {A : Type 0} → (A → Bool) → List A → List A
filter test [] = []
filter test (a ∷ xs) = let rest = filter test xs in if test a then a ∷ rest else rest

-- `find`
unfoldable pub find : {A : Type 0} → (A → Bool) → List A → Option A
find test [] = none
find test (a ∷ xs) = let rest = find test xs in if test a then some a else rest

-- `collect::<HashMap<_, _>>`, the latest first.
unfoldable pub collect_parents : Parents → List ProcessStat → Parents
collect_parents parents [] = parents
collect_parents parents (process ∷ processes) =
    collect_parents ((process.process_id, process.parent_process_id) ∷ parents) processes

-- The loop over the selected processes; its inner loop is the climb of Recovery/Group.
unfoldable pub check_job : Parents → ℕ → List ProcessStat → Inspected (Unit {0})
check_job parents group [] = ok tt
check_job parents group (process ∷ processes) = do
  fail_if
      (not (process.process_id == group) && not (reaches_leader parents group process.process_id))
      ambiguous_foreground_job
  check_job parents group processes

-- `u32::try_from`, where 0 is no group either.
unfoldable pub foreground_group_of : ℤ → Inspected ℕ
foreground_group_of (negsuc _) = err no_foreground_process_group
foreground_group_of (pos group) = do fail_if (group == 0) no_foreground_process_group; ok group

-- Behind the filter.
unfoldable pub check_selected : ℕ → List ProcessStat → Inspected (List ProcessStat)
check_selected group selected =
    elim (find (λ process. ProcessStat.process_id process == group) selected) [
      | none ↦ err foreground_leader_gone
      | some leader ↦ do
        fail_if (not (leader.process_group == group)) foreground_leader_gone
        check_job (collect_parents [] selected) group selected
        ok (sort_by ProcessStat.process_id ltb selected)
    ]

unfoldable pub select_foreground_processes :
    ProcessStat → List ProcessStat → Inspected (List ProcessStat)
select_foreground_processes pane processes = do
  fail_if (integer_beq pane.tty_device (pos 0)) pane_has_no_tty
  group ← foreground_group_of pane.foreground_process_group
  check_selected group (filter (is_in_job pane group) processes)
