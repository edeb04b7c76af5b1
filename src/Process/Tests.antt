-- ===== src/Process/Tests.antt =====
-- The job of a pane on a small process table, a line of `/proc/<pid>/stat`, and a command line.
use tmux_rescue.Common.{
  List, [], arith, err, inr, list_eq, ltb, num_eq, ok, refl, ℕ, ◌++◌, ◌∷◌, ◌≡◌,
}
use tmux_rescue.Std.Number.{parse_i32, parse_i64, parse_u32, parse_u64, pos}
use tmux_rescue.Std.Path.{split}
use tmux_rescue.Std.Search.{trim_end_matches}
use tmux_rescue.Std.Sort.{insert_sorted, sort_by}
use tmux_rescue.Std.Text.{Bytes, lit}
use tmux_rescue.Std.Utf8.{decode, is_utf8}
use tmux_rescue.Model.OsString.{LosslessOsString, from_bytes}
use tmux_rescue.Process.{
  ProcessStat, arguments_of_parts, empty_argv_zero, fail_if, max_cmdline_bytes, parse_proc_cmdline,
  without_final_nul,
}
use tmux_rescue.Process.Cmdline.{IsCmdline, parse_proc_cmdline-eq-ok_iff}
use tmux_rescue.Process.Pinned.{PinnedExecutableObservation, executable_of}
use tmux_rescue.Process.Pinned.Identity.{executable_of-eq-ok_iff}
use tmux_rescue.Process.Select.{
  check_job, check_selected, collect_parents, filter, find, foreground_group_of, is_in_job,
  select_foreground_processes,
}
use tmux_rescue.Process.Select.Job.{IsForegroundJob, select_foreground_processes-eq-ok_iff}
use tmux_rescue.Process.Stat.{
  around_first, behind_last, fields_from, nth_field, parse_number, parse_proc_stat, stat_from,
  stat_of, state_of, trim_ascii, trim_start,
}
use tmux_rescue.Process.Stat.Name.{parse_proc_stat-any_name}
use tmux_rescue.Recovery.Evidence.{pinned_unlinked}
use tmux_rescue.Recovery.Group.{climb, reaches_leader}

-- A `stat` line for a shell named `a) (b`.
shell_line : Bytes
shell_line = lit "7 (a) (b) S 5 7 7 34816 9 4194304 1 2 3 4 5 6 7 8 20 0 1 0 4242 9"

abbrev process_of : (process_id parent group : ℕ) → ProcessStat
process_of process_id parent group = record {
  process_id = process_id;
  state = b'S';
  parent_process_id = parent;
  process_group = group;
  session_id = 7;
  tty_device = pos 34816;
  foreground_process_group = pos 9;
  start_time = 4242;
}

abbrev pane_shell : ProcessStat
pane_shell = process_of 7 5 7

-- A dead process and one of another session have no part in the job.
abbrev table : List ProcessStat
table =
    pane_shell
    ∷ process_of 12 11 9
    ∷ record (process_of 13 1 9) { state = b'Z' }
    ∷ process_of 9 7 9
    ∷ record (process_of 14 1 9) { session_id = 8 }
    ∷ process_of 11 9 9
    ∷ []

abbrev job : List ProcessStat
job = process_of 9 7 9 ∷ process_of 11 9 9 ∷ process_of 12 11 9 ∷ []

parse_shell_line : parse_proc_stat 7 shell_line ≡ ok (process_of 7 5 7)
unfolding parse_proc_stat stat_from stat_of around_first behind_last parse_number fields_from
    trim_ascii trim_start trim_end_matches parse_u32 parse_u64 parse_i32 parse_i64 is_utf8 decode
    fail_if shell_line state_of nth_field
parse_shell_line = refl

parse_proc_stat-any_name_example :
    parse_proc_stat 7 (lit "7 (" ++ lit ") (" ++ lit ") S 1")
    ≡ parse_proc_stat 7 (lit "7 (" ++ lit "sh" ++ lit ") S 1")
parse_proc_stat-any_name_example =
    parse_proc_stat-any_name 7 (lit "7 ") (lit ") (") (lit "sh") (lit " S 1") refl refl

select_job : select_foreground_processes pane_shell table ≡ ok job
unfolding select_foreground_processes foreground_group_of check_selected check_job filter find climb
    is_in_job collect_parents sort_by insert_sorted reaches_leader fail_if
select_job = refl

select_foreground_processes-eq-ok_iff_example :
    (group : ℕ) × (selected : List ProcessStat) × IsForegroundJob pane_shell table group selected
    × (job ≡ sort_by ProcessStat.process_id ltb selected)
select_foreground_processes-eq-ok_iff_example =
    (select_foreground_processes-eq-ok_iff pane_shell table job).0 select_job

abbrev serve_argv : List LosslessOsString
serve_argv = record { bytes = lit "mdbook" } ∷ record { bytes = [] } ∷ []

serve-IsCmdline : IsCmdline (lit "mdbook" ++ 0 ∷ 0 ∷ []) serve_argv
serve-IsCmdline = record {
  within_limit = omega arith;
  laid_out = refl;
  strings = ((omega arith, refl), ((omega arith, refl), tt));
  named = refl;
}

parse_proc_cmdline-eq-ok_iff_example :
    parse_proc_cmdline (lit "mdbook" ++ 0 ∷ 0 ∷ []) ≡ ok serve_argv
parse_proc_cmdline-eq-ok_iff_example =
    (parse_proc_cmdline-eq-ok_iff (lit "mdbook" ++ 0 ∷ 0 ∷ []) serve_argv).1 serve-IsCmdline

nameless_cmdline : parse_proc_cmdline (0 ∷ lit "-i" ++ 0 ∷ []) ≡ err empty_argv_zero
unfolding parse_proc_cmdline max_cmdline_bytes without_final_nul arguments_of_parts split from_bytes
    fail_if
nameless_cmdline = refl

abbrev deleted_tool : PinnedExecutableObservation
deleted_tool = record {
  key = record { device = 8; inode = 131 };
  link_count = 0;
  raw_link = record { bytes = lit "/opt/tool (deleted)" };
}

abbrev tool_path : LosslessOsString
tool_path = record { bytes = lit "/opt/tool" }

executable_of-eq-ok_iff_example :
    executable_of (λ error. []) deleted_tool ≡ ok (pinned_unlinked deleted_tool.key tool_path)
executable_of-eq-ok_iff_example =
    (executable_of-eq-ok_iff (λ error. []) deleted_tool
        (pinned_unlinked deleted_tool.key tool_path)).1
      (inr (refl, tool_path, refl, refl, (omega arith, refl), refl))
