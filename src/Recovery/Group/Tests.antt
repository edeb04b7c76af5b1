-- ===== src/Recovery/Group/Tests.antt =====
-- A leader with a child and a grandchild, and a group with a cycle.
use tmux_rescue.Common.{
  List, [], arith, err, false, list_eq, none, num_eq, ok, refl, some, true, ℕ, ◌↔◌, ◌∷◌, ◌≡◌, ◌⊎◌,
}
use tmux_rescue.Std.Text.{lit}
use tmux_rescue.Model.OsString.{LosslessOsString}
use tmux_rescue.Model.Snapshot.Tests.{os, serve}
use tmux_rescue.Recovery.Evidence.{
  ForegroundProcessMember, ObservedProcessCommand, PaneTiedForegroundEvidence, deny_if,
  evidence_try_new, foreground_group_is_not_rooted, unpinned_raw,
}
use tmux_rescue.Recovery.Group.{
  Parents, check_rooted, climb, index_members, reaches_leader, with_foreground_members,
}
use tmux_rescue.Recovery.Group.Climb.{IsBelow, climb_decided}
use tmux_rescue.Recovery.Group.Rooted.{IsGroup, with_foreground_members-eq-ok_iff}

abbrev tty : LosslessOsString
tty = os (lit "/dev/pts/3")

abbrev observed_serve : ObservedProcessCommand
observed_serve = record { command = serve; executable = unpinned_raw }

abbrev pub leader_evidence : PaneTiedForegroundEvidence
leader_evidence = record {
  command = observed_serve;
  pane_working_directory = record { path = os (lit "/srv") };
  pane_tty = tty;
  process_tty = tty;
  foreground_process_group = 10;
  process_id = 10;
  process_group = 10;
  process_start_time = 99;
  members = [];
  codex_session_evidence = none;
  claude_session_evidence = none;
  tail_session = none;
}

abbrev process_below : ℕ → ℕ → ForegroundProcessMember
process_below process parent = record {
  process_id = process;
  parent_process_id = parent;
  process_group = 10;
  process_start_time = 100;
  process_tty = tty;
  command = observed_serve;
  working_directory = record { path = os (lit "/srv") };
}

-- The grandchild comes first.
abbrev chain : List ForegroundProcessMember
chain = process_below 12 11 ∷ process_below 11 10 ∷ []

chain_accepted :
    with_foreground_members leader_evidence chain ≡ ok (record leader_evidence { members = chain })
unfolding with_foreground_members index_members check_rooted reaches_leader climb deny_if
chain_accepted = refl

cycle_refused :
    with_foreground_members leader_evidence (process_below 12 11 ∷ process_below 11 12 ∷ [])
    ≡ err foreground_group_is_not_rooted
unfolding with_foreground_members index_members check_rooted reaches_leader climb deny_if
cycle_refused = refl

orphan_refused :
    with_foreground_members leader_evidence (process_below 12 1 ∷ [])
    ≡ err foreground_group_is_not_rooted
unfolding with_foreground_members index_members check_rooted reaches_leader climb deny_if
orphan_refused = refl

evidence_accepted :
    evidence_try_new observed_serve (record { path = os (lit "/srv") }) tty tty 10 10 10 99
    ≡ ok leader_evidence
unfolding evidence_try_new deny_if
evidence_accepted = refl

with_foreground_members-eq-ok_iff_example :
    (with_foreground_members leader_evidence chain
      ≡ ok (record leader_evidence { members = chain }))
    ↔ IsGroup leader_evidence chain
with_foreground_members-eq-ok_iff_example = with_foreground_members-eq-ok_iff leader_evidence chain

-- Two processes that are each other's parent.
abbrev cycle : Parents
cycle = (11, 12) ∷ (12, 11) ∷ []

climb_decided_example :
    ((climb cycle 10 3 [] 12 ≡ some true) × (depth : ℕ) × IsBelow cycle 10 depth 12)
    ⊎ ((climb cycle 10 3 [] 12 ≡ some false) × ¬ ((depth : ℕ) × IsBelow cycle 10 depth 12))
climb_decided_example = climb_decided cycle 10 refl 3 12 (omega arith)
