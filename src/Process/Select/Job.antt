-- ===== src/Process/Select/Job.antt =====
-- Which processes `select_foreground_processes` accepts as the foreground job of a pane.
use tmux_rescue.Common.{
  ==_ne, >>=-eq-ok, All, Bool, Bool-cases, List, Option-cases, [], any, ap, arith, err, false, inl,
  inr, list_eq, ltb, ne_==, none, not, num_eq, ok, ok-injective, refl, some, some-injective, subst,
  sym, true, ℕ, ◌&&◌, ◌==◌, ◌>>=◌, ◌↔◌, ◌∙◌, ◌∷◌, ◌≡◌, ◌≢◌, ◌⊎◌,
}
use tmux_rescue.Std.Number.{integer_beq, negsuc, pos, ℤ}
use tmux_rescue.Std.Sort.{sort_by}
use tmux_rescue.Process.{
  ProcessStat, ambiguous_foreground_job, fail_if, fail_if-eq-ok, foreground_leader_gone,
  no_foreground_process_group, pane_has_no_tty,
}
use tmux_rescue.Process.Select.{
  check_job, check_selected, collect_parents, filter, find, foreground_group_of, is_in_job,
  select_foreground_processes,
}
use tmux_rescue.Process.Select.Tree.{
  IsSelection, IsSelection-filter, LeadsUp, filter-IsSelection, integer_beq-ne, integer_beq_iff,
}
use tmux_rescue.Process.Select.Upward.{reaches_leader-LeadsUp}
use tmux_rescue.Recovery.Group.{reaches_leader}

abbrev pub selected_of : ProcessStat → ℕ → List ProcessStat → List ProcessStat
selected_of pane group processes = filter (is_in_job pane group) processes

-- The group leader, or a process from which the members' parents lead up to the leader.
abbrev pub IsInTree : List ProcessStat → ℕ → ProcessStat → Type 0
IsInTree members group process =
    (process.process_id ≡ group) ⊎ LeadsUp members group process.process_id

-- The terminal of the pane has a foreground group, and what lives of it there is one tree below the
-- group's leader.
pub record IsForegroundJob (pane : ProcessStat) (processes : List ProcessStat) (group : ℕ)
    (selected : List ProcessStat) : Type 0 where
  pub on_terminal : pane.tty_device ≢ pos 0
  pub in_foreground : pane.foreground_process_group ≡ pos group
  pub is_group : group ≢ 0
  pub selection : IsSelection pane group processes selected
  pub has_leader : any (λ process. ProcessStat.process_id process == group) selected ≡ true
  pub rooted : All (IsInTree selected group) selected

module _ (members : List ProcessStat) (group : ℕ) where
  check_process_iff :
      (process : ProcessStat)
      → ((not (process.process_id == group)
            && not (reaches_leader (collect_parents [] members) group process.process_id))
          ≡ false)
        ↔ IsInTree members group process
  check_process_iff process = elim (Bool-cases (process.process_id == group)) [
    | inl top ↦ rw top (λ h. inl ((num_eq.decides process.process_id group).0 top), λ h. refl)
    | inr other ↦
        let (sound, converse) = reaches_leader-LeadsUp members group process.process_id other in
        elim (Bool-cases (reaches_leader (collect_parents [] members) group process.process_id)) [
          | inl up ↦ rw (other, up) (λ h. inr (sound up), λ h. refl)
          | inr astray ↦
              rw (other, astray)
                (
                  λ h. cc,
                  λ h. elim h [
                    | inl same ↦ absurd (==_ne process.process_id group other same)
                    | inr below ↦ let never = converse below in cc
                  ],
                )
        ]
  ]

  check_job_iff :
      (processes : List ProcessStat)
      → (check_job (collect_parents [] members) group processes ≡ ok tt)
        ↔ All (IsInTree members group) processes
  unfolding check_job fail_if
  check_job_iff [] = (λ h. tt, λ h. refl)
  check_job_iff (process ∷ processes) =
      let (sound, converse) = check_process_iff process in
      let (rest_sound, rest_converse) = check_job_iff processes in
      (
        λ h.
            let (passed, rest) = fail_if-eq-ok _ ambiguous_foreground_job _ h in
            (sound passed, rest_sound rest),
        λ (first, rest). rw (converse first, rest_converse rest, fail_if) refl,
      )

module _ (test : ProcessStat → Bool) where
  find-none :
      (processes : List ProcessStat) → find test processes ≡ none → any test processes ≡ false
  unfolding find
  find-none [] h = refl
  find-none (process ∷ processes) h = elim (Bool-cases (test process)) [
    | inl found ↦ let never = rw found at h in cc
    | inr not_found ↦ rw not_found (find-none processes (rw not_found at h))
  ]

  find-filter :
      (kept : ProcessStat → Bool) (processes : List ProcessStat) (found : ProcessStat)
      → find test (filter kept processes) ≡ some found
      → (kept found ≡ true) × (any test (filter kept processes) ≡ true)
  unfolding find filter
  find-filter kept [] found h = cc
  find-filter kept (process ∷ processes) found h = elim (Bool-cases (kept process)) [
    | inr dropped ↦
        rw (dropped, filter) (find-filter kept processes found (rw (dropped, filter) at h))
    | inl passed ↦ elim (Bool-cases (test process)) [
      | inl here ↦
          let same = rw (passed, here, filter, find) at h in
          (subst (λ p. kept p ≡ true) (some-injective same) passed, rw (passed, here, filter) refl)
      | inr not_here ↦
          let (is_kept, there) =
            find-filter kept processes found (rw (passed, not_here, filter, find) at h) in
          (is_kept, rw (passed, not_here, filter, there) refl)
    ]
  ]

in_job-group :
    (pane : ProcessStat) (group : ℕ) (process : ProcessStat)
    → is_in_job pane group process ≡ true
    → process.process_group == group ≡ true
unfolding is_in_job
in_job-group pane group process h = grind arith

module _ (group : ℕ) (selected : List ProcessStat) where
  check_selected-without_leader :
      find (λ process. ProcessStat.process_id process == group) selected ≡ none
      → check_selected group selected ≡ err foreground_leader_gone
  unfolding check_selected
  check_selected-without_leader nobody = rw (nobody, check_selected) refl

  check_selected-of_leader :
      (leader : ProcessStat)
      → find (λ process. ProcessStat.process_id process == group) selected ≡ some leader
      → leader.process_group == group ≡ true
      → check_selected group selected ≡ (
          check_job (collect_parents [] selected) group selected >>= λ _.
          ok (sort_by ProcessStat.process_id ltb selected))
  unfolding check_selected fail_if
  check_selected-of_leader leader found in_group = rw (found, check_selected, in_group) refl

-- A selection is accepted exactly if it has a process with the group's number and is one tree.
check_selected-filter_iff :
    (pane : ProcessStat) (group : ℕ) (processes jobs : List ProcessStat)
    → (check_selected group (selected_of pane group processes) ≡ ok jobs) ↔ (
        (any (λ process. ProcessStat.process_id process == group) (selected_of pane group processes)
          ≡ true)
        × All (IsInTree (selected_of pane group processes) group) (selected_of pane group processes)
        × (jobs ≡ sort_by ProcessStat.process_id ltb (selected_of pane group processes)))
check_selected-filter_iff pane group processes jobs =
    let selected = selected_of pane group processes in
    let parents = collect_parents [] selected in
    let is_leader : ProcessStat → Bool = λ process. process.process_id == group in
    let (sound, converse) = check_job_iff selected group selected in
    elim (Option-cases (find is_leader selected)) [
      | inl nobody ↦
          let none_there = find-none is_leader selected nobody in
          let gone = check_selected-without_leader group selected nobody in
          (λ h. cc, λ (there, _, _). cc)
      | inr (leader, found) ↦
          let (kept, there) = find-filter is_leader (is_in_job pane group) processes leader found in
          let step =
            check_selected-of_leader group selected leader found
              (in_job-group pane group leader kept) in
          (
            λ h.
                let (checked, passed, done) =
                  >>=-eq-ok (check_job parents group selected) _ (sym step ∙ h) in
                (there, sound passed, sym (ok-injective done)),
            λ (there', rooted, same). step ∙ rw (converse rooted, same) refl,
          )
    ]

group_of-eq-ok :
    (foreground : ℤ) (group : ℕ)
    → foreground_group_of foreground ≡ ok group
    → (foreground ≡ pos group) × (group == 0 ≡ false)
unfolding foreground_group_of
group_of-eq-ok (negsuc n) group h = cc
group_of-eq-ok (pos n) group h =
    let (positive, same) = fail_if-eq-ok (n == 0) no_foreground_process_group _ h in
    let equal = ok-injective same in (ap pos equal, subst (λ g. g == 0 ≡ false) equal positive)

ok-group_of :
    (foreground : ℤ) (group : ℕ)
    → foreground ≡ pos group
    → group == 0 ≡ false
    → foreground_group_of foreground ≡ ok group
unfolding foreground_group_of fail_if
ok-group_of foreground group same positive = rw (same, positive) refl

select_checked :
    (pane : ProcessStat) (processes jobs : List ProcessStat) (group : ℕ)
    → integer_beq pane.tty_device (pos 0) ≡ false
    → foreground_group_of pane.foreground_process_group ≡ ok group
    → check_selected group (selected_of pane group processes) ≡ ok jobs
    → select_foreground_processes pane processes ≡ ok jobs
unfolding select_foreground_processes fail_if
select_checked pane processes jobs group on_terminal foreground checked =
    rw (on_terminal, foreground) checked

-- A job is selected exactly if the pane's terminal has a foreground group, a live process of that
-- group, session and terminal has the group's number, and from each other one the parents lead up
-- to it through such processes; the job then is all these processes, by number.
pub select_foreground_processes-eq-ok_iff :
    (pane : ProcessStat) (processes jobs : List ProcessStat)
    → (select_foreground_processes pane processes ≡ ok jobs) ↔ (
        (group : ℕ) × (selected : List ProcessStat) × IsForegroundJob pane processes group selected
        × (jobs ≡ sort_by ProcessStat.process_id ltb selected))
unfolding select_foreground_processes
select_foreground_processes-eq-ok_iff pane processes jobs = (
  λ h.
      let (on_terminal, behind) = fail_if-eq-ok _ pane_has_no_tty _ h in
      let (group, foreground, checked) =
        >>=-eq-ok (foreground_group_of pane.foreground_process_group) _ behind in
      let (in_foreground, is_group) =
        group_of-eq-ok pane.foreground_process_group group foreground in
      let (there, rooted, same) = (check_selected-filter_iff pane group processes jobs).0 checked in
      (
        group,
        selected_of pane group processes,
        record {
          on_terminal = λ none_there.
              let no_terminal = (integer_beq_iff pane.tty_device (pos 0)).1 none_there in cc;
          in_foreground = in_foreground;
          is_group = ==_ne group 0 is_group;
          selection = filter-IsSelection pane group processes;
          has_leader = there;
          rooted = rooted;
        },
        same,
      ),
  λ (group, selected, job, same).
      let is_filtered = IsSelection-filter pane group processes selected job.selection in
      let checks : (any (λ process. ProcessStat.process_id process == group) selected ≡ true)
          × All (IsInTree selected group) selected
          × (jobs ≡ sort_by ProcessStat.process_id ltb selected) =
        (job.has_leader, job.rooted, same) in
      select_checked pane processes jobs group
        (integer_beq-ne pane.tty_device (pos 0) job.on_terminal)
        (ok-group_of pane.foreground_process_group group job.in_foreground
          (ne_== group 0 job.is_group))
        ((check_selected-filter_iff pane group processes jobs).1 (
          subst
            (λ s.
              (any (λ process. ProcessStat.process_id process == group) s ≡ true)
              × All (IsInTree s group) s
              × (jobs ≡ sort_by ProcessStat.process_id ltb s))
            is_filtered checks)),
)
