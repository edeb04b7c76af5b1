-- ===== src/Process/Select/Upward.antt =====
-- The map of parents that the code collects leads upwards as the members' parents do.
use tmux_rescue.Common.{
  ==_ne, Bool-cases, List, Option-cases, [], ap, false, inl, inr, list_eq, ne_==, none, num_eq,
  refl, some, suc, sym, true, ℕ, ◌==◌, ◌↔◌, ◌∙◌, ◌∷◌, ◌≡◌,
}
use tmux_rescue.Process.{ProcessStat}
use tmux_rescue.Process.Select.{collect_parents}
use tmux_rescue.Process.Select.Chain.{parent_of-without, reaches_leader-without_iff, without}
use tmux_rescue.Process.Select.Tree.{LeadsUp, direct, parent_in, through}
use tmux_rescue.Recovery.Group.{Parents, parent_of, reaches_leader}
use tmux_rescue.Recovery.Group.Climb.{IsBelow, child, descendant}

-- The map that is collected, from a map to start with.
parent_of-collect_parents :
    (members : List ProcessStat) (before : Parents) (process_id : ℕ)
    → parent_of (collect_parents before members) process_id ≡ elim (parent_in members process_id) [
      | some parent ↦ some parent
      | none ↦ parent_of before process_id
    ]
unfolding collect_parents
parent_of-collect_parents [] before process_id = refl
parent_of-collect_parents (process ∷ members) before process_id =
    let inserted : Parents = (process.process_id, process.parent_process_id) ∷ before in
    parent_of-collect_parents members inserted process_id
    ∙ (elim (Option-cases (parent_in members process_id)) [
      | inr (parent, later) ↦ rw later refl
      | inl nothing ↦ elim (Bool-cases (process_id == process.process_id)) [
        | inl here ↦ rw (nothing, here) refl
        | inr other ↦ rw (nothing, other) refl
      ]
    ])

module _ (members : List ProcessStat) (leader : ℕ) where
  abbrev collected : Parents
  collected = without leader (collect_parents [] members)

  -- Beside the leader's own, the entries are the members' parents.
  entry :
      (process_id : ℕ)
      → process_id == leader ≡ false
      → parent_of collected process_id ≡ parent_in members process_id
  entry process_id other =
      parent_of-without leader process_id other (collect_parents [] members)
      ∙ parent_of-collect_parents members [] process_id
      ∙ (elim (Option-cases (parent_in members process_id)) [
        | inl nothing ↦ rw nothing refl
        | inr (parent, found) ↦ rw found refl
      ])

  LeadsUp-IsBelow :
      (process_id : ℕ)
      → process_id == leader ≡ false
      → LeadsUp members leader process_id
      → (depth : ℕ) × IsBelow collected leader depth process_id
  LeadsUp-IsBelow process_id other (direct found) = (0, child (entry process_id other ∙ found))
  LeadsUp-IsBelow process_id other (through {parent = parent} found not_leader up) =
      let (depth, below) = LeadsUp-IsBelow parent (ne_== parent leader not_leader) up in
      (suc depth, descendant (entry process_id other ∙ found) below)

  IsBelow-LeadsUp :
      (depth process_id : ℕ)
      → process_id == leader ≡ false
      → IsBelow collected leader depth process_id
      → LeadsUp members leader process_id
  IsBelow-LeadsUp _ process_id other (child found) = direct (sym (entry process_id other) ∙ found)
  IsBelow-LeadsUp _ process_id other (descendant {depth = depth} {parent = parent} found below) =
      let step = sym (entry process_id other) ∙ found in
      elim (Bool-cases (parent == leader)) [
        | inl top ↦ direct (step ∙ ap some ((num_eq.decides parent leader).0 top))
        | inr under ↦
            through step (==_ne parent leader under) (IsBelow-LeadsUp depth parent under below)
      ]

  -- The climb reaches the leader exactly from the members that lead up to it.
  pub reaches_leader-LeadsUp :
      (process_id : ℕ)
      → process_id == leader ≡ false
      → (reaches_leader (collect_parents [] members) leader process_id ≡ true)
        ↔ LeadsUp members leader process_id
  reaches_leader-LeadsUp process_id other =
      let (sound, converse) =
        reaches_leader-without_iff (collect_parents [] members) leader process_id other in
      (
        λ h. let (depth, below) = sound h in IsBelow-LeadsUp depth process_id other below,
        λ up. converse (LeadsUp-IsBelow process_id other up),
      )
