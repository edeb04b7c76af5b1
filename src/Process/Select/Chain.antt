-- ===== src/Process/Select/Chain.antt =====
-- The climb in a map that has an entry for the leader too: it never takes that entry.
use tmux_rescue.Common.{
  Bool, Bool-cases, List, Option, Option-cases, [], arith, contains, false, if◌then◌else◌, inl, inr,
  length, list_eq, num_eq, refl, some, suc, sym, true, zero, ℕ, ◌==◌, ◌↔◌, ◌∙◌, ◌∷◌, ◌≡◌, ◌≤◌,
}
use tmux_rescue.Recovery.Group.{Parents, climb, contains_key, parent_of, reaches_leader}
use tmux_rescue.Recovery.Group.Climb.{
  IsBelow, climb_astray, climb_decided, climb_revisit, climb_spent, climb_step,
}

-- The map without the entries for the leader.
abbrev pub without : ℕ → Parents → Parents
without leader [] = []
without leader ((key, parent) ∷ parents) =
    let rest = without leader parents in if key == leader then rest else (key, parent) ∷ rest

length-without : (leader : ℕ) (parents : Parents) → length (without leader parents) ≤ length parents
length-without leader [] = omega arith
length-without leader ((key, parent) ∷ parents) = ground (arith, length-without leader parents)

without-leader :
    (leader : ℕ) (parents : Parents) → contains_key (without leader parents) leader ≡ false
without-leader leader [] = refl
without-leader leader ((key, parent) ∷ parents) = ground (arith, without-leader leader parents)

module _ (leader process : ℕ) (other : process == leader ≡ false) where
  pub parent_of-without :
      (parents : Parents) → parent_of (without leader parents) process ≡ parent_of parents process
  parent_of-without [] = refl
  parent_of-without ((key, parent) ∷ parents) = ground (arith, parent_of-without parents)

  contains_key-without :
      (parents : Parents)
      → contains_key (without leader parents) process ≡ contains_key parents process
  contains_key-without [] = refl
  contains_key-without ((key, parent) ∷ parents) = ground (arith, contains_key-without parents)

-- One round, where the two maps agree on the rest of the climb.
round-without :
    (leader : ℕ) (parents : Parents) (parent : ℕ) (rest rest' : Option Bool)
    → (parent == leader ≡ false → rest ≡ rest')
    → (if parent == leader
        then some true
        else if contains_key (without leader parents) parent
        then rest
        else some false)
      ≡ (if parent == leader
          then some true
          else if contains_key parents parent
          then rest'
          else some false)
round-without leader parents parent rest rest' same = elim (Bool-cases (parent == leader)) [
  | inl top ↦ rw top refl
  | inr below ↦ rw (below, contains_key-without leader parent below parents, same below) refl
]

climb-without :
    (leader : ℕ) (parents : Parents) (fuel : ℕ) (visited : List ℕ) (process : ℕ)
    → process == leader ≡ false
    → climb (without leader parents) leader fuel visited process
      ≡ climb parents leader fuel visited process
climb-without leader parents zero visited process other =
    climb_spent (without leader parents) leader visited process
    ∙ sym (climb_spent parents leader visited process)
climb-without leader parents (suc fuel) visited process other =
    elim (Bool-cases (contains visited process)) [
      | inl old ↦
          climb_revisit (without leader parents) leader fuel visited process old
          ∙ sym (climb_revisit parents leader fuel visited process old)
      | inr new ↦
          let same = parent_of-without leader process other parents in
          elim (Option-cases (parent_of parents process)) [
            | inl astray ↦
                climb_astray (without leader parents) leader fuel visited process new
                  (same ∙ astray)
                ∙ sym (climb_astray parents leader fuel visited process new astray)
            | inr (parent, known) ↦
                climb_step (without leader parents) leader fuel visited process parent new
                  (same ∙ known)
                ∙ round-without leader parents parent _ _
                    (climb-without leader parents fuel (process ∷ visited) parent)
                ∙ sym (climb_step parents leader fuel visited process parent new known)
          ]
    ]

-- From another process than the leader, the climb reaches the leader exactly from below it.
pub reaches_leader-without_iff :
    (parents : Parents) (leader process : ℕ)
    → process == leader ≡ false
    → (reaches_leader parents leader process ≡ true)
      ↔ ((depth : ℕ) × IsBelow (without leader parents) leader depth process)
unfolding reaches_leader
reaches_leader-without_iff parents leader process other =
    let fuel = suc (length parents) in
    let shorter = length-without leader parents in
    let same = sym (climb-without leader parents fuel [] process other) in
    elim (climb_decided (without leader parents) leader (without-leader leader parents) fuel process
      (omega arith)) [
        | inl (answer, depth, below) ↦
            rw (reaches_leader, same, answer) (λ h. (depth, below), λ h. refl)
        | inr (answer, nowhere) ↦
            rw (reaches_leader, same, answer) (λ h. cc, λ h. absurd (nowhere h))
      ]
