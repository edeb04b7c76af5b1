-- ===== src/Recovery/Group/Climb.antt =====
-- The climb from a process to its leader ends, and reaches it exactly from the processes below.
use tmux_rescue.Common.{
  ==_ne, ==_refl, All, Bool, Bool-cases, List, Option, Option-cases, [], ap, arith, contains, false,
  if◌then◌else◌, inl, inr, length, list_eq, none, num_eq, refl, some, subst, suc, sym, true, zero,
  ℕ, ◌<◌, ◌==◌, ◌↔◌, ◌∙◌, ◌∷◌, ◌≡◌, ◌≤◌, ◌⊎◌,
}
use tmux_rescue.Recovery.Group.{Parents, climb, contains_key, parent_of, reaches_leader}

-- `depth` processes of the map lie between the process and the leader.
pub data IsBelow (parents : Parents) (leader : ℕ) : (depth process : ℕ) → Type 0 where
  child : {process : ℕ} → parent_of parents process ≡ some leader → IsBelow parents leader 0 process
  descendant :
      {depth process parent : ℕ}
      → parent_of parents process ≡ some parent
      → IsBelow parents leader depth parent
      → IsBelow parents leader (suc depth) process

parent_of-contains_key :
    (parents : Parents) (process parent : ℕ)
    → parent_of parents process ≡ some parent
    → contains_key parents process ≡ true
parent_of-contains_key [] process parent h = cc
parent_of-contains_key ((key, _) ∷ parents) process parent h = elim (Bool-cases (process == key)) [
  | inl same ↦ rw same refl
  | inr other ↦ rw other (parent_of-contains_key parents process parent (rw other at h))
]

-- How many entries of the map are still to be visited.
unvisited : List ℕ → Parents → ℕ
unvisited visited [] = 0
unvisited visited ((key, _) ∷ parents) =
    if contains visited key then unvisited visited parents else suc (unvisited visited parents)

unvisited-visit_le :
    (visited : List ℕ) (current : ℕ) (parents : Parents)
    → unvisited (current ∷ visited) parents ≤ unvisited visited parents
unfolding unvisited
unvisited-visit_le visited current [] = omega arith
unvisited-visit_le visited current ((key, parent) ∷ parents) =
    ground (arith, unvisited-visit_le visited current parents)

unvisited-visit_lt :
    (visited : List ℕ) (current : ℕ) (parents : Parents)
    → contains visited current ≡ false
    → contains_key parents current ≡ true
    → unvisited (current ∷ visited) parents < unvisited visited parents
unfolding unvisited
unvisited-visit_lt visited current [] new known = cc
unvisited-visit_lt visited current ((key, parent) ∷ parents) new known =
    elim (Bool-cases (current == key)) [
      | inl same ↦
          let equal : current ≡ key = (num_eq.decides current key).0 same in
          let new_key : contains visited key ≡ false = rw equal at new in
          rw (new_key, equal, ==_refl key)
            (omega (arith, unvisited-visit_le visited current parents))
      | inr other ↦
          let later = unvisited-visit_lt visited current parents new (rw other at known) in
          ground arith
    ]

unvisited_le : (parents : Parents) → unvisited [] parents ≤ length parents
unfolding unvisited
unvisited_le [] = omega arith
unvisited_le ((key, parent) ∷ parents) = omega (arith, unvisited_le parents)

module _ (parents : Parents) (leader : ℕ) where
  pub climb_spent :
      (visited : List ℕ) (current : ℕ) → climb parents leader zero visited current ≡ none
  unfolding climb
  climb_spent visited current = refl

  pub climb_step :
      (fuel : ℕ) (visited : List ℕ) (current parent : ℕ)
      → contains visited current ≡ false
      → parent_of parents current ≡ some parent
      → climb parents leader (suc fuel) visited current ≡ (
          if parent == leader
          then some true
          else if contains_key parents parent
          then climb parents leader fuel (current ∷ visited) parent
          else some false)
  unfolding climb
  climb_step fuel visited current parent new known = rw (new, known, climb) refl

  pub climb_revisit :
      (fuel : ℕ) (visited : List ℕ) (current : ℕ)
      → contains visited current ≡ true
      → climb parents leader (suc fuel) visited current ≡ some false
  unfolding climb
  climb_revisit fuel visited current old = rw (old, climb) refl

  pub climb_astray :
      (fuel : ℕ) (visited : List ℕ) (current : ℕ)
      → contains visited current ≡ false
      → parent_of parents current ≡ none
      → climb parents leader (suc fuel) visited current ≡ some false
  unfolding climb
  climb_astray fuel visited current new unknown_parent = rw (new, unknown_parent, climb) refl

  -- A process has one parent.
  IsBelow-parent :
      {depth process parent : ℕ}
      → IsBelow parents leader depth process
      → parent_of parents process ≡ some parent
      → (parent ≡ leader) × (depth ≡ 0)
        ⊎ ((above : ℕ) × (depth ≡ suc above) × IsBelow parents leader above parent)
  IsBelow-parent (child known) h = inl (cc, refl)
  IsBelow-parent (descendant {depth = above} known below) h =
      inr (above, refl, subst (IsBelow parents leader above) (cc) below)

  IsBelow-contains_key :
      {depth process : ℕ}
      → IsBelow parents leader depth process
      → contains_key parents process ≡ true
  IsBelow-contains_key (child known) = parent_of-contains_key parents _ _ known
  IsBelow-contains_key (descendant known below) = parent_of-contains_key parents _ _ known

  module _ (on_top : contains_key parents leader ≡ false) where
    not_leader : {depth process : ℕ} → IsBelow parents leader depth process → ¬ (process ≡ leader)
    not_leader below same = let known = rw same at (IsBelow-contains_key below) in cc

    IsBelow-depth :
        {depth other process : ℕ}
        → IsBelow parents leader depth process
        → IsBelow parents leader other process
        → depth ≡ other
    IsBelow-depth (child known) below' = elim (IsBelow-parent below' known) [
      | inl (_, none_above) ↦ sym none_above
      | inr (_, _, above) ↦ absurd (not_leader above refl)
    ]
    IsBelow-depth (descendant known below) below' = elim (IsBelow-parent below' known) [
      | inl same ↦ absurd (not_leader below same.0)
      | inr (above, one_more, below'') ↦ ap suc (IsBelow-depth below below'') ∙ sym one_more
    ]

    -- All that was visited is further below.
    IsAhead : ℕ → List ℕ → Type 0
    IsAhead depth visited =
        All (λ v. (further : ℕ) × IsBelow parents leader further v × (depth < further)) visited

    IsAhead-contains :
        (depth : ℕ) (visited : List ℕ) (process : ℕ)
        → IsAhead depth visited
        → contains visited process ≡ true
        → (further : ℕ) × IsBelow parents leader further process × (depth < further)
    unfolding IsAhead
    IsAhead-contains depth [] process ahead h = cc
    IsAhead-contains depth (v ∷ visited) process (first, ahead) h =
        elim (Bool-cases (process == v)) [
          | inl same ↦
              let equal : process ≡ v = (num_eq.decides process v).0 same in
              (first.0, subst (IsBelow parents leader first.0) (sym equal) first.1, first.2)
          | inr other ↦ IsAhead-contains depth visited process ahead (rw other at h)
        ]

    IsAhead-less :
        (depth : ℕ) (visited : List ℕ) → IsAhead (suc depth) visited → IsAhead depth visited
    unfolding IsAhead
    IsAhead-less depth [] ahead = tt
    IsAhead-less depth (v ∷ visited) (first, ahead) =
        ((first.0, first.1, omega arith), IsAhead-less depth visited ahead)

    -- The climb ends: at the leader from a process below it, and astray from any other.
    IsClimb : Option Bool → List ℕ → ℕ → Type 0
    IsClimb answer visited current =
        ((answer ≡ some true) × (depth : ℕ) × IsBelow parents leader depth current)
        ⊎ ((answer ≡ some false)
            × ((depth : ℕ) → IsBelow parents leader depth current → ¬ IsAhead depth visited))

    some_parent :
        {depth process : ℕ}
        → IsBelow parents leader depth process
        → ¬ (parent_of parents process ≡ none)
    some_parent (child known) h = cc
    some_parent (descendant known below) h = cc

    -- One round upwards.
    climb_on-IsClimb :
        (fuel : ℕ) (visited : List ℕ) (current parent : ℕ)
        → contains visited current ≡ false
        → parent_of parents current ≡ some parent
        → parent == leader ≡ false
        → contains_key parents parent ≡ true
        → IsClimb (climb parents leader fuel (current ∷ visited) parent) (current ∷ visited) parent
        → IsClimb (climb parents leader (suc fuel) visited current) visited current
    unfolding IsClimb IsAhead
    climb_on-IsClimb fuel visited current parent new known not_top there rest =
        let step = climb_step fuel visited current parent new known in
        let on : climb parents leader (suc fuel) visited current
            ≡ climb parents leader fuel (current ∷ visited) parent =
          step ∙ rw (not_top, there) refl in
        elim rest [
          | inl (answer, depth, below) ↦ inl (on ∙ answer, suc depth, descendant known below)
          | inr (answer, nowhere) ↦ inr (
            on ∙ answer,
            λ depth below ahead. elim (IsBelow-parent below known) [
              | inl (is_leader, _) ↦ ==_ne parent leader not_top is_leader
              | inr (above, one_more, below') ↦
                  nowhere above below'
                    ((depth, below, omega arith), IsAhead-less above visited (rw one_more at ahead))
            ],
          )
        ]

    climb-IsClimb :
        (fuel : ℕ) (visited : List ℕ) (current : ℕ)
        → unvisited visited parents < fuel
        → IsClimb (climb parents leader fuel visited current) visited current
    unfolding IsClimb
    climb-IsClimb zero visited current h = elim h [ ]
    climb-IsClimb (suc fuel) visited current h = elim (Bool-cases (contains visited current)) [
      | inl old ↦ inr (
        climb_revisit fuel visited current old,
        λ depth below ahead.
            let (further, there, more) = IsAhead-contains depth visited current ahead old in
            omega (arith, IsBelow-depth below there),
      )
      | inr new ↦ elim (Option-cases (parent_of parents current)) [
        | inl astray ↦ inr (
          climb_astray fuel visited current new astray,
          λ depth below ahead. some_parent below astray,
        )
        | inr (parent, known) ↦
            let step = climb_step fuel visited current parent new known in
            elim (Bool-cases (parent == leader)) [
              | inl top ↦
                  let same : parent ≡ leader = (num_eq.decides parent leader).0 top in
                  inl (step ∙ rw top refl, 0, child (known ∙ ap some same))
              | inr not_top ↦ elim (Bool-cases (contains_key parents parent)) [
                | inl there ↦
                    let fewer =
                      unvisited-visit_lt visited current parents new
                        (parent_of-contains_key parents current parent known) in
                    climb_on-IsClimb fuel visited current parent new known not_top there
                      (climb-IsClimb fuel (current ∷ visited) parent (omega arith))
                | inr gone ↦ inr (
                  step ∙ rw (not_top, gone) refl,
                  λ depth below ahead. elim (IsBelow-parent below known) [
                    | inl (is_leader, _) ↦ ==_ne parent leader not_top is_leader
                    | inr (above, _, below') ↦ let there = IsBelow-contains_key below' in cc
                  ],
                )
              ]
            ]
      ]
    ]

    -- In a map without an entry for the leader, with more fuel than the map has entries, the climb
    -- ends, cycles or not: at the leader from a process below it, and astray from any other.
    pub climb_decided :
        (fuel process : ℕ)
        → length parents < fuel
        → ((climb parents leader fuel [] process ≡ some true)
            × (depth : ℕ) × IsBelow parents leader depth process)
          ⊎ ((climb parents leader fuel [] process ≡ some false)
              × ¬ ((depth : ℕ) × IsBelow parents leader depth process))
    unfolding IsClimb IsAhead
    climb_decided fuel process enough =
        let left = unvisited_le parents in
        elim (climb-IsClimb fuel [] process (omega arith)) [
          | inl below ↦ inl below
          | inr (answer, nowhere) ↦ inr (answer, λ (depth, below). nowhere depth below tt)
        ]

    -- In a map without an entry for the leader, the test passes exactly the processes below it.
    pub reaches_leader_iff :
        (process : ℕ)
        → (reaches_leader parents leader process ≡ true)
          ↔ ((depth : ℕ) × IsBelow parents leader depth process)
    unfolding reaches_leader
    reaches_leader_iff process = elim (climb_decided (suc (length parents)) process (omega arith)) [
      | inl (answer, depth, below) ↦ rw (reaches_leader, answer) (λ h. (depth, below), λ h. refl)
      | inr (answer, nowhere) ↦ rw (reaches_leader, answer) (λ h. cc, λ h. absurd (nowhere h))
    ]
