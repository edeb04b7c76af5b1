-- ===== src/Recovery/Group.antt =====
-- `PaneTiedForegroundEvidence::with_foreground_members`: the group is one tree below its leader.
pub mod Climb
pub mod Rooted
pub mod Tests
use tmux_rescue.Common.{
  Bool, List, Option, [], contains, false, if◌then◌else◌, length, list_eq, none, not, num_eq, ok,
  some, suc, true, zero, ℕ, ◌==◌, ◌>>=◌, ◌>>◌, ◌||◌, ◌∷◌,
}
use tmux_rescue.Recovery.Evidence.{
  Checked, ForegroundProcessMember, PaneTiedForegroundEvidence, deny_if, duplicate_process_identity,
  foreground_group_is_not_rooted, process_not_in_foreground_group, tty_mismatch,
}

-- `HashMap<u32, u32>`: the parent of each process, the latest first.
abbrev pub Parents : Type 0
Parents = List (ℕ × ℕ)

abbrev pub parent_of : Parents → ℕ → Option ℕ
parent_of [] process = none
parent_of ((key, parent) ∷ parents) process =
    if process == key then some parent else parent_of parents process

abbrev pub keys : Parents → List ℕ
keys [] = []
keys ((key, parent) ∷ parents) = key ∷ keys parents

abbrev pub contains_key : Parents → ℕ → Bool
contains_key parents process = contains (keys parents) process

-- The first loop: each member is new, in the group and on the terminal.
pub index_members :
    PaneTiedForegroundEvidence → Parents → List ForegroundProcessMember → Checked Parents
index_members evidence parents [] = ok parents
index_members evidence parents (member ∷ members) = do
  deny_if (member.process_id == evidence.process_id || contains_key parents member.process_id)
      (duplicate_process_identity member.process_id)
  deny_if (not (member.process_group == evidence.foreground_process_group))
      process_not_in_foreground_group
  deny_if (not (member.process_tty.bytes == evidence.process_tty.bytes)) tty_mismatch
  index_members evidence ((member.process_id, member.parent_process_id) ∷ parents) members

module _ (parents : Parents) (leader : ℕ) where
  -- The inner `loop`, from the set of visited processes; `none` means that the fuel ran out.
  unfoldable pub climb : ℕ → List ℕ → ℕ → Option Bool
  climb zero visited current = none
  climb (suc fuel) visited current =
      if contains visited current then some false else (elim (parent_of parents current) [
        | none ↦ some false
        | some parent ↦
            let next = climb fuel (current ∷ visited) parent in
            if parent == leader
            then some true
            else if contains_key parents parent
            then next
            else some false
      ])

  -- A round visits a further process of the map, so the fuel is enough.
  unfoldable pub reaches_leader : ℕ → Bool
  reaches_leader process = elim (climb (suc (length parents)) [] process) [
    | some answer ↦ answer
    | none ↦ false
  ]

  pub check_rooted : List ForegroundProcessMember → Checked (Unit {0})
  check_rooted [] = ok tt
  check_rooted (member ∷ members) = do
    deny_if (not (reaches_leader member.process_id)) foreground_group_is_not_rooted
    check_rooted members

pub with_foreground_members :
    PaneTiedForegroundEvidence → List ForegroundProcessMember → Checked PaneTiedForegroundEvidence
with_foreground_members evidence members = do
  parents ← index_members evidence [] members
  check_rooted parents evidence.process_id members
  ok (record evidence { members = members })
