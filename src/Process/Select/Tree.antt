-- ===== src/Process/Select/Tree.antt =====
-- A job told without the loops: its members by what the kernel says of each, and the way from a
-- member to the leader by the members' parents.
use tmux_rescue.Common.{
  Bool-cases, List, Option, [], and-eq-true_iff, ap, arith, false, if◌then◌else◌, inl, inr, list_eq,
  ne_==, none, not, num_eq, refl, some, true, ℕ, ◌==◌, ◌↔◌, ◌∷◌, ◌≡◌, ◌≢◌,
}
use tmux_rescue.Std.Number.{integer_beq, negsuc, pos, ℤ}
use tmux_rescue.Process.{ProcessStat}
use tmux_rescue.Process.Select.{filter, is_dead, is_in_job}

-- A live process of the group, in the session and on the terminal of the pane.
pub record IsJobMember (pane : ProcessStat) (group : ℕ) (process : ProcessStat) : Type 0 where
  pub in_group : process.process_group ≡ group
  pub in_session : process.session_id ≡ pane.session_id
  pub on_terminal : process.tty_device ≡ pane.tty_device
  pub not_zombie : process.state ≢ b'Z'
  pub not_dead : (process.state ≢ b'X') × (process.state ≢ b'x')

-- The members among the processes, in order.
pub data IsSelection (pane : ProcessStat) (group : ℕ)
    : (processes selected : List ProcessStat) → Type 0 where
  no_processes : IsSelection pane group [] []
  member :
      {process : ProcessStat} {processes selected : List ProcessStat}
      → IsJobMember pane group process
      → IsSelection pane group processes selected
      → IsSelection pane group (process ∷ processes) (process ∷ selected)
  stranger :
      {process : ProcessStat} {processes selected : List ProcessStat}
      → ¬ IsJobMember pane group process
      → IsSelection pane group processes selected
      → IsSelection pane group (process ∷ processes) selected

-- The parent of a process, by the last entry for it.
abbrev pub parent_in : List ProcessStat → ℕ → Option ℕ
parent_in [] process_id = none
parent_in (process ∷ processes) process_id = elim (parent_in processes process_id) [
  | some parent ↦ some parent
  | none ↦ if process_id == process.process_id then some process.parent_process_id else none
]

-- From the process, the parents of the members lead up to the leader.
pub data LeadsUp (members : List ProcessStat) (leader : ℕ) : ℕ → Type 0 where
  direct :
      {process_id : ℕ}
      → parent_in members process_id ≡ some leader
      → LeadsUp members leader process_id
  through :
      {process_id parent : ℕ}
      → parent_in members process_id ≡ some parent
      → parent ≢ leader
      → LeadsUp members leader parent
      → LeadsUp members leader process_id

pos-injective : (m n : ℕ) → pos m ≡ pos n → m ≡ n
pos-injective m n h = cc

negsuc-injective : (m n : ℕ) → negsuc m ≡ negsuc n → m ≡ n
negsuc-injective m n h = cc

live_states :
    (state : ℕ) → not (is_dead state) ≡ true → (state ≢ b'Z') × (state ≢ b'X') × (state ≢ b'x')
live_states state h = (λ same. ground arith, λ same. ground arith, λ same. ground arith)

states_live : (state : ℕ) → state ≢ b'Z' → state ≢ b'X' → state ≢ b'x' → not (is_dead state) ≡ true
states_live state a b c = rw (ne_== state b'Z' a, ne_== state b'X' b, ne_== state b'x' c) refl

pub integer_beq_iff : (a b : ℤ) → (integer_beq a b ≡ true) ↔ (a ≡ b)
integer_beq_iff (pos m) (pos n) =
    (λ h. ap pos ((num_eq.decides m n).0 h), λ h. (num_eq.decides m n).1 (pos-injective m n h))
integer_beq_iff (negsuc m) (negsuc n) = (
  λ h. ap negsuc ((num_eq.decides m n).0 h),
  λ h. (num_eq.decides m n).1 (negsuc-injective m n h),
)
integer_beq_iff (pos m) (negsuc n) = (λ h. cc, λ h. cc)
integer_beq_iff (negsuc m) (pos n) = (λ h. cc, λ h. cc)

pub integer_beq-ne : (a b : ℤ) → a ≢ b → integer_beq a b ≡ false
integer_beq-ne a b differ = elim (Bool-cases (integer_beq a b)) [
  | inl same ↦ absurd (differ ((integer_beq_iff a b).0 same))
  | inr h ↦ h
]

is_in_job_iff :
    (pane : ProcessStat) (group : ℕ) (process : ProcessStat)
    → (is_in_job pane group process ≡ true) ↔ IsJobMember pane group process
unfolding is_in_job
is_in_job_iff pane group process = (
  λ h.
      let (rest, live) = (and-eq-true_iff _ _).0 h in
      let (rest', terminal) = (and-eq-true_iff _ _).0 rest in
      let (same_group, session) = (and-eq-true_iff _ _).0 rest' in
      let (zombie, dead, dead') = live_states process.state live in
      record {
        in_group = (num_eq.decides process.process_group group).0 same_group;
        in_session = (num_eq.decides process.session_id pane.session_id).0 session;
        on_terminal = (integer_beq_iff process.tty_device pane.tty_device).0 terminal;
        not_zombie = zombie;
        not_dead = (dead, dead');
      },
  λ is_member.
      let same_group = (num_eq.decides process.process_group group).1 is_member.in_group in
      let session = (num_eq.decides process.session_id pane.session_id).1 is_member.in_session in
      let terminal = (integer_beq_iff process.tty_device pane.tty_device).1 is_member.on_terminal in
      let live =
        states_live process.state is_member.not_zombie is_member.not_dead.0 is_member.not_dead.1 in
      (and-eq-true_iff _ _).1
        ((and-eq-true_iff _ _).1 ((and-eq-true_iff _ _).1 (same_group, session), terminal), live),
)

pub filter-IsSelection :
    (pane : ProcessStat) (group : ℕ) (processes : List ProcessStat)
    → IsSelection pane group processes (filter (is_in_job pane group) processes)
unfolding filter
filter-IsSelection pane group [] = no_processes
filter-IsSelection pane group (process ∷ processes) =
    elim (Bool-cases (is_in_job pane group process)) [
      | inl passed ↦
          rw (passed, filter)
            (member ((is_in_job_iff pane group process).0 passed)
              (filter-IsSelection pane group processes))
      | inr dropped ↦
          rw (dropped, filter)
            (stranger (λ m. let passed = (is_in_job_iff pane group process).1 m in cc)
              (filter-IsSelection pane group processes))
    ]

pub IsSelection-filter :
    (pane : ProcessStat) (group : ℕ) (processes selected : List ProcessStat)
    → IsSelection pane group processes selected
    → selected ≡ filter (is_in_job pane group) processes
unfolding filter
IsSelection-filter pane group _ _ no_processes = refl
IsSelection-filter pane group _ _
      (member {process = process} {processes = processes} {selected = selected} m rest) =
    rw ((is_in_job_iff pane group process).1 m, filter)
      (ap (λ l. process ∷ l) (IsSelection-filter pane group processes selected rest))
IsSelection-filter pane group _ _
      (stranger {process = process} {processes = processes} {selected = selected} other rest) =
    elim (Bool-cases (is_in_job pane group process)) [
      | inl passed ↦ absurd (other ((is_in_job_iff pane group process).0 passed))
      | inr dropped ↦ rw (dropped, filter) (IsSelection-filter pane group processes selected rest)
    ]
