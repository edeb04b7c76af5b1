-- ===== src/Recovery/Group/Rooted.antt =====
-- `with_foreground_members` accepts exactly the members that form one tree below the leader.
use tmux_rescue.Common.{
  ==_ne, >>=-eq-ok, All, Bool, Eq, List, [], ap, false, list_eq, ne_==, not, num_eq, ok,
  ok-injective, or-eq-false, refl, sym, true, ℕ, ◌==◌, ◌>>◌, ◌↔◌, ◌∷◌, ◌≡◌, ◌≢◌,
}
use tmux_rescue.Recovery.Evidence.{
  Checked, ForegroundEvidenceError, ForegroundProcessMember, PaneTiedForegroundEvidence, deny_if,
}
use tmux_rescue.Recovery.Group.{
  Parents, check_rooted, contains_key, index_members, reaches_leader, with_foreground_members,
}
use tmux_rescue.Recovery.Group.Climb.{IsBelow, reaches_leader_iff}

abbrev pub parents_from : Parents → List ForegroundProcessMember → Parents
parents_from parents [] = parents
parents_from parents (member ∷ members) =
    parents_from ((member.process_id, member.parent_process_id) ∷ parents) members

-- No member is the leader, or has the process id of a member before it.
abbrev pub IsNewMembers : ℕ → Parents → List ForegroundProcessMember → Type 0
IsNewMembers leader parents [] = Unit
IsNewMembers leader parents (member ∷ members) =
    (member.process_id ≢ leader)
    × (contains_key parents member.process_id ≡ false)
    × IsNewMembers leader ((member.process_id, member.parent_process_id) ∷ parents) members

-- On the leader's terminal and in its process group.
abbrev pub IsBeside : PaneTiedForegroundEvidence → ForegroundProcessMember → Type 0
IsBeside evidence member =
    (member.process_group ≡ evidence.foreground_process_group)
    × (member.process_tty.bytes ≡ evidence.process_tty.bytes)

pub record IsGroup (evidence : PaneTiedForegroundEvidence) (members : List ForegroundProcessMember)
    : Type 0 where
  pub distinct : IsNewMembers evidence.process_id [] members
  pub beside : All (IsBeside evidence) members
  pub rooted :
      All
        (λ member.
          (depth : ℕ) × IsBelow
            (parents_from [] members)
            evidence.process_id
            depth
            (ForegroundProcessMember.process_id member))
        members

deny_if-eq-ok :
    {A : Type 0} (test : Bool) (error : ForegroundEvidenceError) (rest : Checked A) {a : A}
    → ((deny_if test error >> rest) ≡ ok a) ↔ ((test ≡ false) × (rest ≡ ok a))
unfolding deny_if
deny_if-eq-ok true error rest = (λ h. cc, λ h. cc)
deny_if-eq-ok false error rest = (λ h. (refl, h), λ h. h.1)

not-eq-false : (test : Bool) → (not test ≡ false) ↔ (test ≡ true)
not-eq-false true = (λ h. refl, λ h. refl)
not-eq-false false = (λ h. cc, λ h. cc)

differ-eq-false : {A : Type 0} ⦃e : Eq A⦄ (a b : A) → (not (a == b) ≡ false) ↔ (a ≡ b)
differ-eq-false ⦃e⦄ a b =
    let (equal, same) = not-eq-false (a == b) in
    (λ h. (e.decides a b).0 (equal h), λ p. same ((e.decides a b).1 p))

module _ (evidence : PaneTiedForegroundEvidence) where
  index_members-eq-ok_iff :
      (parents : Parents) (members : List ForegroundProcessMember) (found : Parents)
      → (index_members evidence parents members ≡ ok found) ↔ (
          (found ≡ parents_from parents members)
          × IsNewMembers evidence.process_id parents members
          × All (IsBeside evidence) members)
  unfolding index_members
  index_members-eq-ok_iff parents [] found =
      (λ h. (sym (ok-injective h), tt, tt), λ h. ap ok (sym h.0))
  index_members-eq-ok_iff parents (member ∷ members) found =
      let (sound, converse) =
        index_members-eq-ok_iff ((member.process_id, member.parent_process_id) ∷ parents) members
          found in
      let (group, of_group) =
        differ-eq-false member.process_group evidence.foreground_process_group in
      let (tty, of_tty) = differ-eq-false member.process_tty.bytes evidence.process_tty.bytes in
      (
        λ h.
            let (new, h₁) = (deny_if-eq-ok _ _ _).0 h in
            let (in_group, h₂) = (deny_if-eq-ok _ _ _).0 h₁ in
            let (on_tty, h₃) = (deny_if-eq-ok _ _ _).0 h₂ in
            let (other, unseen) = or-eq-false _ _ new in
            let (same, fresh, besides) = sound h₃ in
            (
              same,
              (==_ne member.process_id evidence.process_id other, unseen, fresh),
              ((group in_group, tty on_tty), besides),
            ),
        λ (same, (other, unseen, fresh), ((in_group, on_tty), besides)). (deny_if-eq-ok _ _ _).1 (
          rw (ne_== member.process_id evidence.process_id other, unseen) refl,
          (deny_if-eq-ok _ _ _).1 (
            of_group in_group,
            (deny_if-eq-ok _ _ _).1 (of_tty on_tty, converse (same, fresh, besides)),
          ),
        ),
      )

  index_members-on_top :
      (parents : Parents) (members : List ForegroundProcessMember)
      → contains_key parents evidence.process_id ≡ false
      → IsNewMembers evidence.process_id parents members
      → contains_key (parents_from parents members) evidence.process_id ≡ false
  index_members-on_top parents [] h fresh = h
  index_members-on_top parents (member ∷ members) h (other, _, fresh) =
      index_members-on_top _ members
        (rw (ne_== evidence.process_id member.process_id (λ p. other (sym p)), h) refl) fresh

check_rooted_iff :
    (parents : Parents) (leader : ℕ) (members : List ForegroundProcessMember)
    → contains_key parents leader ≡ false
    → (check_rooted parents leader members ≡ ok tt)
      ↔ All
          (λ member.
            (depth : ℕ) × IsBelow parents leader depth (ForegroundProcessMember.process_id member))
          members
unfolding check_rooted
check_rooted_iff parents leader [] on_top = (λ h. tt, λ h. refl)
check_rooted_iff parents leader (member ∷ members) on_top =
    let (sound, converse) = check_rooted_iff parents leader members on_top in
    let (reached, reaches) = reaches_leader_iff parents leader on_top member.process_id in
    let (passed, passes) = not-eq-false (reaches_leader parents leader member.process_id) in
    (
      λ h. let (reach, later) = (deny_if-eq-ok _ _ _).0 h in (reached (passed reach), sound later),
      λ (below, later). (deny_if-eq-ok _ _ _).1 (passes (reaches below), converse later),
    )

-- Members are accepted, and kept as given, exactly if they are distinct processes beside the
-- leader in its group and on its terminal, from each of which the parents lead up to the leader:
-- no cycle, and no parent outside of the group.
pub with_foreground_members-eq-ok_iff :
    (evidence : PaneTiedForegroundEvidence) (members : List ForegroundProcessMember)
    → (with_foreground_members evidence members ≡ ok (record evidence { members = members }))
      ↔ IsGroup evidence members
unfolding with_foreground_members
with_foreground_members-eq-ok_iff evidence members =
    let parents = parents_from [] members in
    let (sound, converse) = index_members-eq-ok_iff evidence [] members parents in
    (
      λ h.
          let (found, indexed, h₁) = >>=-eq-ok (index_members evidence [] members) _ h in
          let (same, distinct, beside) =
            (index_members-eq-ok_iff evidence [] members found).0 indexed in
          let (_, rooted, _) = >>=-eq-ok (check_rooted found evidence.process_id members) _ h₁ in
          let rooted_there = rw same at rooted in
          record {
            distinct = distinct;
            beside = beside;
            rooted =
                (check_rooted_iff parents evidence.process_id members
                    (index_members-on_top evidence [] members refl distinct)).0
                  rooted_there;
          },
      λ group.
          let indexed = converse (refl, group.distinct, group.beside) in
          let rooted =
            (check_rooted_iff parents evidence.process_id members
                (index_members-on_top evidence [] members refl group.distinct)).1
              group.rooted in
          rw (indexed, rooted) refl,
    )
