-- ===== src/Process/Pinned/Identity.antt =====
-- Which executable a pinned observation stands for.
use tmux_rescue.Common.{
  ==_refl, >>=-eq-ok, Bool-cases, Option-cases, Result-cases, [], ap, arith, false, inl, inr,
  is_empty, length, length-append, list_eq, ne_==, num_eq, ok, ok-injective, refl, some,
  some-injective, subst, sym, true, ◌++◌, ◌==◌, ◌>>=◌, ◌↔◌, ◌∙◌, ◌∷◌, ◌≡◌, ◌⊎◌,
}
use tmux_rescue.Std.Search.{strip_suffix}
use tmux_rescue.Std.Text.{Bytes, Text, lit}
use tmux_rescue.Model.Error.{SnapshotValidationError}
use tmux_rescue.Model.OsString.{LosslessOsString, from_bytes}
use tmux_rescue.Model.OsString.Laws.{IsOsString, from_bytes-IsOsString, from_bytes-bytes}
use tmux_rescue.Process.{fail_if, fail_if-eq-ok}
use tmux_rescue.Process.Cmdline.{from_bytes-same}
use tmux_rescue.Process.Pinned.{
  PinnedExecutableObservation, deletion_mark, executable_of, unlinked_identity,
}
use tmux_rescue.Recovery.Evidence.{ObservedExecutable, pinned_linked, pinned_unlinked}

strip_suffix-eq-some :
    (text suffix rest : Text) → strip_suffix text suffix ≡ some rest → text ≡ rest ++ suffix
unfolding strip_suffix
strip_suffix-eq-some [] [] rest h = let same = some-injective h in rw (← same) refl
strip_suffix-eq-some [] (d ∷ suffix) rest h = cc
strip_suffix-eq-some (c ∷ text) suffix rest h = elim (Bool-cases (c ∷ text == suffix)) [
  | inl whole ↦
      let same = some-injective (rw whole at h) in
      rw (← same) ((list_eq.decides (c ∷ text) suffix).0 whole)
  | inr longer ↦ elim (Option-cases (strip_suffix text suffix)) [
    | inl nothing ↦ let never = rw (longer, nothing) at h in cc
    | inr (before, found) ↦
        let same = some-injective (rw (longer, found) at h) in
        rw (strip_suffix-eq-some text suffix before found, ← same) refl
  ]
]

strip_suffix-append : (text suffix : Text) → strip_suffix (text ++ suffix) suffix ≡ some text
unfolding strip_suffix
strip_suffix-append [] [] = refl
strip_suffix-append [] (d ∷ suffix) = rw (==_refl (d ∷ suffix)) refl
strip_suffix-append (c ∷ text) suffix =
    let longer = length-append text suffix in
    let differs : c ∷ (text ++ suffix) == suffix ≡ false =
      ne_== (c ∷ (text ++ suffix)) suffix (λ same. let lengths = ap length same in omega arith) in
    rw (differs, strip_suffix-append text suffix) refl

-- What the observation says: a linked file by its identity, or an unlinked one by the path in front
-- of the kernel's mark.
abbrev pub IsIdentityOf : PinnedExecutableObservation → ObservedExecutable → Type 0
IsIdentityOf executable identity =
    ((executable.link_count == 0 ≡ false)
      × (identity ≡ pinned_linked executable.key executable.link_count))
    ⊎ ((executable.link_count == 0 ≡ true)
        × (path : LosslessOsString) × (executable.raw_link.bytes ≡ path.bytes ++ deletion_mark)
        × (is_empty path.bytes ≡ false)
        × IsOsString path
        × (identity ≡ pinned_unlinked executable.key path))

module _ (error_text : SnapshotValidationError → Text) where
  unlinked_identity_sound :
      (raw_link : Bytes) (path : LosslessOsString)
      → unlinked_identity error_text raw_link ≡ ok path
      → (raw_link ≡ path.bytes ++ deletion_mark) × (is_empty path.bytes ≡ false) × IsOsString path
  unfolding unlinked_identity
  unlinked_identity_sound raw_link path h =
      elim (Option-cases (strip_suffix raw_link deletion_mark)) [
        | inl undecorated ↦ let never = rw (undecorated, unlinked_identity) at h in cc
        | inr (before, found) ↦
            let behind = rw (found, unlinked_identity) at h in
            let (filled, taken) = fail_if-eq-ok (is_empty before) _ _ behind in
            let whole = strip_suffix-eq-some raw_link deletion_mark before found in
            elim (Result-cases (from_bytes before (lit "operating-system value"))) [
              | inr (error, refused) ↦ let never = rw refused at taken in cc
              | inl (value, read) ↦
                  let same = ok-injective (rw read at taken) in
                  let bytes = from_bytes-same before value read in
                  subst
                    (λ p.
                      (raw_link ≡ LosslessOsString.bytes p ++ deletion_mark)
                      × (is_empty (LosslessOsString.bytes p) ≡ false)
                      × IsOsString p)
                    same
                    (
                      rw bytes whole,
                      rw bytes filled,
                      from_bytes-IsOsString before (lit "operating-system value") value read,
                    )
            ]
      ]

  unlinked_identity_of :
      (path : LosslessOsString)
      → is_empty path.bytes ≡ false
      → IsOsString path
      → unlinked_identity error_text (path.bytes ++ deletion_mark) ≡ ok path
  unfolding unlinked_identity fail_if
  unlinked_identity_of path filled string =
      rw
        (
          strip_suffix-append path.bytes deletion_mark,
          unlinked_identity,
          filled,
          from_bytes-bytes path (lit "operating-system value") string,
        )
        refl

  executable_of-linked :
      (executable : PinnedExecutableObservation)
      → executable.link_count == 0 ≡ false
      → executable_of error_text executable
        ≡ ok (pinned_linked executable.key executable.link_count)
  unfolding executable_of
  executable_of-linked executable linked = rw (linked, executable_of) refl

  executable_of-unlinked :
      (executable : PinnedExecutableObservation)
      → executable.link_count == 0 ≡ true
      → executable_of error_text executable ≡ (
          unlinked_identity error_text executable.raw_link.bytes >>= λ identity_path.
          ok (pinned_unlinked executable.key identity_path))
  unfolding executable_of
  executable_of-unlinked executable unlinked = rw (unlinked, executable_of) refl

  -- The executable of a process is told exactly if it is linked, and then by its device, inode and
  -- links, or if its link is a path with the kernel's mark behind it, and then by that path, which
  -- is not empty and fits an operating-system string.
  pub executable_of-eq-ok_iff :
      (executable : PinnedExecutableObservation) (identity : ObservedExecutable)
      → (executable_of error_text executable ≡ ok identity) ↔ IsIdentityOf executable identity
  executable_of-eq-ok_iff executable identity = (
    λ h. elim (Bool-cases (executable.link_count == 0)) [
      | inr linked ↦
          inl (linked, sym (ok-injective (sym (executable_of-linked executable linked) ∙ h)))
      | inl unlinked ↦
          let (path, found, done) =
            >>=-eq-ok (unlinked_identity error_text executable.raw_link.bytes) _
              (sym (executable_of-unlinked executable unlinked) ∙ h) in
          let (whole, filled, string) =
            unlinked_identity_sound executable.raw_link.bytes path found in
          inr (unlinked, path, whole, filled, string, sym (ok-injective done))
    ],
    λ h. elim h [
      | inl (linked, same) ↦ executable_of-linked executable linked ∙ ap ok (sym same)
      | inr (unlinked, path, whole, filled, string, same) ↦
          executable_of-unlinked executable unlinked
          ∙ rw (whole, unlinked_identity_of path filled string, same) refl
    ],
  )
