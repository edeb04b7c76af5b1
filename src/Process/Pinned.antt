-- ===== src/Process/Pinned.antt =====
-- `ObservedProcessCommand::from_pinned`: the executable that a process runs, deleted or not.
pub mod Identity
use tmux_rescue.Common.{
  List, err, if◌then◌else◌, is_empty, list_eq, none, num_eq, ok, some, ℕ, ◌==◌, ◌>>=◌, ◌>>◌,
}
use tmux_rescue.Std.Search.{strip_suffix}
use tmux_rescue.Std.Text.{Bytes, Text, lit}
use tmux_rescue.Model.Codec.{Codecs}
use tmux_rescue.Model.Command.{try_new}
use tmux_rescue.Model.Error.{SnapshotValidationError}
use tmux_rescue.Model.OsString.{LosslessOsString, from_bytes}
use tmux_rescue.Process.{Inspected, fail_if, invalid_command_value, invalid_evidence}
use tmux_rescue.Recovery.Evidence.{
  ObservedExecutable, ObservedProcessCommand, ProcessExecutableKey, pinned_linked, pinned_unlinked,
}

-- `PinnedExecutableObservation`
pub record PinnedExecutableObservation : Type 0 where
  pub key : ProcessExecutableKey
  pub link_count : ℕ
  pub raw_link : LosslessOsString

-- `b" (deleted)"`
abbrev pub deletion_mark : Bytes
deletion_mark = lit " (deleted)"

-- `try_from_bytes`, with its error's text as `error_text` formats it.
module _ (error_text : SnapshotValidationError → Text) where
  unfoldable pub unlinked_identity : Bytes → Inspected LosslessOsString
  unlinked_identity raw_link = elim (strip_suffix raw_link deletion_mark) [
    | none ↦
        err (invalid_evidence (lit "unlinked executable is missing the kernel deletion decoration"))
    | some identity_path ↦ do
      fail_if (is_empty identity_path)
          (invalid_evidence (lit "unlinked executable identity is empty"))
      elim (from_bytes identity_path (lit "operating-system value")) [
        | ok path ↦ ok path
        | err error ↦ err (invalid_evidence (error_text error))
      ]
  ]

  -- `NonZeroU64::new` is the test of the count.
  unfoldable pub executable_of : PinnedExecutableObservation → Inspected ObservedExecutable
  executable_of executable =
      if executable.link_count == 0
      then (unlinked_identity executable.raw_link.bytes >>= λ identity_path.
          ok (pinned_unlinked executable.key identity_path))
      else ok (pinned_linked executable.key executable.link_count)

  module _ (codecs : Codecs) where
    unfoldable pub from_pinned :
        PinnedExecutableObservation → List LosslessOsString → Inspected ObservedProcessCommand
    from_pinned executable argv = elim (try_new codecs executable.raw_link argv) [
      | err error ↦ err (invalid_command_value error)
      | ok command ↦
          (executable_of executable >>= λ identity.
          ok (record { command = command; executable = identity }))
    ]
