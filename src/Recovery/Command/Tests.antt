-- ===== src/Recovery/Command/Tests.antt =====
-- `mdbook serve` from one directory, launched from another.
use tmux_rescue.Common.{[], list_eq, num_eq, ok, refl, some, true, ◌∷◌, ◌≡◌}
use tmux_rescue.Std.Path.{file_name}
use tmux_rescue.Std.Text.{lit}
use tmux_rescue.Model.OsString.{LosslessOsString}
use tmux_rescue.Model.Recovery.{md_book_serve, recognize_md_book}
use tmux_rescue.Model.Snapshot.Tests.{codecs, os, serve}
use tmux_rescue.Recovery.Command.{
  derive_automatic_command, expect_md_book_serve, expectation_of, matches,
}
use tmux_rescue.Recovery.Command.Relaunch.{mdbook_relaunched}

abbrev installed : LosslessOsString
installed = os (lit "/opt/bin/mdbook")

installed_name : file_name installed.bytes ≡ some (lit "mdbook")
unfolding file_name
installed_name = refl

mdbook_relaunched_example :
    (recognize_md_book (record { executable = installed; argv = installed ∷ os (lit "serve") ∷ [] })
      ≡ ok (record {
        command = record { executable = installed; argv = installed ∷ os (lit "serve") ∷ [] };
      }))
    × (matches (expect_md_book_serve (record { command = serve })) (
          md_book_serve (record {
            command = record { executable = installed; argv = installed ∷ os (lit "serve") ∷ [] };
          }))
        ≡ true)
unfolding derive_automatic_command expectation_of file_name
mdbook_relaunched_example =
    mdbook_relaunched codecs installed (record { command = serve }) installed_name refl
