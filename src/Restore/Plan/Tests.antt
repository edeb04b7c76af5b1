-- ===== src/Restore/Plan/Tests.antt =====
-- A plan for a snapshot with a launch, and a pane whose directory is gone.
use tmux_rescue.Common.{
  [], arith, list_eq, none, num_eq, ok, refl, some, some-injective, subst, ◌++◌, ◌==◌, ◌||◌, ◌∷◌,
  ◌≡◌,
}
use tmux_rescue.Std.Text.{lit}
use tmux_rescue.Std.Utf8.{from_utf8}
use tmux_rescue.Model.Recovery.{automatic, codex, md_book_serve}
use tmux_rescue.Model.Snapshot.Tests.{codecs, os, sample, serve}
use tmux_rescue.Recovery.Command.{derive_automatic_command, expect_md_book_serve, expectation_of}
use tmux_rescue.Restore.Pane.{
  codex_prompt_of, new_launch, plan_pane, plan_pane_action, plan_panes, render_launch_command,
  resolve_directory,
}
use tmux_rescue.Restore.Plan.{
  destination_of, plan_restore, plan_session, plan_sessions, plan_window, plan_windows,
}
use tmux_rescue.Restore.Plan.Returns.{HasRenderable, IsRenderable, plan_restore-Returns}
use tmux_rescue.Restore.Plan.Whole.{IsPlanFor, plan_restore-IsPlanFor}
use tmux_rescue.Restore.Planned.{
  RestoreEnvironment, RestorePlan, automatic_recovery_fallback, launch_automatic,
  pane_directory_fallback, paste_automatic_fallback, recorded, recorded_directory_unavailable,
  session_fallback,
}
use tmux_rescue.Restore.Render.{contains_terminal_control, quote, quote_bytes, render_argv}
use tmux_rescue.Restore.Render.Quoting.{joined}
use tmux_rescue.Restore.Render.Tests.{at_path, first_coordinate, identity, test_shell}
use tmux_rescue.Restore.Shell.{SourcePaneCoordinate}
use tmux_rescue.Selector.{socket_path}

-- `/srv` and `/root` exist, and all executables are found in `/usr/bin`.
abbrev environment_of_tests : RestoreEnvironment
environment_of_tests = record {
  target_shell = ok test_shell;
  home_directory = ok (at_path "/root");
  directory_exists = λ path. path.path.bytes == lit "/srv" || path.path.bytes == lit "/root";
  resolve_executable = λ _ word. some (record {
    path = record { path = os (lit "/usr/bin/" ++ word.bytes) };
    file_identity = identity;
  });
}

abbrev pub other_coordinate : SourcePaneCoordinate
other_coordinate = record { session_name = lit "work"; window_index = 1; pane_index = 0 }

abbrev pub plan : RestorePlan
plan = record {
  destination = record { selector = socket_path (lit "/tmp/source.sock") };
  target_shell = test_shell;
  sessions =
      record {
        name = lit "work";
        directory = record { path = at_path "/srv"; origin = recorded };
        windows =
            record {
              source_index = 1;
              name = lit "docs";
              pane_coordinates = first_coordinate ∷ other_coordinate ∷ [];
            }
            ∷ [];
      }
      ∷ [];
  panes =
      record {
        coordinate = first_coordinate;
        action = launch_automatic (record {
          directory = record { path = at_path "/srv" };
          input = record {
            rendered = record { bytes = lit "'/usr/bin/mdbook' 'serve'"; shell = test_shell };
            executable = record { path = at_path "/usr/bin/mdbook"; file_identity = identity };
          };
          expected = expect_md_book_serve (record { command = serve });
          codex_prompt = none;
        });
      }
      ∷ record {
        coordinate = other_coordinate;
        action =
            paste_automatic_fallback (record { path = at_path "/srv"; origin = session_fallback })
              (record { bytes = lit "'codex' 'resume' '7'"; shell = test_shell })
              recorded_directory_unavailable;
      }
      ∷ [];
  degradations =
      pane_directory_fallback other_coordinate
      ∷ automatic_recovery_fallback other_coordinate recorded_directory_unavailable
      ∷ [];
}

plan_restore-sample : plan_restore codecs environment_of_tests sample none ≡ ok plan
unfolding plan_restore plan_sessions plan_session plan_windows plan_window plan_panes plan_pane
    plan_pane_action resolve_directory new_launch codex_prompt_of render_launch_command render_argv
    contains_terminal_control from_utf8 derive_automatic_command expectation_of destination_of
plan_restore-sample = refl

plan_restore-IsPlanFor_example : IsPlanFor codecs environment_of_tests sample none plan
plan_restore-IsPlanFor_example =
    plan_restore-IsPlanFor codecs environment_of_tests sample none plan plan_restore-sample

serve_renderable :
    HasRenderable codecs environment_of_tests
      (at_path "/srv")
      (automatic (md_book_serve (record { command = serve })))
unfolding derive_automatic_command contains_terminal_control from_utf8 joined quote quote_bytes
serve_renderable = (
  ((refl, (refl, tt)), omega arith),
  λ executable h.
      subst (λ found. IsRenderable (found.path.path ∷ os (lit "serve") ∷ [])) (some-injective h)
        ((refl, (refl, tt)), omega arith),
)

codex_renderable :
    HasRenderable codecs environment_of_tests
      (record { path = os (b'/' ∷ 0xFF ∷ []) })
      (automatic
        (codex (record { uuid = b'7' }) (some (record { text = record { text = lit "fix it" } }))))
unfolding derive_automatic_command contains_terminal_control from_utf8 joined quote quote_bytes
codex_renderable = (
  ((refl, (refl, (refl, tt))), omega arith),
  λ executable h.
      subst (λ found. IsRenderable (found.path.path ∷ os (lit "resume") ∷ os (lit "7") ∷ []))
        (some-injective h) ((refl, (refl, (refl, tt))), omega arith),
)

plan_restore-Returns_example :
    (made : RestorePlan) × (plan_restore codecs environment_of_tests sample none ≡ ok made)
plan_restore-Returns_example =
    plan_restore-Returns codecs environment_of_tests sample none test_shell (at_path "/root") refl
      refl refl (((serve_renderable, (codex_renderable, tt)), tt), tt)
