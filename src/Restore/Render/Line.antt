-- ===== src/Restore/Render/Line.antt =====
-- The line that `render_argv` gives: its words, its bytes, and when there is one.
use tmux_rescue.Common.{
  All, Bool-cases, List, Option-cases, [], arith, err, false, inl, inr, length, list_eq, none,
  num_eq, ok, refl, some, suc, ℕ, ◌↔◌, ◌∙◌, ◌∷◌, ◌≡◌, ◌≤◌,
}
use tmux_rescue.Std.Ascii.{IsPrintable}
use tmux_rescue.Model.OsString.{LosslessOsString}
use tmux_rescue.Restore.Render.{
  RenderedShellInput, contains_terminal_control, max_rendered_shell_input_bytes, render_argv,
  render_loop,
}
use tmux_rescue.Restore.Render.Quoting.{
  argv_bytes, first_unsafe, joined, joined-IsPrintable, render_loop_lem, split_words-joined,
}
use tmux_rescue.Restore.Shell.{SourcePaneCoordinate, TargetShell, unsafe_shell_input}
use tmux_rescue.Restore.ShellWords.{split_words}

-- No argument holds a terminal control.
abbrev pub IsClean : List LosslessOsString → Type 0
IsClean argv = All (λ argument. contains_terminal_control argument.bytes ≡ false) argv

first_unsafe-none_iff :
    (index : ℕ) (argv : List LosslessOsString) → (first_unsafe index argv ≡ none) ↔ IsClean argv
unfolding first_unsafe
first_unsafe-none_iff index [] = (λ h. tt, λ h. refl)
first_unsafe-none_iff index (argument ∷ arguments) =
    let (clean, none_of) = first_unsafe-none_iff (suc index) arguments in
    elim (Bool-cases (contains_terminal_control argument.bytes)) [
      | inl bad ↦ rw bad (λ h. cc, λ h. cc)
      | inr good ↦ rw good (λ h. (refl, clean h), λ h. none_of h.1)
    ]

module _ (shell : TargetShell) (argv : List LosslessOsString) (pane : SourcePaneCoordinate) where
  render_argv-eq-ok :
      (input : RenderedShellInput)
      → render_argv shell argv pane ≡ ok input
      → IsClean argv
        × (input ≡ record { bytes = joined 0 argv; shell = shell })
        × (length (joined 0 argv) ≤ max_rendered_shell_input_bytes)
  unfolding render_argv
  render_argv-eq-ok input h =
      let looped = render_loop_lem pane 0 [] argv in
      elim (Option-cases (first_unsafe 0 argv)) [
        | inl clean ↦
            let line : render_loop pane 0 [] argv ≡ ok (joined 0 argv) = looped ∙ rw clean refl in
            ((first_unsafe-none_iff 0 argv).0 clean, ground arith, ground arith)
        | inr (index, bad) ↦
            let fault : render_loop pane 0 [] argv ≡ err (unsafe_shell_input pane index) =
              looped ∙ rw bad refl in
            absurd (ground arith)
      ]

  -- Rendering succeeds exactly when no argument holds a terminal control and the line is within
  -- the size limit.
  pub render_argv-eq-ok_iff :
      ((input : RenderedShellInput) × (render_argv shell argv pane ≡ ok input))
      ↔ (IsClean argv × (length (joined 0 argv) ≤ max_rendered_shell_input_bytes))
  unfolding render_argv
  render_argv-eq-ok_iff = (
    λ r. let (clean, _, fits) = render_argv-eq-ok r.0 r.1 in (clean, fits),
    λ h.
        let line : render_loop pane 0 [] argv ≡ ok (joined 0 argv) =
          render_loop_lem pane 0 [] argv ∙ rw ((first_unsafe-none_iff 0 argv).1 h.0) refl in
        let fits : length (joined 0 argv) ≤ max_rendered_shell_input_bytes = h.1 in
        (record { bytes = joined 0 argv; shell = shell }, ground arith),
  )

  -- A shell splits the rendered line into exactly the arguments: no argument is split, joined,
  -- expanded or run.
  pub split_words-render_argv :
      (input : RenderedShellInput)
      → render_argv shell argv pane ≡ ok input
      → split_words input.bytes ≡ some (argv_bytes argv)
  split_words-render_argv input h =
      let (_, same, _) = render_argv-eq-ok input h in rw same (split_words-joined argv)

  -- The rendered line has no ASCII control byte, so that no part of it is submitted by itself,
  -- and it is within the size limit.
  pub render_argv-IsPrintable :
      (input : RenderedShellInput)
      → render_argv shell argv pane ≡ ok input
      → All IsPrintable input.bytes × (length input.bytes ≤ max_rendered_shell_input_bytes)
  render_argv-IsPrintable input h =
      let (clean, same, fits) = render_argv-eq-ok input h in
      rw same (joined-IsPrintable 0 argv clean, fits)
