-- ===== src/Model/Command/Laws.antt =====
-- What every accepted command satisfies, and reading one back.
use tmux_rescue.Model.OsString
use tmux_rescue.Common.{
  >>=-eq-ok, All, List, Result-cases, [], arith, false, inl, inr, is_empty, is_empty-length,
  is_empty-map, length, length-map, map, ok, refl, ℕ, ◌+◌, ◌∷◌, ◌≡◌, ◌≤◌,
}
use tmux_rescue.Std.Text.{Text}
use tmux_rescue.Model.Codec.{CodecLaws, Codecs}
use tmux_rescue.Model.Command.{
  CapturedCommand, RawCapturedCommand, arguments_from_raw, argv_zero_is_empty, from_raw, to_raw,
}
use tmux_rescue.Model.Error.{max_arguments, refuse_if}
use tmux_rescue.Model.OsString.{LosslessOsString, RawEncodedOsString}
use tmux_rescue.Model.OsString.Laws.{IsOsString, from_raw-IsOsString, from_raw-to_raw}

abbrev pub IsCommand : CapturedCommand → Type 0
IsCommand command =
    IsOsString command.executable
    × (is_empty command.executable.bytes ≡ false)
    × All IsOsString command.argv
    × (is_empty command.argv ≡ false)
    × (length command.argv ≤ max_arguments)
    × (argv_zero_is_empty command.argv ≡ false)

module _ (codecs : Codecs) where
  length-arguments_from_raw :
      (field : Text) (index : ℕ) (raws : List RawEncodedOsString) (values : List LosslessOsString)
      → arguments_from_raw codecs field index raws ≡ ok values
      → All IsOsString values × (length values ≡ length raws)
  unfolding arguments_from_raw
  length-arguments_from_raw field index [] values h = ground arith
  length-arguments_from_raw field index (raw ∷ raws) values h =
      let (value, first, later) = >>=-eq-ok (OsString.from_raw codecs raw _) _ h in
      let (rest, others, same) =
        >>=-eq-ok (arguments_from_raw codecs field (index + 1) raws) _ later in
      ground (
        arith,
        from_raw-IsOsString codecs raw _ value first,
        length-arguments_from_raw field (index + 1) raws rest others,
      )

  pub from_raw-IsCommand :
      (raw : RawCapturedCommand) (field : Text) (command : CapturedCommand)
      → from_raw codecs raw field ≡ ok command
      → IsCommand command
  unfolding from_raw refuse_if
  from_raw-IsCommand raw field command h =
      let (executable, decoded, h₁) = >>=-eq-ok (OsString.from_raw codecs raw.executable _) _ h in
      elim (Result-cases (arguments_from_raw codecs field 0 raw.argv)) [
        | inl (argv, read) ↦ ground (
          arith,
          from_raw-IsOsString codecs raw.executable _ executable decoded,
          length-arguments_from_raw field 0 raw.argv argv read,
          is_empty-length argv,
          is_empty-length raw.argv,
        )
        | inr (error, failed) ↦ ground arith
      ]

module _ (codecs : Codecs) (laws : CodecLaws codecs) where
  arguments_from_raw-map :
      (field : Text) (index : ℕ) (values : List LosslessOsString)
      → All IsOsString values
      → arguments_from_raw codecs field index (map (OsString.to_raw codecs) values) ≡ ok values
  unfolding arguments_from_raw
  arguments_from_raw-map field index [] h = refl
  arguments_from_raw-map field index (value ∷ values) (p, h) =
      rw (from_raw-to_raw codecs laws value _ p, arguments_from_raw-map field (index + 1) values h)

  pub from_raw-to_raw_command :
      (command : CapturedCommand) (field : Text)
      → IsCommand command
      → from_raw codecs (to_raw codecs command) field ≡ ok command
  unfolding from_raw to_raw refuse_if
  from_raw-to_raw_command command field
        (proper, some_executable, each, some_argv, few, some_first) =
      rw (from_raw-to_raw codecs laws command.executable _ proper, some_executable)
        (ground (
          arith,
          is_empty-map command.argv (OsString.to_raw codecs),
          length-map command.argv (OsString.to_raw codecs),
          arguments_from_raw-map field 0 command.argv each,
        ))
