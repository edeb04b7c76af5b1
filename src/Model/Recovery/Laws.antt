-- ===== src/Model/Recovery/Laws.antt =====
-- What every accepted recovery satisfies, and reading one back.
use tmux_rescue.Model.Command
use tmux_rescue.Common.{>>=-eq-ok, Option, arith, none, ok, refl, some, true, ◌<◌, ◌^◌, ◌↔◌, ◌≡◌}
use tmux_rescue.Std.Text.{Text, lit}
use tmux_rescue.Model.Codec.{CodecLaws, Codecs, Uuid}
use tmux_rescue.Model.Command.{CapturedCommand}
use tmux_rescue.Model.Command.Laws.{IsCommand, from_raw-IsCommand, from_raw-to_raw_command}
use tmux_rescue.Model.Name.{CapturedCodexPromptArea, failure_from_raw, prompt_area_try_new}
use tmux_rescue.Model.Name.Laws.{
  IsFailure, IsPromptText, failure_from_raw-IsFailure, failure_from_raw-message,
  prompt_area_try_new-IsPromptText, prompt_area_try_new-text,
}
use tmux_rescue.Model.Recovery.{
  AutomaticRecovery, PaneRecovery, RawAutomaticRecovery, RawCapturedCodexPromptArea,
  RawPaneRecovery, automatic, automatic_to_raw, book, bookshelf_serve, claude_code, codex, idle,
  manual, md_book_serve, mdbook, parse_session_id, raw_automatic, raw_bookshelf_serve,
  raw_claude_code, raw_codex, raw_idle, raw_manual, raw_md_book_serve, raw_prompt_area,
  raw_unavailable, recovery_to_raw, unavailable, validate_automatic, validate_prompt_area,
  validate_recovery,
}

abbrev pub IsPromptArea : Option CapturedCodexPromptArea → Type 0
IsPromptArea none = Unit
IsPromptArea (some area) = IsPromptText area.text

-- A command that a serve recovery holds: a proper command that identifies the tool.
abbrev pub IsServe : Text → CapturedCommand → Type 0
IsServe tool command = IsCommand command × (Command.identifies_serve tool command ≡ true)

abbrev pub IsAutomatic : AutomaticRecovery → Type 0
IsAutomatic (codex session_id area) = (session_id.uuid < 2 ^ 128) × IsPromptArea area
IsAutomatic (claude_code session_id) = session_id.uuid < 2 ^ 128
IsAutomatic (md_book_serve recognized) = IsServe mdbook recognized.command
IsAutomatic (bookshelf_serve recognized) = IsServe book recognized.command

abbrev pub IsRecovery : PaneRecovery → Type 0
IsRecovery idle = Unit
IsRecovery (automatic recovery) = IsAutomatic recovery
IsRecovery (manual command) = IsCommand command
IsRecovery (unavailable failure) = IsFailure failure

validate_serve_command_iff :
    (tool : Text) (command : CapturedCommand)
    → (Command.validate_serve_command tool command ≡ ok tt)
      ↔ (Command.identifies_serve tool command ≡ true)
unfolding Command.validate_serve_command
validate_serve_command_iff tool command = ground arith

validate_prompt_area-IsPromptArea :
    (raw : Option RawCapturedCodexPromptArea) (area : Option CapturedCodexPromptArea)
    → validate_prompt_area raw ≡ ok area
    → IsPromptArea area
unfolding validate_prompt_area
validate_prompt_area-IsPromptArea none area h = ground arith
validate_prompt_area-IsPromptArea (some raw) area h =
    let (valid, accepted, same) = >>=-eq-ok (prompt_area_try_new raw.text) _ h in
    ground (arith, prompt_area_try_new-IsPromptText raw.text valid accepted)

validate_prompt_area-raw :
    (area : Option CapturedCodexPromptArea)
    → IsPromptArea area
    → validate_prompt_area (raw_prompt_area area) ≡ ok area
unfolding validate_prompt_area raw_prompt_area
validate_prompt_area-raw none h = refl
validate_prompt_area-raw (some area) h = rw (prompt_area_try_new-text area h)

module _ (codecs : Codecs) (laws : CodecLaws codecs) where
  parse_session_id_in_range :
      (tool session_id : Text) (uuid : Uuid)
      → parse_session_id codecs tool session_id ≡ ok uuid
      → uuid < 2 ^ 128
  unfolding parse_session_id
  parse_session_id_in_range tool session_id uuid h =
      ground (arith, laws.uuid_in_range session_id uuid)

  parse_session_id-uuid_display :
      (tool : Text) (uuid : Uuid)
      → uuid < 2 ^ 128
      → parse_session_id codecs tool (codecs.uuid_display uuid) ≡ ok uuid
  unfolding parse_session_id
  parse_session_id-uuid_display tool uuid h = rw (laws.uuid_round_trip uuid h, parse_session_id)

  validate_automatic-IsAutomatic :
      (raw : RawAutomaticRecovery) (field : Text) (recovery : AutomaticRecovery)
      → validate_automatic codecs raw field ≡ ok recovery
      → IsAutomatic recovery
  unfolding validate_automatic
  validate_automatic-IsAutomatic (raw_codex session_id prompt_area) field recovery h =
      let (uuid, parsed, h₁) = >>=-eq-ok (parse_session_id codecs (lit "codex") session_id) _ h in
      let (area, valid, same) = >>=-eq-ok (validate_prompt_area prompt_area) _ h₁ in
      ground (
        arith,
        parse_session_id_in_range _ session_id uuid parsed,
        validate_prompt_area-IsPromptArea prompt_area area valid,
      )
  validate_automatic-IsAutomatic (raw_claude_code session_id) field recovery h =
      let (uuid, parsed, same) =
        >>=-eq-ok (parse_session_id codecs (lit "claude_code") session_id) _ h in
      ground (arith, parse_session_id_in_range _ session_id uuid parsed)
  validate_automatic-IsAutomatic (raw_md_book_serve raw) field recovery h =
      let (command, read, h₁) = >>=-eq-ok (Command.from_raw codecs raw _) _ h in
      let (_, accepted, same) = >>=-eq-ok (Command.validate_serve_command mdbook command) _ h₁ in
      ground (
        arith,
        from_raw-IsCommand codecs raw _ command read,
        (validate_serve_command_iff mdbook command).0 accepted,
      )
  validate_automatic-IsAutomatic (raw_bookshelf_serve raw) field recovery h =
      let (command, read, h₁) = >>=-eq-ok (Command.from_raw codecs raw _) _ h in
      let (_, accepted, same) = >>=-eq-ok (Command.validate_serve_command book command) _ h₁ in
      ground (
        arith,
        from_raw-IsCommand codecs raw _ command read,
        (validate_serve_command_iff book command).0 accepted,
      )

  pub validate_recovery-IsRecovery :
      (raw : RawPaneRecovery) (field : Text) (recovery : PaneRecovery)
      → validate_recovery codecs raw field ≡ ok recovery
      → IsRecovery recovery
  unfolding validate_recovery
  validate_recovery-IsRecovery raw_idle field recovery h = ground arith
  validate_recovery-IsRecovery (raw_manual raw) field recovery h =
      let (command, read, same) = >>=-eq-ok (Command.from_raw codecs raw _) _ h in
      ground (arith, from_raw-IsCommand codecs raw _ command read)
  validate_recovery-IsRecovery (raw_unavailable message) field recovery h =
      let (failure, accepted, same) = >>=-eq-ok (failure_from_raw message _) _ h in
      ground (arith, failure_from_raw-IsFailure message _ failure accepted)
  validate_recovery-IsRecovery (raw_automatic raw) field recovery h =
      let (found, accepted, same) = >>=-eq-ok (validate_automatic codecs raw field) _ h in
      ground (arith, validate_automatic-IsAutomatic raw field found accepted)

  validate_automatic-automatic_to_raw :
      (recovery : AutomaticRecovery) (field : Text)
      → IsAutomatic recovery
      → validate_automatic codecs (automatic_to_raw codecs recovery) field ≡ ok recovery
  unfolding validate_automatic automatic_to_raw
  validate_automatic-automatic_to_raw (codex session_id area) field h = rw (
    parse_session_id-uuid_display (lit "codex") session_id.uuid h.0,
    validate_prompt_area-raw area h.1,
  )
  validate_automatic-automatic_to_raw (claude_code session_id) field h =
      rw (parse_session_id-uuid_display (lit "claude_code") session_id.uuid h)
  validate_automatic-automatic_to_raw (md_book_serve recognized) field (proper, serves) = rw (
    from_raw-to_raw_command codecs laws recognized.command _ proper,
    (validate_serve_command_iff mdbook recognized.command).1 serves,
  )
  validate_automatic-automatic_to_raw (bookshelf_serve recognized) field (proper, serves) = rw (
    from_raw-to_raw_command codecs laws recognized.command _ proper,
    (validate_serve_command_iff book recognized.command).1 serves,
  )

  pub validate_recovery-recovery_to_raw :
      (recovery : PaneRecovery) (field : Text)
      → IsRecovery recovery
      → validate_recovery codecs (recovery_to_raw codecs recovery) field ≡ ok recovery
  unfolding validate_recovery recovery_to_raw
  validate_recovery-recovery_to_raw idle field h = refl
  validate_recovery-recovery_to_raw (automatic recovery) field h =
      rw (validate_automatic-automatic_to_raw recovery field h)
  validate_recovery-recovery_to_raw (manual command) field h =
      rw (from_raw-to_raw_command codecs laws command _ h)
  validate_recovery-recovery_to_raw (unavailable failure) field h =
      rw (failure_from_raw-message failure _ h)
