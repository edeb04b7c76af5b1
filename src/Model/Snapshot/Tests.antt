-- ===== src/Model/Snapshot/Tests.antt =====
-- Codecs that meet the assumed laws, and the theorems at a snapshot of one session.
use native.Mathlib.Decide.{ℕ_discrete}
use tmux_rescue.Model.OsString
use tmux_rescue.Model.Command
use tmux_rescue.Common.{
  List, Option, Result, String, [], ap, arith, err, if◌then◌else◌, inr, length, list_eq, ltb, none,
  num_eq, ok, refl, some, sym, ℕ, ◌<◌, ◌^◌, ◌∷◌, ◌≡◌,
}
use tmux_rescue.Std.Path.{file_name, is_absolute}
use tmux_rescue.Std.Text.{Bytes, Text, decimal, lit}
use tmux_rescue.Std.Utf8.{chars, is_utf8, is_whitespace}
use tmux_rescue.Model.Codec.{CodecLaws, Codecs, Uuid}
use tmux_rescue.Model.Command.{CapturedCommand, RawCapturedCommand}
use tmux_rescue.Model.Error.{refuse_if}
use tmux_rescue.Model.Name.{
  prompt_area_try_new, prompt_text_try_new, validate_name, validate_session_name,
  validate_window_name,
}
use tmux_rescue.Model.OsString.{LosslessOsString, RawEncodedOsString, base64, utf8}
use tmux_rescue.Model.Recovery.{
  automatic, automatic_to_raw, codex, idle, md_book_serve, parse_session_id, raw_automatic,
  raw_codex, raw_idle, raw_md_book_serve, recovery_to_raw, validate_automatic, validate_recovery,
}
use tmux_rescue.Model.Snapshot.{
  PaneSnapshot, RawPaneSnapshot, RawSnapshot, ValidatedSnapshot, consistency_to_raw, pane_to_raw,
  parse_capture_time, raw_stable, raw_unstable, refine, refine_consistency, session_to_raw,
  snapshot_to_raw, stable, unstable, validate_pane, validate_panes, validate_session,
  validate_sessions, validate_window, validate_windows, window_to_raw,
}
use tmux_rescue.Model.Snapshot.Json.{
  Serde, SerdeLaw, from_json, from_json_after_save, to_json_pretty,
}
use tmux_rescue.Model.Snapshot.Laws.{IsSnapshot, refine-IsSnapshot}
use tmux_rescue.Model.Snapshot.RoundTrip.{refine-snapshot_to_raw}

abbrev pub parse_small : Text → Option Uuid
parse_small (uuid ∷ []) = if ltb uuid (2 ^ 128) then some uuid else none
parse_small _ = none

abbrev pub codecs : Codecs
codecs = record {
  base64_encode = λ bytes. bytes;
  base64_decode = λ text. ok text;
  uuid_parse = parse_small;
  uuid_display = λ uuid. uuid ∷ [];
  debug = λ text. text;
}

parse_small_in_range : (text : Text) (uuid : Uuid) → parse_small text ≡ some uuid → uuid < 2 ^ 128
parse_small_in_range [] uuid h = cc
parse_small_in_range (a ∷ []) uuid h = ground arith
parse_small_in_range (a ∷ b ∷ text) uuid h = cc

pub laws : CodecLaws codecs
laws = record {
  base64_round_trip = λ bytes. refl;
  uuid_round_trip = λ uuid h. ground arith;
  uuid_in_range = parse_small_in_range;
}

abbrev pub clock : Text → Option ℕ
clock text = some (length text)

abbrev pub utf8_of : String → RawEncodedOsString
utf8_of text = record { encoding = utf8; value = lit text }

abbrev raw_serve : RawCapturedCommand
raw_serve = record {
  executable = utf8_of "/usr/bin/mdbook";
  argv = utf8_of "mdbook" ∷ utf8_of "serve" ∷ [];
}

abbrev raw_panes : List RawPaneSnapshot
raw_panes =
    record {
      source_index = 4;
      working_directory = utf8_of "/srv";
      recovery = raw_automatic (raw_md_book_serve raw_serve);
    }
    ∷ record {
      source_index = 0;
      working_directory = record { encoding = base64; value = b'/' ∷ 0xFF ∷ [] };
      recovery = raw_automatic (raw_codex (b'7' ∷ []) (some (record { text = lit "fix it" })));
    }
    ∷ []

abbrev raw_sample : RawSnapshot
raw_sample = record {
  captured_at = lit "2026-07-23T00:00:00Z";
  source = utf8_of "/tmp/source.sock";
  consistency = raw_unstable 3;
  sessions =
      record {
        name = lit "work";
        working_directory = utf8_of "/srv";
        windows = record { source_index = 1; name = lit "docs"; panes = raw_panes } ∷ [];
      }
      ∷ [];
}

abbrev pub os : Bytes → LosslessOsString
os bytes = record { bytes = bytes }

abbrev pub serve : CapturedCommand
serve = record {
  executable = os (lit "/usr/bin/mdbook");
  argv = os (lit "mdbook") ∷ os (lit "serve") ∷ [];
}

abbrev pub panes : List PaneSnapshot
panes =
    record {
      source_index = 4;
      working_directory = record { path = os (lit "/srv") };
      recovery = automatic (md_book_serve (record { command = serve }));
    }
    ∷ record {
      source_index = 0;
      working_directory = record { path = os (b'/' ∷ 0xFF ∷ []) };
      recovery = automatic (
          codex (record { uuid = b'7' }) (some (record { text = record { text = lit "fix it" } })));
    }
    ∷ []

abbrev pub sample : ValidatedSnapshot ℕ
sample = record {
  captured_at = record { value = 20; encoded = lit "2026-07-23T00:00:00Z" };
  source = record { path = record { path = os (lit "/tmp/source.sock") } };
  consistency = unstable (record { attempts = 3 });
  sessions =
      record {
        name = lit "work";
        working_directory = record { path = os (lit "/srv") };
        windows = record { source_index = 1; name = lit "docs"; panes = panes } ∷ [];
      }
      ∷ [];
}

refine-sample : refine clock codecs raw_sample ≡ ok sample
unfolding refine parse_capture_time refine_consistency validate_sessions validate_session
    validate_windows validate_window validate_panes validate_pane refuse_if validate_recovery
    validate_automatic parse_session_id prompt_area_try_new prompt_text_try_new
    validate_session_name validate_window_name validate_name Command.from_raw
    Command.validate_serve_command OsString.path_from_raw OsString.from_raw OsString.from_bytes
    is_absolute is_utf8 chars decimal is_whitespace file_name
refine-sample = refl

-- One idle pane, as a stable capture has it.
abbrev pub idle_raw : RawSnapshot
idle_raw = record {
  captured_at = lit "2026-07-23T00:00:00Z";
  source = utf8_of "/tmp/source.sock";
  consistency = raw_stable;
  sessions =
      record {
        name = lit "work";
        working_directory = utf8_of "/srv";
        windows =
            record {
              source_index = 1;
              name = lit "docs";
              panes =
                  record {
                    source_index = 0;
                    working_directory = utf8_of "/srv";
                    recovery = raw_idle;
                  }
                  ∷ [];
            }
            ∷ [];
      }
      ∷ [];
}

abbrev pub idle_sample : ValidatedSnapshot ℕ
idle_sample = record {
  captured_at = record { value = 20; encoded = lit "2026-07-23T00:00:00Z" };
  source = record { path = record { path = os (lit "/tmp/source.sock") } };
  consistency = stable;
  sessions =
      record {
        name = lit "work";
        working_directory = record { path = os (lit "/srv") };
        windows =
            record {
              source_index = 1;
              name = lit "docs";
              panes =
                  record {
                    source_index = 0;
                    working_directory = record { path = os (lit "/srv") };
                    recovery = idle;
                  }
                  ∷ [];
            }
            ∷ [];
      }
      ∷ [];
}

pub refine-idle_sample : refine clock codecs idle_raw ≡ ok idle_sample
unfolding refine parse_capture_time refine_consistency validate_sessions validate_session
    validate_windows validate_window validate_panes validate_pane refuse_if validate_recovery
    validate_session_name validate_window_name validate_name OsString.path_from_raw
    OsString.from_raw OsString.from_bytes is_absolute is_utf8 chars decimal
refine-idle_sample = refl

refine-IsSnapshot_example : IsSnapshot clock sample
refine-IsSnapshot_example = refine-IsSnapshot clock codecs laws raw_sample sample refine-sample

refine-snapshot_to_raw_example : refine clock codecs (snapshot_to_raw codecs sample) ≡ ok sample
refine-snapshot_to_raw_example =
    refine-snapshot_to_raw clock codecs laws sample
      (refine-IsSnapshot clock codecs laws raw_sample sample refine-sample)

RawSnapshot-discrete : Discrete RawSnapshot
RawSnapshot-discrete = hlevel ℕ_discrete

-- Writes one snapshot, and fails at all others.
abbrev write_if : {raw : RawSnapshot} → Dec (raw ≡ raw_sample) → Result Text Bytes
write_if (yes _) = ok (lit "{}")
write_if (no _) = err (lit "another snapshot")

write_if-eq-ok :
    {raw : RawSnapshot} (d : Dec (raw ≡ raw_sample)) (bytes : Bytes)
    → write_if d ≡ ok bytes
    → raw ≡ raw_sample
write_if-eq-ok (yes same) bytes h = same
write_if-eq-ok (no other) bytes h = cc

write_if_same :
    {raw : RawSnapshot} (d : Dec (raw ≡ raw_sample)) → raw ≡ raw_sample → write_if d ≡ ok (lit "{}")
write_if_same (yes same) h = refl
write_if_same (no other) h = absurd (other h)

abbrev serde : Serde
serde = record {
  to_vec_pretty = λ raw. write_if (RawSnapshot-discrete raw raw_sample);
  from_slice = λ _. ok raw_sample;
}

write_if_reads_back : SerdeLaw serde
write_if_reads_back raw bytes h =
    ap ok (sym (write_if-eq-ok (RawSnapshot-discrete raw raw_sample) bytes h))

from_json-sample : from_json clock codecs serde (lit "{}") ≡ ok sample
unfolding from_json refuse_if
from_json-sample = refine-sample

raw_of_sample : snapshot_to_raw codecs sample ≡ raw_sample
unfolding snapshot_to_raw session_to_raw window_to_raw pane_to_raw consistency_to_raw
    recovery_to_raw automatic_to_raw OsString.path_to_raw OsString.to_raw Command.to_raw is_utf8
raw_of_sample = refl

to_json_sample : to_json_pretty clock codecs serde sample ≡ ok (lit "{}")
unfolding to_json_pretty
to_json_sample = write_if_same _ raw_of_sample

from_json_after_save_example : from_json clock codecs serde (lit "{}") ≡ ok sample
from_json_after_save_example =
    from_json_after_save clock codecs serde laws write_if_reads_back sample (lit "{}")
      (inr (lit "{}", from_json-sample)) to_json_sample (omega arith)
