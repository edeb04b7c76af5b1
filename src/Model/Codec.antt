-- ===== src/Model/Codec.antt =====
-- The codecs that model.rs takes from other crates and from `std::fmt`, with what it relies on.
use tmux_rescue.Common.{Option, Result, ok, some, ℕ, ◌<◌, ◌^◌, ◌≡◌}
use tmux_rescue.Std.Text.{Bytes, Text}

-- A `uuid::Uuid`, by its 128-bit value (`Uuid::as_u128`).
abbrev pub Uuid : Type 0
Uuid = ℕ

pub record Codecs : Type 0 where
  -- `BASE64.encode`, and `BASE64.decode` with the text of its error
  pub base64_encode : Bytes → Text
  pub base64_decode : Text → Result Text Bytes
  -- `Uuid::parse_str(…).ok()` and `Uuid::to_string`
  pub uuid_parse : Text → Option Uuid
  pub uuid_display : Uuid → Text
  -- `format!("{text:?}")`
  pub debug : Text → Text

-- The documented behaviour: what is encoded or displayed is read back, and a UUID has 128 bits.
pub record CodecLaws (codecs : Codecs) : Type 0 where
  pub base64_round_trip :
      (bytes : Bytes) → codecs.base64_decode (codecs.base64_encode bytes) ≡ ok bytes
  pub uuid_round_trip :
      (uuid : Uuid) → uuid < 2 ^ 128 → codecs.uuid_parse (codecs.uuid_display uuid) ≡ some uuid
  pub uuid_in_range :
      (text : Text) (uuid : Uuid) → codecs.uuid_parse text ≡ some uuid → uuid < 2 ^ 128
