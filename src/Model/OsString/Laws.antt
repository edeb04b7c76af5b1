-- ===== src/Model/OsString/Laws.antt =====
-- What every accepted operating-system string satisfies, and reading one back.
use tmux_rescue.Common.{
  >>=-eq-ok, arith, contains, false, length, list_eq, num_eq, ok, true, ◌≡◌, ◌≤◌,
}
use tmux_rescue.Std.Path.{is_absolute}
use tmux_rescue.Std.Text.{Bytes, Text}
use tmux_rescue.Model.Codec.{CodecLaws, Codecs}
use tmux_rescue.Model.Error.{max_os_value_bytes}
use tmux_rescue.Model.OsString.{
  LosslessOsString, RawEncodedOsString, RecordedAbsolutePath, decode_value, from_bytes, from_raw,
  path_from_raw, path_to_raw, to_raw,
}

abbrev pub IsOsString : LosslessOsString → Type 0
IsOsString value = (length value.bytes ≤ max_os_value_bytes) × (contains value.bytes 0 ≡ false)

abbrev pub IsRecordedPath : RecordedAbsolutePath → Type 0
IsRecordedPath path = IsOsString path.path × (is_absolute path.path.bytes ≡ true)

pub from_bytes-IsOsString :
    (bytes : Bytes) (field : Text) (value : LosslessOsString)
    → from_bytes bytes field ≡ ok value
    → IsOsString value
unfolding from_bytes
from_bytes-IsOsString bytes field value h = ground arith

pub from_bytes-bytes :
    (value : LosslessOsString) (field : Text)
    → IsOsString value
    → from_bytes value.bytes field ≡ ok value
unfolding from_bytes
from_bytes-bytes value field h = ground arith

module _ (codecs : Codecs) where
  pub from_raw-IsOsString :
      (raw : RawEncodedOsString) (field : Text) (value : LosslessOsString)
      → from_raw codecs raw field ≡ ok value
      → IsOsString value
  unfolding from_raw
  from_raw-IsOsString raw field value h =
      let (decoded, _, checked) = >>=-eq-ok (decode_value codecs raw field) _ h in
      let (kept, accepted, same) = >>=-eq-ok (from_bytes decoded.0 field) _ checked in
      ground (arith, from_bytes-IsOsString decoded.0 field kept accepted)

  pub path_from_raw-IsRecordedPath :
      (raw : RawEncodedOsString) (field : Text) (path : RecordedAbsolutePath)
      → path_from_raw codecs raw field ≡ ok path
      → IsRecordedPath path
  unfolding path_from_raw
  path_from_raw-IsRecordedPath raw field path h =
      let (value, decoded, checked) = >>=-eq-ok (from_raw codecs raw field) _ h in
      ground (arith, from_raw-IsOsString raw field value decoded)

module _ (codecs : Codecs) (laws : CodecLaws codecs) where
  pub from_raw-to_raw :
      (value : LosslessOsString) (field : Text)
      → IsOsString value
      → from_raw codecs (to_raw codecs value) field ≡ ok value
  unfolding from_raw to_raw
  from_raw-to_raw value field h =
      ground (arith, laws.base64_round_trip value.bytes, from_bytes-bytes value field h)

  pub path_from_raw-path_to_raw :
      (path : RecordedAbsolutePath) (field : Text)
      → IsRecordedPath path
      → path_from_raw codecs (path_to_raw codecs path) field ≡ ok path
  unfolding path_from_raw path_to_raw
  path_from_raw-path_to_raw path field h = rw (from_raw-to_raw path.path field h.0, h.1)
