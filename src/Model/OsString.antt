-- ===== src/Model/OsString.antt =====
-- `LosslessOsString` and `RecordedAbsolutePath`: operating-system strings, stored as text where
-- their bytes are UTF-8 and in base64 where they are not.
pub mod Laws
use tmux_rescue.Common.{
  Bool, contains, err, false, if◌then◌else◌, length, list_eq, ltb, num_eq, ok, true, ◌&&◌, ◌++◌,
  ◌==◌, ◌>>=◌, ◌>>◌,
}
use tmux_rescue.Std.Path.{is_absolute}
use tmux_rescue.Std.Text.{Bytes, Text, lit}
use tmux_rescue.Std.Utf8.{is_utf8}
use tmux_rescue.Model.Codec.{Codecs}
use tmux_rescue.Model.Error.{
  Validation, invalid_os_encoding, max_os_value_bytes, os_value_contains_nul, os_value_too_long,
  path_not_absolute,
}

pub record LosslessOsString : Type 0 where
  pub bytes : Bytes

pub record RawEncodedOsString : Type 0 where
  pub encoding : Text
  pub value : Text

unfoldable pub from_bytes : Bytes → Text → Validation LosslessOsString
from_bytes bytes field =
    if ltb max_os_value_bytes (length bytes)
    then err (os_value_too_long field (length bytes) max_os_value_bytes)
    else if contains bytes 0
    then err (os_value_contains_nul field)
    else ok (record { bytes = bytes })

abbrev pub utf8 : Text
utf8 = lit "utf8"

abbrev pub base64 : Text
base64 = lit "base64"

module _ (codecs : Codecs) where
  -- The bytes that an encoded string stands for, and whether they came in base64.
  decode_value : RawEncodedOsString → Text → Validation (Bytes × Bool)
  decode_value raw field =
      if raw.encoding == utf8
      then ok (raw.value, false)
      else if raw.encoding == base64
      then (elim (codecs.base64_decode raw.value) [
        | ok decoded ↦ ok (decoded, true)
        | err error ↦ err (invalid_os_encoding field error)
      ])
      else err
          (invalid_os_encoding field (lit "unsupported encoding " ++ codecs.debug raw.encoding))

  unfoldable pub from_raw : RawEncodedOsString → Text → Validation LosslessOsString
  unfolding decode_value
  from_raw raw field = do
    decoded ← decode_value raw field
    value ← from_bytes decoded.0 field
    if decoded.1 && is_utf8 value.bytes
        then err (invalid_os_encoding field (lit "base64 is noncanonical for valid UTF-8 bytes"))
        else ok value

  unfoldable pub to_raw : LosslessOsString → RawEncodedOsString
  to_raw value =
      if is_utf8 value.bytes
      then record { encoding = utf8; value = value.bytes }
      else record { encoding = base64; value = codecs.base64_encode value.bytes }

pub record RecordedAbsolutePath : Type 0 where
  pub path : LosslessOsString

check_absolute : LosslessOsString → Text → Validation RecordedAbsolutePath
check_absolute value field =
    if is_absolute value.bytes then ok (record { path = value }) else err (path_not_absolute field)

-- `RecordedAbsolutePath::try_from_bytes`
unfoldable pub path_from_bytes : Bytes → Validation RecordedAbsolutePath
unfolding check_absolute
path_from_bytes bytes = do
  value ← from_bytes bytes (lit "recorded path")
  check_absolute value (lit "recorded path")

module _ (codecs : Codecs) where
  -- `RecordedAbsolutePath::from_raw`
  unfoldable pub path_from_raw : RawEncodedOsString → Text → Validation RecordedAbsolutePath
  unfolding check_absolute
  path_from_raw raw field = do value ← from_raw codecs raw field; check_absolute value field

  -- `RecordedAbsolutePath::to_raw`
  unfoldable pub path_to_raw : RecordedAbsolutePath → RawEncodedOsString
  path_to_raw path = to_raw codecs path.path
