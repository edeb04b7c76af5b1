-- ===== src/Model/Snapshot/Json.antt =====
-- A snapshot as stored JSON: `from_json`, `from_capture_raw`, `to_json_pretty`.
use tmux_rescue.Model.OsString
use tmux_rescue.Common.{
  >>=-eq-ok, Bool-cases, Option, Result, [], ap, err, inl, inr, length, le→not_ltb, list_eq, ltb,
  num_eq, ok, ok-injective, sym, ℕ, ◌==◌, ◌>>=◌, ◌>>◌, ◌∙◌, ◌≡◌, ◌≤◌, ◌⊎◌,
}
use tmux_rescue.Std.Text.{Bytes, Text, lit}
use tmux_rescue.Model.Codec.{CodecLaws, Codecs}
use tmux_rescue.Model.Error.{
  Validation, invalid_json, max_snapshot_bytes, max_topology_validation_attempts, refuse_if,
  refuse_if-eq-ok, refuse_if-next, snapshot_too_large,
}
use tmux_rescue.Model.Snapshot.{
  CaptureConsistency, RawSnapshot, ValidatedSnapshot, parse_capture_time, raw_unstable, refine,
  refine_consistency, snapshot_to_raw, stable, validate_sessions,
}
use tmux_rescue.Model.Snapshot.Laws.{IsSnapshot, refine-IsSnapshot}
use tmux_rescue.Model.Snapshot.RoundTrip.{refine-snapshot_to_raw}

-- serde_json at `RawSnapshot`: `to_vec_pretty` and `from_slice`, with the text of their errors.
pub record Serde : Type 0 where
  pub to_vec_pretty : RawSnapshot → Result Text Bytes
  pub from_slice : Bytes → Result Text RawSnapshot

-- What is written is read back.
abbrev pub SerdeLaw : Serde → Type 0
SerdeLaw serde =
    (raw : RawSnapshot) (bytes : Bytes)
    → serde.to_vec_pretty raw ≡ ok bytes
    → serde.from_slice bytes ≡ ok raw

-- `map_err(|error| SnapshotValidationError::InvalidJson(error.to_string()))`
abbrev pub or_invalid_json : {A : Type 0} → Result Text A → Validation A
or_invalid_json (ok a) = ok a
or_invalid_json (err error) = err (invalid_json error)

unstable_count :
    (attempts : ℕ) (consistency : CaptureConsistency)
    → refine_consistency (raw_unstable attempts) ≡ ok consistency
    → ¬ (consistency ≡ stable)
unfolding refine_consistency
unstable_count attempts consistency counted is_stable =
    elim (Bool-cases (attempts == max_topology_validation_attempts)) [
      | inl three ↦ let made = rw (three, refine_consistency) at counted in cc
      | inr other ↦ let never = rw (other, refine_consistency) at counted in cc
    ]

module _ {Instant : Type 0} (parse_rfc3339 : Text → Option Instant) (codecs : Codecs)
    (serde : Serde) where
  unfoldable pub from_json : Bytes → Validation (ValidatedSnapshot Instant)
  from_json input = do
    refuse_if (ltb max_snapshot_bytes (length input))
        (snapshot_too_large (length input) max_snapshot_bytes)
    raw ← or_invalid_json (serde.from_slice input)
    refine parse_rfc3339 codecs raw

  unfoldable pub from_capture_raw : RawSnapshot → Validation (ValidatedSnapshot Instant)
  from_capture_raw raw = do
    persisted ← or_invalid_json (serde.to_vec_pretty raw)
    refuse_if (ltb max_snapshot_bytes (length persisted))
        (snapshot_too_large (length persisted) max_snapshot_bytes)
    refine parse_rfc3339 codecs raw

  unfoldable pub to_json_pretty : ValidatedSnapshot Instant → Result Text Bytes
  to_json_pretty snapshot = serde.to_vec_pretty (snapshot_to_raw codecs snapshot)

  from_json-IsSnapshot :
      CodecLaws codecs
      → (input : Bytes) (snapshot : ValidatedSnapshot Instant) → from_json input ≡ ok snapshot
      → IsSnapshot parse_rfc3339 snapshot
  unfolding from_json
  from_json-IsSnapshot laws input snapshot h =
      let (_, h₁) = refuse_if-eq-ok _ h in
      let (raw, _, refined) = >>=-eq-ok (or_invalid_json (serde.from_slice input)) _ h₁ in
      refine-IsSnapshot parse_rfc3339 codecs laws raw snapshot refined

  from_capture_raw-IsSnapshot :
      CodecLaws codecs
      → (raw : RawSnapshot) (snapshot : ValidatedSnapshot Instant)
      → from_capture_raw raw ≡ ok snapshot
      → IsSnapshot parse_rfc3339 snapshot
  unfolding from_capture_raw
  from_capture_raw-IsSnapshot laws raw snapshot h =
      let (bytes, _, h₁) = >>=-eq-ok (or_invalid_json (serde.to_vec_pretty raw)) _ h in
      let (_, refined) = refuse_if-eq-ok _ h₁ in
      refine-IsSnapshot parse_rfc3339 codecs laws raw snapshot refined

  -- A well-formed snapshot whose JSON is within the size limit is loaded back from that JSON.
  pub from_json-to_json_pretty :
      CodecLaws codecs
      → SerdeLaw serde
      → (snapshot : ValidatedSnapshot Instant) (bytes : Bytes) → IsSnapshot parse_rfc3339 snapshot
      → to_json_pretty snapshot ≡ ok bytes
      → length bytes ≤ max_snapshot_bytes
      → from_json bytes ≡ ok snapshot
  unfolding from_json to_json_pretty
  from_json-to_json_pretty laws read_back snapshot bytes h written few = rw (
    refuse_if-next _ (le→not_ltb (length bytes) max_snapshot_bytes few),
    read_back (snapshot_to_raw codecs snapshot) bytes written,
    refine-snapshot_to_raw parse_rfc3339 codecs laws snapshot h,
  )

  -- A captured snapshot, and one loaded from JSON, whose JSON is within the size limit is loaded
  -- back from it: what capture stores is what restore reads, and storing again changes nothing.
  pub from_json_after_save :
      CodecLaws codecs
      → SerdeLaw serde
      → (snapshot : ValidatedSnapshot Instant) (bytes : Bytes)
      → ((raw : RawSnapshot) × (from_capture_raw raw ≡ ok snapshot))
        ⊎ ((input : Bytes) × (from_json input ≡ ok snapshot))
      → to_json_pretty snapshot ≡ ok bytes
      → length bytes ≤ max_snapshot_bytes
      → from_json bytes ≡ ok snapshot
  from_json_after_save laws read_back snapshot bytes (inl (raw, captured)) =
      from_json-to_json_pretty laws read_back snapshot bytes
        (from_capture_raw-IsSnapshot laws raw snapshot captured)
  from_json_after_save laws read_back snapshot bytes (inr (input, loaded)) =
      from_json-to_json_pretty laws read_back snapshot bytes
        (from_json-IsSnapshot laws input snapshot loaded)

  -- The snapshot of an unstable capture is not stable.
  pub from_capture_raw-unstable :
      (raw : RawSnapshot) (snapshot : ValidatedSnapshot Instant) (attempts : ℕ)
      → from_capture_raw raw ≡ ok snapshot
      → raw.consistency ≡ raw_unstable attempts
      → ¬ (snapshot.consistency ≡ stable)
  unfolding from_capture_raw refine refine_consistency
  from_capture_raw-unstable raw snapshot attempts h is_unstable is_stable =
      let (bytes, _, h₁) = >>=-eq-ok (or_invalid_json (serde.to_vec_pretty raw)) _ h in
      let (_, h₂) = refuse_if-eq-ok _ h₁ in
      let (captured_at, _, h₃) =
        >>=-eq-ok (parse_capture_time parse_rfc3339 raw.captured_at) _ h₂ in
      let (path, _, h₄) =
        >>=-eq-ok (OsString.path_from_raw codecs raw.source (lit "source")) _ h₃ in
      let (consistency, refined, h₅) = >>=-eq-ok (refine_consistency raw.consistency) _ h₄ in
      let (_, h₆) = refuse_if-eq-ok _ h₅ in
      let (_, h₇) = refuse_if-eq-ok _ h₆ in
      let (sessions, _, made) = >>=-eq-ok (validate_sessions codecs [] 0 raw.sessions) _ h₇ in
      let same = ap ValidatedSnapshot.consistency (ok-injective made) in
      let counted = ap refine_consistency (sym is_unstable) ∙ refined in
      unstable_count attempts consistency counted (same ∙ is_stable)
