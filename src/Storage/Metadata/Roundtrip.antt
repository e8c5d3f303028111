-- ===== src/Storage/Metadata/Roundtrip.antt =====
-- Metadata that was written is read back.
use dragon_sniff.Prelude.{ℕ, String, true, Option, none, some, ◌≡◌, refl}
use text.Mathlib.TextPositions.{eq_refl}
use dragon_sniff.Prelude.Int.{◌*ℤ◌}
use dragon_sniff.Prelude.Result.{ok}
use dragon_sniff.Json.{obj, find, get, num_eq}
use dragon_sniff.Runtime.{Runtime}
use dragon_sniff.Storage.Metadata.{
  Kind, Status, observation, capture, churn, active, completed, cancelled, failed, interrupted,
  Metadata, kind_text, status_text, kind_of, status_of, is_valid_session_id, check_partial,
  check_metadata, read_metadata, metadata_fields, encoded_metadata,
}

kind_of-kind_text : (k : Kind) → kind_of (kind_text k) ≡ some k
unfolding kind_of
kind_of-kind_text observation = refl
kind_of-kind_text capture = refl
kind_of-kind_text churn = refl

status_of-status_text : (s : Status) → status_of (status_text s) ≡ some s
unfolding status_of
status_of-status_text active = refl
status_of-status_text completed = refl
status_of-status_text cancelled = refl
status_of-status_text failed = refl
status_of-status_text interrupted = refl

check_metadata-metadata_fields :
    (id : String) (k : Kind) (target : String) (s : Status) (created updated : String)
    (finished : Option String) (records bytes : ℕ) (failure recovery : Option String)
    (partial : Option ℕ)
    → is_valid_session_id id ≡ true
    → let m : Metadata = record {
      session_id = id;
      kind = k;
      target = target;
      status = s;
      created_at = created;
      updated_at = updated;
      finished_at = finished;
      records = records;
      bytes = bytes;
      failure = failure;
      recovery = recovery;
      recovered_partial_bytes = partial;
    } in
      check_metadata id (metadata_fields m) ≡ ok m
unfolding check_metadata metadata_fields get find check_partial num_eq ◌*ℤ◌
check_metadata-metadata_fields id k target s created updated none records bytes none none none
      valid =
    rw (eq_refl id, valid, kind_of-kind_text k, status_of-status_text s) refl
check_metadata-metadata_fields id k target s created updated none records bytes none none
      (some partial) valid =
    rw (eq_refl id, valid, kind_of-kind_text k, status_of-status_text s) refl
check_metadata-metadata_fields id k target s created updated none records bytes none (some recovery)
      none valid =
    rw (eq_refl id, valid, kind_of-kind_text k, status_of-status_text s) refl
check_metadata-metadata_fields id k target s created updated none records bytes none (some recovery)
      (some partial) valid =
    rw (eq_refl id, valid, kind_of-kind_text k, status_of-status_text s) refl
check_metadata-metadata_fields id k target s created updated none records bytes (some failure) none
      none valid =
    rw (eq_refl id, valid, kind_of-kind_text k, status_of-status_text s) refl
check_metadata-metadata_fields id k target s created updated none records bytes (some failure) none
      (some partial) valid =
    rw (eq_refl id, valid, kind_of-kind_text k, status_of-status_text s) refl
check_metadata-metadata_fields id k target s created updated none records bytes (some failure)
      (some recovery) none valid =
    rw (eq_refl id, valid, kind_of-kind_text k, status_of-status_text s) refl
check_metadata-metadata_fields id k target s created updated none records bytes (some failure)
      (some recovery) (some partial) valid =
    rw (eq_refl id, valid, kind_of-kind_text k, status_of-status_text s) refl
check_metadata-metadata_fields id k target s created updated (some finished) records bytes none none
      none valid =
    rw (eq_refl id, valid, kind_of-kind_text k, status_of-status_text s) refl
check_metadata-metadata_fields id k target s created updated (some finished) records bytes none none
      (some partial) valid =
    rw (eq_refl id, valid, kind_of-kind_text k, status_of-status_text s) refl
check_metadata-metadata_fields id k target s created updated (some finished) records bytes none
      (some recovery) none valid =
    rw (eq_refl id, valid, kind_of-kind_text k, status_of-status_text s) refl
check_metadata-metadata_fields id k target s created updated (some finished) records bytes none
      (some recovery) (some partial) valid =
    rw (eq_refl id, valid, kind_of-kind_text k, status_of-status_text s) refl
check_metadata-metadata_fields id k target s created updated (some finished) records bytes
      (some failure) none none valid =
    rw (eq_refl id, valid, kind_of-kind_text k, status_of-status_text s) refl
check_metadata-metadata_fields id k target s created updated (some finished) records bytes
      (some failure) none (some partial) valid =
    rw (eq_refl id, valid, kind_of-kind_text k, status_of-status_text s) refl
check_metadata-metadata_fields id k target s created updated (some finished) records bytes
      (some failure) (some recovery) none valid =
    rw (eq_refl id, valid, kind_of-kind_text k, status_of-status_text s) refl
check_metadata-metadata_fields id k target s created updated (some finished) records bytes
      (some failure) (some recovery) (some partial) valid =
    rw (eq_refl id, valid, kind_of-kind_text k, status_of-status_text s) refl

-- Metadata that was written for a session of a well-formed id is read back as it was, if `json.loads`
-- returns the value that was printed.
pub read_metadata-encoded_metadata :
    (py : Runtime) (m : Metadata)
    → py.json_loads (encoded_metadata py m) ≡ some (obj (metadata_fields m))
    → is_valid_session_id m.session_id ≡ true
    → read_metadata py m.session_id (some (encoded_metadata py m)) ≡ ok m
unfolding read_metadata
read_metadata-encoded_metadata py m printed valid = rw printed (
    check_metadata-metadata_fields m.session_id m.kind m.target m.status m.created_at m.updated_at
      m.finished_at m.records m.bytes m.failure m.recovery m.recovered_partial_bytes valid)
