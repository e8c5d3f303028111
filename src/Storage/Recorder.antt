-- ===== src/Storage/Recorder.antt =====
-- `PersistentSessionRecorder` of src/dragonsniff/storage.py: every record is on disk before the bounded
-- live view shows it. It is the recorder of Recording over a store.
pub mod Refused
use dragon_sniff.Prelude.{
  String, Bool, true, false, ◌||◌, Option, none, some, str_eq, if◌then◌else◌,
}
use dragon_sniff.Prelude.Result.{Result, ok, err}
use dragon_sniff.Json.{Fields, get, text_of}
use dragon_sniff.Runtime.{Runtime}
use dragon_sniff.Storage.Metadata.{Status, completed, cancelled, failed}
use dragon_sniff.Storage.Sessions.{
  Store, StoreError, os_error, unknown_session, not_persisted, MetadataWrite, EvidenceWrite, append,
  finish,
}
use dragon_sniff.Storage.Retention.{FileSystem, enforce_retention}

-- `TERMINAL_RECORDS.get(kind)`.
unfoldable pub terminal_status : String → Option Status
terminal_status kind =
    if str_eq kind "session_stopped"
      || (str_eq kind "capture_run_completed" || str_eq kind "churn_run_completed")
    then some completed
    else (if str_eq kind "capture_run_cancelled" || str_eq kind "churn_run_cancelled"
        then some cancelled
        else (if str_eq kind "capture_run_failed" || str_eq kind "churn_run_failed"
            then some failed
            else none))

-- What the file system does in one call: to the line, the checkpoint, and each of the two writes of a
-- status.
pub record Weather : Type 0 where
  pub line : EvidenceWrite
  pub checkpoint : MetadataWrite
  pub status : MetadataWrite
  pub failure : MetadataWrite
  pub files : FileSystem

-- `finish` with its last line.
abbrev pub retained :
    FileSystem → Store × Result StoreError (Unit {0}) → Store × Result StoreError (Unit {0})
retained fs (s, err e) = (s, err e)
retained fs (s, ok u) = (enforce_retention fs s, ok u)

unfoldable pub finish_and_retain :
    Runtime
    → MetadataWrite
    → FileSystem
    → String
    → String
    → Status
    → Option String
    → Store
    → Store × Result StoreError (Unit {0})
finish_and_retain py write fs now id status reason s =
    retained fs (finish py write now id status reason s)

-- `except OSError`: an unknown session raises FileNotFoundError, which is one.
abbrev pub is_os_error : StoreError → Bool
is_os_error os_error = true
is_os_error unknown_session = true
is_os_error _ = false

-- An OSError becomes the RuntimeError `not_persisted` once the session is marked as failed, where that is
-- possible. The other exceptions leave as they are.
abbrev pub marked_failed :
    Runtime
    → Weather
    → String
    → String
    → String
    → Store × Result StoreError (Unit {0})
    → Store × Result StoreError (Unit {0})
marked_failed py w now id reason (s, ok u) = (s, ok u)
marked_failed py w now id reason (s, err e) =
    if is_os_error e
    then (
      (finish_and_retain py w.failure w.files now id failed (some reason) s).0,
      err not_persisted,
    )
    else (s, err e)

abbrev pub then_terminal :
    Runtime
    → Weather
    → String
    → String
    → Option Status
    → Store × Result StoreError (Unit {0})
    → Store × Result StoreError (Unit {0})
then_terminal py w now id status (s, err e) = (s, err e)
then_terminal py w now id none (s, ok u) = (s, ok u)
then_terminal py w now id (some status) (s, ok u) =
    finish_and_retain py w.status w.files now id status none s

abbrev pub kind_name : Fields → String
kind_name r = elim (text_of (get r "kind")) [ none ↦ "" | some kind ↦ kind ]

-- `reason` is the text that names the OSError.
unfoldable pub before_record_visible :
    Runtime
    → Weather
    → String
    → String
    → String
    → Fields
    → Store
    → Store × Result StoreError (Unit {0})
before_record_visible py w now id reason r s = marked_failed py w now id reason (
    then_terminal py w now id (terminal_status (kind_name r))
      (append py w.line w.checkpoint now id r s))
