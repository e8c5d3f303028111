-- ===== src/Storage/Tests.antt =====
-- A capture session that is appended to, torn, started again, and a store with three sessions.
use dragon_sniff.Prelude.{
  ℕ, String, true, false, [], ◌∷◌, Option, none, some, ◌==◌, if◌then◌else◌, ◌≡◌, refl, arith, inl,
  inr, Bool-cases,
}
use dragon_sniff.Prelude.Dict.{lookup, assign, erase}
use dragon_sniff.Prelude.Int.{◌*ℤ◌}
use dragon_sniff.Prelude.Result.{err, ok}
use dragon_sniff.Json.{Value, Fields, str, obj, field, end, get, find, num_eq}
use dragon_sniff.Annotations.{is_run_id}
use dragon_sniff.Runtime.{Runtime, Bytes}
use dragon_sniff.Runtime.Plain.{plain}
use dragon_sniff.Storage.Evidence.{
  write_rounds, write_all, rfind, search_back, last_complete_record_end, ends_complete,
  repair_partial_tail, count_newlines, scan_evidence,
}
use dragon_sniff.Storage.Evidence.Writing.{write_all-eq}
use dragon_sniff.Storage.Evidence.Tail.{complete_end, last_complete_record_end-eq}
use dragon_sniff.Storage.Evidence.Repaired.{Reports, repair_partial_tail-Reports}
use dragon_sniff.Storage.Metadata.{
  Metadata, capture, completed, interrupted, metadata_fields, encoded_metadata, read_metadata,
  check_metadata, check_partial, kind_of, status_of,
}
use dragon_sniff.Storage.Metadata.Roundtrip.{read_metadata-encoded_metadata}
use dragon_sniff.Storage.Sessions.{
  Store, torn, replaced, new_metadata, encoded_record, append, append_line, account, checkpoint,
  metadata_for, write_metadata, no_directory, directory_of,
}
use dragon_sniff.Storage.Sessions.Appending.{Backed}
use dragon_sniff.Storage.Recovery.{load_session, reopened}
use dragon_sniff.Storage.Recovery.Crash.{lines, append_all, Resumes, load_session-append_all}
use dragon_sniff.Storage.Retention.{
  FileSystem, remove_until, enforce_retention, discover_invalid, storage_objects, candidates,
  valid_object, present_invalid, sort_objects, insert_object, cached_size, forget,
}
use dragon_sniff.Storage.Retention.Retained.{Retains, enforce_retention-Retains}
use dragon_sniff.Storage.Retention.Spared.{enforce_retention-spares}
use dragon_sniff.Storage.Annotations.{matching, stream_lines, is_annotation, find_annotation}
use dragon_sniff.Storage.Annotations.Found.{find_annotation-lines}
use dragon_sniff.Storage.Recorder.{Weather, before_record_visible}
use dragon_sniff.Storage.Recorder.Refused.{Leaves, before_record_visible-Leaves}
use dragon_sniff.Storage.Sessions.{not_persisted}

program : Unit {0}
unfolding lookup assign erase get find num_eq is_run_id write_rounds write_all rfind search_back
    last_complete_record_end ends_complete repair_partial_tail count_newlines scan_evidence
    metadata_fields encoded_metadata read_metadata check_metadata check_partial kind_of status_of
    encoded_record append append_line account checkpoint metadata_for write_metadata load_session
    lines append_all remove_until enforce_retention discover_invalid storage_objects candidates
    valid_object present_invalid matching stream_lines find_annotation ◌*ℤ◌ sort_objects
    insert_object cached_size forget
program = tt

-- A file system that takes one byte at a time.
abbrev one_byte : Bytes → Option ℕ
one_byte value = some 1

write_all-eq_example :
    write_all one_byte (7 ∷ 8 ∷ 9 ∷ []) ≡ record { content = 7 ∷ 8 ∷ 9 ∷ []; returned = true }
write_all-eq_example = write_all-eq one_byte (7 ∷ 8 ∷ 9 ∷ []) (λ c cs. (0, refl))

last_complete_record_end-eq_example :
    last_complete_record_end (65 ∷ 10 ∷ 66 ∷ []) ≡ complete_end (65 ∷ 10 ∷ 66 ∷ [])
last_complete_record_end-eq_example = last_complete_record_end-eq (65 ∷ 10 ∷ 66 ∷ [])

repair_partial_tail-Reports_example :
    Reports (65 ∷ 10 ∷ 66 ∷ []) (repair_partial_tail (some (65 ∷ 10 ∷ 66 ∷ [])))
repair_partial_tail-Reports_example = repair_partial_tail-Reports (65 ∷ 10 ∷ 66 ∷ [])

abbrev id : String
id = "0123456789abcdef0123456789abcdef"

abbrev older : String
older = "00000000000000000000000000000001"

abbrev meta : Metadata
meta = new_metadata id capture "http://heater.local" "2026-01-01T00:00:00"

abbrev note : Fields
note = field "kind" (str "operator_annotation") (field "annotation_id" (str "n1") end)

abbrev sample : Fields
sample = field "kind" (str "state_sample") end

-- A runtime in which a note is printed as N and any other record as S, and read back.
abbrev printed : Value → Bytes
printed (obj r) = if is_annotation "n1" r then 78 ∷ [] else 83 ∷ []
printed _ = 83 ∷ []

abbrev parsed : Bytes → Option Value
parsed [] = none
parsed (c ∷ rest) =
    if c == 78
    then some (obj note)
    else (if c == 83 then some (obj sample) else some (obj (metadata_fields meta)))

abbrev py : Runtime
py = record plain { json_loads = parsed; json_dumps = printed }

printed_one_line : (r : Fields) → count_newlines (py.json_dumps (obj r)) ≡ 0
unfolding program
printed_one_line r = elim (Bool-cases (is_annotation "n1" r)) [
  | inl is ↦ rw is refl
  | inr other ↦ rw other refl
]

read_metadata-encoded_metadata_example :
    read_metadata py id (some (encoded_metadata py meta)) ≡ ok meta
unfolding program
read_metadata-encoded_metadata_example = read_metadata-encoded_metadata py meta refl refl

-- The session with the given bytes in its file.
abbrev with_file : Bytes → Metadata → Store
with_file file m = record (reopened 1000 5 []) {
  directories =
      (
        id,
        record no_directory {
          evidence = some file;
          metadata_file = some (encoded_metadata py meta);
        },
      )
      ∷ [];
  metadata = (id, m) ∷ [];
}

abbrev one_record : Metadata
one_record = record meta { records = 1; bytes = 2 }

abbrev before : Store
before = with_file (83 ∷ 10 ∷ []) one_record

before-Backed : Backed before id one_record (83 ∷ 10 ∷ [])
unfolding program
before-Backed = record {
  valid = refl;
  held = refl;
  live = refl;
  on_disk = refl;
  complete = refl;
  records = refl;
  bytes = refl;
}

abbrev torn_after : Store
torn_after =
    (append py (torn 1) replaced "2026-01-01T00:00:02" id note
      (append_all py "2026-01-01T00:00:01" id (note ∷ sample ∷ []) before).0).0

load_session-append_all_example :
    ((append_all py "2026-01-01T00:00:01" id (note ∷ sample ∷ []) before).1 ≡ ok tt)
    × Resumes
        (load_session py false replaced "2026-01-02T00:00:00" id
          (directory_of torn_after id)
          (reopened 1000 5 torn_after.directories)).0
        id
        3
        (83 ∷ 10 ∷ 78 ∷ 10 ∷ 83 ∷ 10 ∷ [])
unfolding program
load_session-append_all_example =
    load_session-append_all py false "2026-01-01T00:00:01" "2026-01-02T00:00:00" id
      (note ∷ sample ∷ []) note 1 before torn_after one_record meta (83 ∷ 10 ∷ []) printed_one_line
      before-Backed (omega arith) refl refl refl

-- The same session after a start.
abbrev recovered_meta : Metadata
recovered_meta = record meta { records = 2; bytes = 4; status = interrupted }

find_annotation-lines_example :
    find_annotation py id "n1" (with_file (83 ∷ 10 ∷ 78 ∷ 10 ∷ []) recovered_meta) ≡ some note
unfolding program
find_annotation-lines_example =
    find_annotation-lines py id "n1" (with_file (83 ∷ 10 ∷ 78 ∷ 10 ∷ []) recovered_meta)
      recovered_meta (sample ∷ note ∷ []) printed_one_line (refl, (refl, tt)) refl refl refl refl

abbrev files : FileSystem
files = record { order_of = λ name. ""; rmtree = λ name. true; other_bytes = λ name. 0 }

-- The disk is full within the line, and the status can be written.
abbrev full_disk : Weather
full_disk = record {
  line = torn 1;
  checkpoint = replaced;
  status = replaced;
  failure = replaced;
  files = files;
}

before_record_visible-Leaves_example :
    let t = before_record_visible py full_disk "2026-01-01T00:00:03" id "disk full" note before in
    (t.1 ≡ err not_persisted) × Leaves py replaced one_record t.0 id
before_record_visible-Leaves_example =
    before_record_visible-Leaves py full_disk "2026-01-01T00:00:03" id "disk full" note 1 before
      one_record (83 ∷ 10 ∷ []) before-Backed refl

-- Three sessions for a limit of one: an active one, one that is downloaded, and an old one.
abbrev completed_meta : String → Metadata
completed_meta name =
    record (new_metadata name capture "http://heater.local" "2025-01-01T00:00:00") {
      status = completed;
    }

abbrev downloaded : String
downloaded = "00000000000000000000000000000002"

abbrev full : Store
full = record (reopened 1000 1 []) {
  directories = (older, no_directory) ∷ (downloaded, no_directory) ∷ (id, no_directory) ∷ [];
  metadata =
      (older, completed_meta older) ∷ (downloaded, completed_meta downloaded) ∷ (id, meta) ∷ [];
  download_leases = (downloaded, 1) ∷ [];
}

enforce_retention-Retains_example :
    Retains files
      (discover_invalid full)
      (storage_objects files (discover_invalid full))
      (enforce_retention files full)
enforce_retention-Retains_example = enforce_retention-Retains files full

enforce_retention-spares_example :
    (lookup downloaded (enforce_retention files full).metadata ≡ some (completed_meta downloaded))
    × (lookup downloaded (enforce_retention files full).directories ≡ some no_directory)
unfolding program
enforce_retention-spares_example =
    enforce_retention-spares files full downloaded (completed_meta downloaded)
      ((refl, refl), ((refl, refl), ((refl, refl), tt))) refl (inr refl)

oldest_removed : lookup older (enforce_retention files full).metadata ≡ none
unfolding program
oldest_removed = refl
