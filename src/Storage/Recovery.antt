-- ===== src/Storage/Recovery.antt =====
-- Loading the sessions at startup: `_load_and_recover_locked` of src/dragonsniff/storage.py.
pub mod Crash
use dragon_sniff.Prelude.{
  ℕ, ◌+◌, String, Bool, true, false, not, ◌&&◌, ◌||◌, List, [], ◌∷◌, Option, none, some, ◌==◌,
  if◌then◌else◌, length,
}
use dragon_sniff.Prelude.Dict.{Dict, lookup, assign}
use dragon_sniff.Prelude.Result.{Result, ok, err}
use dragon_sniff.Runtime.{Runtime, Bytes}
use dragon_sniff.Storage.Metadata.{
  Metadata, interrupted, LoadError, is_valid_session_id, read_metadata,
}
use dragon_sniff.Storage.Evidence.{
  Repair, unchanged, cut, repair_partial_tail, evidence_after, scan_evidence,
}
use dragon_sniff.Storage.Sessions.{
  Directory, Store, MetadataWrite, StoreError, directory_of, put_directory, write_metadata,
  is_active,
}

abbrev pub size_of : Option Bytes → ℕ
size_of none = 0
size_of (some file) = length file

-- `_evidence_bytes_match_metadata`; `is_nt` is `os.name == "nt"`.
abbrev pub evidence_bytes_match : Bool → Metadata → ℕ → Bool
evidence_bytes_match is_nt m size = size == m.bytes || (is_nt && size == m.bytes + m.records)

abbrev pub was_cut : Repair → Bool
was_cut unchanged = false
was_cut (cut kept torn n) = true

abbrev pub partial_after : Repair → Option Bytes → Option Bytes
partial_after unchanged file = file
partial_after (cut kept torn n) file = some torn

abbrev pub with_partial : Repair → Metadata → Metadata
with_partial unchanged m = m
with_partial (cut kept torn n) m = record m { recovered_partial_bytes = some n }

-- The counters, from a scan where they may be out of date.
unfoldable pub recount : Bool → Bool → Option Bytes → Metadata → Metadata
recount is_nt evidence_changed file m =
    if is_active m || (evidence_changed || not (evidence_bytes_match is_nt m (size_of file)))
    then record m { records = (scan_evidence file).0; bytes = (scan_evidence file).1 }
    else m

abbrev pub recovery_note : String
recovery_note = "active session found during service startup"

unfoldable pub interrupt : String → Metadata → Metadata
interrupt now m =
    if is_active m
    then record m {
      status = interrupted;
      updated_at = now;
      finished_at = some now;
      recovery = some recovery_note;
    }
    else m

abbrev pub counts_differ : Metadata → Metadata → Bool
counts_differ m m' = not (m.records == m'.records) || not (m.bytes == m'.bytes)

-- A session whose metadata was read: the metadata afterwards, and whether they are written.
unfoldable pub recovered : Bool → String → Option Bytes → Metadata → Metadata × Bool
recovered is_nt now evidence m =
    let repair = repair_partial_tail evidence in
    let m' =
      recount is_nt (was_cut repair) (evidence_after repair evidence) (with_partial repair m) in
    (interrupt now m', counts_differ m m' || (is_active m || was_cut repair))

unfoldable pub repaired_directory : Directory → Directory
repaired_directory d =
    let repair = repair_partial_tail d.evidence in
    record d {
      evidence = evidence_after repair d.evidence;
      partial = partial_after repair d.partial;
    }

abbrev pub write_if :
    Runtime
    → MetadataWrite
    → String
    → Metadata × Bool
    → Store
    → Store × Result StoreError (Unit {0})
write_if py write id (m, true) s = write_metadata py write id m s
write_if py write id (m, false) s = (s, ok tt)

abbrev pub loaded : Bool → String → String → Directory → Metadata → Store → Store
loaded is_nt now id d m s = record (put_directory id (repaired_directory d) s) {
  metadata = assign id (recovered is_nt now d.evidence m).0 s.metadata;
  evidence_file_bytes = assign id (size_of (repaired_directory d).evidence) s.evidence_file_bytes;
  metadata_file_bytes = assign id (size_of d.metadata_file) s.metadata_file_bytes;
  pending_checkpoints = assign id 0 s.pending_checkpoints;
}

unfoldable pub load_session :
    Runtime
    → Bool
    → MetadataWrite
    → String
    → String
    → Directory
    → Store
    → Store × Result StoreError (Unit {0})
load_session py is_nt write now id d s = elim (read_metadata py id d.metadata_file) [
  | err reason ↦ (record s { invalid_sessions = assign id reason s.invalid_sessions }, ok tt)
  | ok m ↦ write_if py write id (recovered is_nt now d.evidence m) (loaded is_nt now id d m s)
]

-- The loop over the directories. An entry whose name is no id is passed over; an OSError of a write
-- ends it.
unfoldable pub load_and_recover :
    Runtime
    → Bool
    → MetadataWrite
    → String
    → Dict Directory
    → Store
    → Store × Result StoreError (Unit {0})
load_and_recover py is_nt write now [] s = (s, ok tt)
load_and_recover py is_nt write now ((id, d) ∷ rest) s = elim (is_valid_session_id id) [
  | false ↦ load_and_recover py is_nt write now rest s
  | true ↦
      let (s', done) = load_session py is_nt write now id d s in
      elim done [ err e ↦ (s', err e) | ok u ↦ load_and_recover py is_nt write now rest s' ]
]

-- A store over the directories that a process left, before `__init__` loads them.
abbrev pub reopened : ℕ → ℕ → Dict Directory → Store
reopened retention_bytes retention_sessions directories = record {
  retention_bytes = retention_bytes;
  retention_sessions = retention_sessions;
  directories = directories;
  metadata = [];
  evidence_file_bytes = [];
  metadata_file_bytes = [];
  invalid_sessions = [];
  pending_checkpoints = [];
  download_leases = [];
}
