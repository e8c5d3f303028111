-- ===== src/Storage/Sessions.antt =====
-- `SessionStore` of src/dragonsniff/storage.py: its dicts, the session directories behind them, and
-- the calls that change them. The lock makes each call a step. The clock, new ids and the failures of
-- the file system come as arguments; a file that is a link counts as missing.
pub mod Appending
use dragon_sniff.Prelude.{
  ℕ, suc, ◌+◌, ◌-◌, String, Bool, true, false, not, ◌&&◌, ◌||◌, List, [], ◌∷◌, ◌++◌, Option, none,
  some, leb, ltb, if◌then◌else◌, length, take,
}
use dragon_sniff.Prelude.Dict.{Dict, lookup, assign, erase}
use dragon_sniff.Prelude.Result.{Result, ok, err}
use dragon_sniff.Json.{Value, Fields, obj}
use dragon_sniff.Runtime.{Runtime, Bytes}
use dragon_sniff.Storage.Metadata.{
  Metadata, Kind, Status, active, completed, cancelled, failed, LoadError, kind_of,
  is_valid_session_id, encoded_metadata,
}
use dragon_sniff.Storage.Evidence.{newline}

-- The files of a session's directory, `none` for a missing one.
pub record Directory : Type 0 where
  pub evidence : Option Bytes
  pub partial : Option Bytes
  pub metadata_file : Option Bytes

pub record Store : Type 0 where
  pub retention_bytes : ℕ
  pub retention_sessions : ℕ
  pub directories : Dict Directory
  pub metadata : Dict Metadata
  pub evidence_file_bytes : Dict ℕ
  pub metadata_file_bytes : Dict ℕ
  pub invalid_sessions : Dict LoadError
  pub pending_checkpoints : Dict ℕ
  pub download_leases : Dict ℕ

pub data StoreError : Type 0 where
  bad_session_id unknown_session finished_session os_error unsupported_kind bad_terminal_status
        bad_limits not_persisted :
      StoreError

-- How a write of metadata.json goes: it is written, or an OSError comes before or after
-- `os.replace` has put the new file in its place.
pub data MetadataWrite : Type 0 where
  replaced fails_before fails_after : MetadataWrite

abbrev pub no_directory : Directory
no_directory = record { evidence = none; partial = none; metadata_file = none }

abbrev pub or_no_directory : Option Directory → Directory
or_no_directory none = no_directory
or_no_directory (some d) = d

abbrev pub directory_of : Store → String → Directory
directory_of s id = or_no_directory (lookup id s.directories)

abbrev pub put_directory : String → Directory → Store → Store
put_directory id d s = record s { directories = assign id d s.directories }

abbrev pub count_in : String → Dict ℕ → ℕ
count_in id d = elim (lookup id d) [ none ↦ 0 | some n ↦ n ]

abbrev pub put_metadata_file : Runtime → String → Metadata → Store → Store
put_metadata_file py id m s =
    put_directory id (record (directory_of s id) { metadata_file = some (encoded_metadata py m) }) s

unfoldable pub write_metadata :
    Runtime → MetadataWrite → String → Metadata → Store → Store × Result StoreError (Unit {0})
write_metadata py fails_before id m s = (s, err os_error)
write_metadata py fails_after id m s = (put_metadata_file py id m s, err os_error)
write_metadata py replaced id m s = (
  record (put_metadata_file py id m s) {
    metadata_file_bytes = assign id (length (encoded_metadata py m)) s.metadata_file_bytes;
  },
  ok tt,
)

-- How `create_recorder` goes: the directory cannot be made, or the evidence file, or one of them cannot
-- be flushed, or both are there.
pub data Creation : Type 0 where
  no_new_directory no_evidence_file not_flushed made : Creation

abbrev pub new_metadata : String → Kind → String → String → Metadata
new_metadata id kind target now = record {
  session_id = id;
  kind = kind;
  target = target;
  status = active;
  created_at = now;
  updated_at = now;
  finished_at = none;
  records = 0;
  bytes = 0;
  failure = none;
  recovery = none;
  recovered_partial_bytes = none;
}

-- What is undone when the first metadata cannot be written; `removed` is whether `rmtree` succeeds.
abbrev pub undo_creation : Bool → String → Store → Store
undo_creation removed id s = record s {
  directories = if removed then erase id s.directories else s.directories;
  metadata = erase id s.metadata;
  evidence_file_bytes = erase id s.evidence_file_bytes;
  metadata_file_bytes = erase id s.metadata_file_bytes;
  pending_checkpoints = erase id s.pending_checkpoints;
}

abbrev pub with_directory : String → Directory → Store → Store
with_directory id d s = put_directory id d s

abbrev pub registered : String → Metadata → Store → Store
registered id m s = record (put_directory id (record no_directory { evidence = some [] }) s) {
  metadata = assign id m s.metadata;
  evidence_file_bytes = assign id 0 s.evidence_file_bytes;
  pending_checkpoints = assign id 0 s.pending_checkpoints;
}

abbrev pub keep_or_undo :
    Bool → String → Store × Result StoreError (Unit {0}) → Store × Result StoreError String
keep_or_undo removed id (s, ok u) = (s, ok id)
keep_or_undo removed id (s, err e) = (undo_creation removed id s, err e)

unfoldable pub create_session :
    Runtime
    → Creation
    → MetadataWrite
    → Bool
    → String
    → String
    → String
    → String
    → Store
    → Store × Result StoreError String
create_session py creation write removed kind_name target id now s = elim (kind_of kind_name) [
  | none ↦ (s, err unsupported_kind)
  | some kind ↦ elim creation [
    | no_new_directory ↦ (s, err os_error)
    | no_evidence_file ↦ (with_directory id no_directory s, err os_error)
    | not_flushed ↦ (with_directory id (record no_directory { evidence = some [] }) s, err os_error)
    | made ↦
        let m = new_metadata id kind target now in
        keep_or_undo removed id (write_metadata py write id m (registered id m s))
  ]
]

-- `_metadata_for_locked`.
unfoldable pub metadata_for : String → Store → Result StoreError Metadata
metadata_for id s =
    if is_valid_session_id id
    then elim (lookup id s.metadata) [ none ↦ err unknown_session | some m ↦ ok m ]
    else err bad_session_id

abbrev pub is_active : Metadata → Bool
is_active m = elim m.status [ active ↦ true | _ ↦ false ]

abbrev pub metadata_checkpoint_records : ℕ
metadata_checkpoint_records = 64

-- A line of evidence.
unfoldable pub encoded_record : Runtime → Fields → Bytes
encoded_record py r = py.json_dumps (obj r) ++ newline ∷ []

-- A call that fails leaves the first bytes of the line in the file, all of them where it is the flush.
pub data EvidenceWrite : Type 0 where
  whole : EvidenceWrite
  torn : ℕ → EvidenceWrite

abbrev pub counted : String → ℕ → Metadata → Metadata
counted now size m = record m { records = m.records + 1; bytes = m.bytes + size; updated_at = now }

-- The checkpoint behind an append; `pending` is set only where the metadata is written.
abbrev pub after_checkpoint :
    String → Store × Result StoreError (Unit {0}) → Store × Result StoreError (Unit {0})
after_checkpoint id (s, err e) = (s, err e)
after_checkpoint id (s, ok u) =
    (record s { pending_checkpoints = assign id 0 s.pending_checkpoints }, ok u)

unfoldable pub checkpoint :
    Runtime → MetadataWrite → String → Metadata → Store → Store × Result StoreError (Unit {0})
checkpoint py write id m s =
    let pending = count_in id s.pending_checkpoints + 1 in
    if leb metadata_checkpoint_records pending
    then after_checkpoint id (write_metadata py write id m s)
    else (record s { pending_checkpoints = assign id pending s.pending_checkpoints }, ok tt)

abbrev pub with_evidence : String → Bytes → Store → Store
with_evidence id file s = put_directory id (record (directory_of s id) { evidence = some file }) s

-- What is left to do once the whole line is in the file.
unfoldable pub account :
    Runtime
    → MetadataWrite
    → String
    → String
    → Metadata
    → ℕ
    → Bytes
    → Store
    → Store × Result StoreError (Unit {0})
account py write now id m size file s =
    let m' = counted now size m in
    checkpoint py write id m' (record (with_evidence id file s) {
      evidence_file_bytes = assign id (length file) s.evidence_file_bytes;
      metadata = assign id m' s.metadata;
    })

unfoldable pub append_line :
    Runtime
    → EvidenceWrite
    → MetadataWrite
    → String
    → String
    → Metadata
    → Bytes
    → Store
    → Store × Result StoreError (Unit {0})
append_line py write checkpoint_write now id m encoded s = elim (directory_of s id).evidence [
  | none ↦ (s, err os_error)
  | some file ↦ elim write [
    | torn n ↦ (with_evidence id (file ++ take n encoded) s, err os_error)
    | whole ↦ account py checkpoint_write now id m (length encoded) (file ++ encoded) s
  ]
]

unfoldable pub append :
    Runtime
    → EvidenceWrite
    → MetadataWrite
    → String
    → String
    → Fields
    → Store
    → Store × Result StoreError (Unit {0})
append py write checkpoint_write now id r s = elim (metadata_for id s) [
  | err e ↦ (s, err e)
  | ok m ↦
      if is_active m
      then append_line py write checkpoint_write now id m (encoded_record py r) s
      else (s, err finished_session)
]

abbrev pub is_terminal : Status → Bool
is_terminal completed = true
is_terminal cancelled = true
is_terminal failed = true
is_terminal _ = false

abbrev pub ended : Status → String → Metadata → Metadata
ended status now m =
    if is_active m
    then record m { status = status; updated_at = now; finished_at = some now }
    else m

-- The first failure is kept.
abbrev pub with_failure : Option String → Metadata → Metadata
with_failure none m = m
with_failure (some reason) m = elim m.failure [
  | none ↦ record m { failure = some reason }
  | some earlier ↦ m
]

abbrev pub adds_failure : Option String → Metadata → Bool
adds_failure none m = false
adds_failure (some reason) m = elim m.failure [ none ↦ true | some earlier ↦ false ]

abbrev pub install :
    String → Metadata → Store × Result StoreError (Unit {0}) → Store × Result StoreError (Unit {0})
install id m (s, err e) = (s, err e)
install id m (s, ok u) = (
  record s {
    metadata = assign id m s.metadata;
    pending_checkpoints = assign id 0 s.pending_checkpoints;
  },
  ok u,
)

unfoldable pub finish_session :
    Runtime
    → MetadataWrite
    → String
    → String
    → Status
    → Option String
    → Metadata
    → Store
    → Store × Result StoreError (Unit {0})
finish_session py write now id status failure m s =
    let m' = with_failure failure (ended status now m) in
    if is_active m || (adds_failure failure m || ltb 0 (count_in id s.pending_checkpoints))
    then install id m' (write_metadata py write id m' s)
    else (s, ok tt)

-- `finish` up to its last line, which calls `enforce_retention` unless an exception left before.
unfoldable pub finish :
    Runtime
    → MetadataWrite
    → String
    → String
    → Status
    → Option String
    → Store
    → Store × Result StoreError (Unit {0})
finish py write now id status failure s =
    if is_terminal status
    then elim (metadata_for id s) [
      | err e ↦ (s, err e)
      | ok m ↦ finish_session py write now id status failure m s
    ]
    else (s, err bad_terminal_status)

unfoldable pub get_session : String → Store → Option Metadata
get_session id s = if is_valid_session_id id then lookup id s.metadata else none

-- A download holds a lease while its stream is open.
unfoldable pub open_lease : String → Store → Store × Bool
open_lease id s =
    if is_valid_session_id id
    then elim (get_session id s) [
      | none ↦ (s, false)
      | some m ↦ elim (directory_of s id).evidence [
        | none ↦ (s, false)
        | some file ↦ (
          record s {
            download_leases = assign id (count_in id s.download_leases + 1) s.download_leases;
          },
          true,
        )
      ]
    ]
    else (s, false)

abbrev pub remaining_leases : String → Store → ℕ
remaining_leases id s = elim (lookup id s.download_leases) [ none ↦ 0 | some n ↦ n - 1 ]

unfoldable pub close_lease : String → Store → Store
close_lease id s = record s {
  download_leases =
      if ltb 0 (remaining_leases id s)
      then assign id (remaining_leases id s) s.download_leases
      else erase id s.download_leases;
}
