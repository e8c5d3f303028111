-- ===== src/Storage/Retention.antt =====
-- `_storage_objects_locked` and `enforce_retention` of src/dragonsniff/storage.py.
pub mod Gone
pub mod Oldest
pub mod Retained
pub mod Sorted
pub mod Spared
use Prim.Native.String.{compare}
use text.Mathlib.Text.{is_lt, is_eq, is_le}
use dragon_sniff.Prelude.{
  ℕ, ◌+◌, ◌-◌, String, Bool, true, false, not, ◌&&◌, ◌||◌, List, [], ◌∷◌, ◌++◌, Option, none, some,
  leb, ltb, ◌==◌, if◌then◌else◌, length, is_some, select, map,
}
use dragon_sniff.Prelude.Dict.{Dict, lookup, assign, erase}
use dragon_sniff.Prelude.Result.{Result, ok, err}
use dragon_sniff.Runtime.{Runtime, Bytes}
use dragon_sniff.Storage.Metadata.{Metadata, LoadError, not_loaded_at_startup, is_valid_session_id}
use dragon_sniff.Storage.Sessions.{
  Directory, Store, StoreError, bad_limits, MetadataWrite, directory_of, is_active, count_in,
  close_lease,
}
use dragon_sniff.Storage.Recovery.{size_of, load_and_recover, reopened}

-- What the file system says: the order of a directory by its time, whether `rmtree` succeeds, and the
-- bytes of the files of a directory that the program does not name.
pub record FileSystem : Type 0 where
  pub order_of : String → String
  pub rmtree : String → Bool
  pub other_bytes : String → ℕ

pub record Object : Type 0 where
  pub session_id : String
  pub bytes : ℕ
  pub order : String
  pub valid : Bool
  pub active : Bool

-- `_discover_invalid_sessions_locked`: the ids of directories that no session is loaded for, each with
-- the reason that is known or a new one. What is registered for any other id goes.
abbrev pub reason_of : Option LoadError → LoadError
reason_of none = not_loaded_at_startup
reason_of (some reason) = reason

unfoldable pub present_invalid : Dict LoadError → Dict Metadata → Dict Directory → Dict LoadError
present_invalid known loaded [] = []
present_invalid known loaded ((id, d) ∷ rest) =
    let later = present_invalid known loaded rest in
    if is_valid_session_id id && not (is_some (lookup id loaded))
    then (id, reason_of (lookup id known)) ∷ later
    else later

unfoldable pub discover_invalid : Store → Store
discover_invalid s = record s {
  invalid_sessions = present_invalid s.invalid_sessions s.metadata s.directories;
}

-- `_cached_file_size_locked`.
unfoldable pub cached_size : Dict ℕ → String → Option Bytes → ℕ
cached_size cache id file = elim (lookup id cache) [ some n ↦ n | none ↦ size_of file ]

abbrev pub partial_bytes : Metadata → ℕ
partial_bytes m = elim m.recovered_partial_bytes [ none ↦ 0 | some n ↦ n ]

unfoldable pub valid_object : Store → Metadata → Object
valid_object s m = record {
  session_id = m.session_id;
  bytes =
      cached_size s.evidence_file_bytes m.session_id (directory_of s m.session_id).evidence
      + cached_size s.metadata_file_bytes m.session_id (directory_of s m.session_id).metadata_file
      + partial_bytes m;
  order = m.created_at;
  valid = true;
  active = is_active m;
}

abbrev pub directory_size : FileSystem → Store → String → ℕ
directory_size fs s id =
    let d = directory_of s id in
    size_of d.evidence + size_of d.partial + size_of d.metadata_file + fs.other_bytes id

unfoldable pub invalid_object : FileSystem → Store → String → Object
invalid_object fs s id = record {
  session_id = id;
  bytes = directory_size fs s id;
  order = fs.order_of id;
  valid = false;
  active = false;
}

-- The caches that this fills in are left as they are: a size that is looked up again is the same.
unfoldable pub storage_objects : FileSystem → Store → List Object
storage_objects fs s =
    map (λ (entry : String × Metadata). valid_object s entry.1) s.metadata
    ++ map (λ (entry : String × LoadError). invalid_object fs s entry.0) s.invalid_sessions

abbrev pub sum_bytes : List Object → ℕ
sum_bytes [] = 0
sum_bytes (o ∷ os) = o.bytes + sum_bytes os

-- The order of `(item["order"], item["session_id"])`.
abbrev pub object_le : Object → Object → Bool
object_le a b =
    is_lt (compare a.order b.order)
    || (is_eq (compare a.order b.order) && is_le (compare a.session_id b.session_id))

unfoldable pub insert_object : Object → List Object → List Object
insert_object o [] = o ∷ []
insert_object o (p ∷ ps) =
    let later = insert_object o ps in if object_le o p then o ∷ p ∷ ps else p ∷ later

unfoldable pub sort_objects : List Object → List Object
sort_objects [] = []
sort_objects (o ∷ os) = insert_object o (sort_objects os)

unfoldable pub candidates : List Object → List Object
candidates os = sort_objects (select (λ (o : Object). not o.active) os)

-- The entries of a removed session.
unfoldable pub forget : String → Store → Store
forget id s = record s {
  directories = erase id s.directories;
  metadata = erase id s.metadata;
  evidence_file_bytes = erase id s.evidence_file_bytes;
  metadata_file_bytes = erase id s.metadata_file_bytes;
  invalid_sessions = erase id s.invalid_sessions;
  pending_checkpoints = erase id s.pending_checkpoints;
}

abbrev pub within : Store → ℕ → ℕ → Bool
within s total count = leb total s.retention_bytes && leb count s.retention_sessions

abbrev pub is_leased : Store → String → Bool
is_leased s id = ltb 0 (count_in id s.download_leases)

-- The loop. The total is a sum of the candidates' bytes and others', so it never goes below zero.
unfoldable pub remove_until : FileSystem → Store → ℕ → ℕ → List Object → Store
remove_until fs s total count [] = s
remove_until fs s total count (o ∷ os) = elim (within s total count) [
  | true ↦ s
  | false ↦ elim (is_leased s o.session_id) [
    | true ↦ remove_until fs s total count os
    | false ↦ elim (fs.rmtree o.session_id) [
      | false ↦ s
      | true ↦ remove_until fs (forget o.session_id s) (total - o.bytes) (count - 1) os
    ]
  ]
]

unfoldable pub enforce_retention : FileSystem → Store → Store
enforce_retention fs s =
    let found = discover_invalid s in
    let objects = storage_objects fs found in
    remove_until fs found (sum_bytes objects) (length objects) (candidates objects)

-- The end of a download, its last line included.
unfoldable pub end_lease : FileSystem → String → Store → Store
end_lease fs id s = enforce_retention fs (close_lease id s)

-- `__init__` over the directories of an earlier process; an OSError of recovery leaves no store.
unfoldable pub start :
    Runtime
    → Bool
    → MetadataWrite
    → FileSystem
    → String
    → ℕ
    → ℕ
    → Dict Directory
    → Result StoreError Store
start py is_nt write fs now retention_bytes retention_sessions directories =
    let (s, done) =
      load_and_recover py is_nt write now directories
        (reopened retention_bytes retention_sessions directories) in
    if ltb retention_bytes 1 || ltb retention_sessions 1
    then err bad_limits
    else elim done [ err e ↦ err e | ok u ↦ ok (enforce_retention fs s) ]

pub record StorageSummary : Type 0 where
  pub retained_sessions : ℕ
  pub retained_bytes : ℕ
  pub valid_sessions : ℕ
  pub valid_bytes : ℕ
  pub invalid_count : ℕ
  pub invalid_bytes : ℕ

unfoldable pub storage_summary : FileSystem → Store → StorageSummary
storage_summary fs s =
    let objects = storage_objects fs (discover_invalid s) in
    let good = select (λ (o : Object). o.valid) objects in
    let bad = select (λ (o : Object). not o.valid) objects in
    record {
      retained_sessions = length objects;
      retained_bytes = sum_bytes objects;
      valid_sessions = length good;
      valid_bytes = sum_bytes good;
      invalid_count = length bad;
      invalid_bytes = sum_bytes bad;
    }
