-- ===== src/Storage/Annotations.antt =====
-- Looking up annotations in the evidence of sessions: `find_annotation` and `find_annotations` of
-- src/dragonsniff/storage.py.
pub mod Found
use Prim.Native.String.{compare}
use text.Mathlib.Text.{is_lt, is_eq, is_le}
use dragon_sniff.Prelude.{
  ℕ, String, Bool, true, false, ◌&&◌, ◌||◌, List, [], ◌∷◌, ◌++◌, Option, none, some, str_eq, ◌==◌,
  if◌then◌else◌, select, map,
}
use dragon_sniff.Prelude.Dict.{Dict, lookup}
use dragon_sniff.Json.{Value, Fields, obj, get}
use dragon_sniff.Runtime.{Runtime, Bytes}
use dragon_sniff.Annotations.{is_text}
use dragon_sniff.Storage.Metadata.{Metadata, Kind, capture, is_valid_session_id}
use dragon_sniff.Storage.Evidence.{newline}
use dragon_sniff.Storage.Sessions.{Store, Directory, directory_of}

-- The lines that iterating a binary stream gives, each with its newline.
abbrev pub add_to_first : ℕ → List Bytes → List Bytes
add_to_first c [] = (c ∷ []) ∷ []
add_to_first c (l ∷ ls) = (c ∷ l) ∷ ls

unfoldable pub stream_lines : Bytes → List Bytes
stream_lines [] = []
stream_lines (c ∷ cs) =
    let rest = stream_lines cs in
    if c == newline then (newline ∷ []) ∷ rest else add_to_first c rest

abbrev pub is_annotation : String → Fields → Bool
is_annotation annotation_id r =
    is_text (some "operator_annotation") (get r "kind")
    && is_text (some annotation_id) (get r "annotation_id")

-- A line that is no JSON object is passed over.
abbrev pub fields_of : Option Value → Option Fields
fields_of (some (obj fs)) = some fs
fields_of _ = none

abbrev pub record_of : Runtime → Bytes → Option Fields
record_of py line = fields_of (py.json_loads line)

abbrev pub if_matches : (Fields → Bool) → Option Fields → List Fields → List Fields
if_matches test none later = later
if_matches test (some r) later = if test r then r ∷ later else later

-- The records of a file that a test admits, in order.
unfoldable pub matching : Runtime → (Fields → Bool) → List Bytes → List Fields
matching py test [] = []
matching py test (line ∷ rest) = if_matches test (record_of py line) (matching py test rest)

abbrev pub first_of : List Fields → Option Fields
first_of [] = none
first_of (r ∷ rs) = some r

abbrev pub is_capture : Metadata → Bool
is_capture m = elim m.kind [ capture ↦ true | _ ↦ false ]

-- `find_annotation`; the loop returns at the first record that matches.
unfoldable pub find_annotation : Runtime → String → String → Store → Option Fields
find_annotation py session_id annotation_id s =
    if is_valid_session_id session_id
    then elim (lookup session_id s.metadata) [
      | none ↦ none
      | some m ↦
          if is_capture m
          then elim (directory_of s session_id).evidence [
            | none ↦ none
            | some file ↦ first_of (matching py (is_annotation annotation_id) (stream_lines file))
          ]
          else none
    ]
    else none

-- By creation, and by id where that is the same.
abbrev pub session_le : Metadata → Metadata → Bool
session_le a b =
    is_lt (compare a.created_at b.created_at)
    || (is_eq (compare a.created_at b.created_at) && is_le (compare a.session_id b.session_id))

unfoldable pub insert_session : Metadata → List Metadata → List Metadata
insert_session m [] = m ∷ []
insert_session m (n ∷ ns) =
    let later = insert_session m ns in if session_le m n then m ∷ n ∷ ns else n ∷ later

unfoldable pub sort_sessions : List Metadata → List Metadata
sort_sessions [] = []
sort_sessions (m ∷ ms) = insert_session m (sort_sessions ms)

abbrev pub is_annotation_of : String → String → Fields → Bool
is_annotation_of annotation_id session_id r =
    is_annotation annotation_id r && is_text (some session_id) (get r "capture_session_id")

abbrev pub matches_in : Runtime → String → Store → Metadata → List Fields
matches_in py annotation_id s m = elim (directory_of s m.session_id).evidence [
  | none ↦ []
  | some file ↦ matching py (is_annotation_of annotation_id m.session_id) (stream_lines file)
]

unfoldable pub concat_matches : Runtime → String → Store → List Metadata → List Fields
concat_matches py annotation_id s [] = []
concat_matches py annotation_id s (m ∷ ms) =
    matches_in py annotation_id s m ++ concat_matches py annotation_id s ms

unfoldable pub find_annotations : Runtime → String → Store → List Fields
find_annotations py annotation_id s =
    concat_matches py annotation_id s
      (sort_sessions (select is_capture (map (λ (e : String × Metadata). e.1) s.metadata)))

-- `list_sessions`: the latest first, those of the same time in the order of the dict.
unfoldable pub insert_latest : Metadata → List Metadata → List Metadata
insert_latest m [] = m ∷ []
insert_latest m (n ∷ ns) =
    let later = insert_latest m ns in
    if is_le (compare n.created_at m.created_at) then m ∷ n ∷ ns else n ∷ later

unfoldable pub list_sessions_of : List Metadata → List Metadata
list_sessions_of [] = []
list_sessions_of (m ∷ ms) = insert_latest m (list_sessions_of ms)

unfoldable pub list_sessions : Store → List Metadata
list_sessions s = list_sessions_of (map (λ (e : String × Metadata). e.1) s.metadata)
