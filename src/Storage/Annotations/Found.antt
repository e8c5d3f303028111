-- ===== src/Storage/Annotations/Found.antt =====
-- An annotation that was appended is found in the evidence.
use dragon_sniff.Prelude.{
  ◌+◌, String, Bool, true, List, [], ◌∷◌, ◌++◌, some, ◌==◌, if◌then◌else◌, ◌≡◌, refl, arith, ap,
  ◌∙◌, Bool-cases, inl, inr,
}
use mathlib.Core.List.{append_assoc}
use dragon_sniff.Json.{Fields, obj}
use dragon_sniff.Runtime.{Runtime, Bytes}
use dragon_sniff.Storage.Metadata.{Metadata, is_valid_session_id}
use dragon_sniff.Storage.Evidence.{newline, count_newlines}
use dragon_sniff.Prelude.Dict.{lookup}
use dragon_sniff.Storage.Sessions.{directory_of, Store, encoded_record}
use dragon_sniff.Storage.Sessions.Appending.{PrintsOneLine}
use dragon_sniff.Storage.Recovery.Crash.{lines}
use dragon_sniff.Storage.Annotations.{
  stream_lines, add_to_first, is_annotation, fields_of, if_matches, matching, first_of, is_capture,
  find_annotation,
}

-- A line without a newline in it, and its newline, is the first line of the stream.
stream_lines-line :
    (xs rest : Bytes)
    → count_newlines xs ≡ 0
    → stream_lines (xs ++ newline ∷ rest) ≡ (xs ++ newline ∷ []) ∷ stream_lines rest
unfolding stream_lines count_newlines
stream_lines-line [] rest h = refl
stream_lines-line (x ∷ xs) rest h = elim (Bool-cases (x == newline)) [
  | inl is ↦ absurd (let e : count_newlines xs + 1 ≡ 0 = rw is at h in omega arith)
  | inr other ↦ rw other (ap (add_to_first x) (stream_lines-line xs rest (rw other at h)))
]

stream_lines-encoded_record :
    (py : Runtime) (r : Fields) (rest : Bytes)
    → PrintsOneLine py
    → stream_lines (encoded_record py r ++ rest) ≡ encoded_record py r ∷ stream_lines rest
unfolding encoded_record
stream_lines-encoded_record py r rest one =
    ap stream_lines (append_assoc (py.json_dumps (obj r)) (newline ∷ []) rest)
    ∙ stream_lines-line (py.json_dumps (obj r)) rest (one r)

-- `json.loads` of the line of each record gives what was printed.
abbrev pub ReadBack : Runtime → List Fields → Type 0
ReadBack py [] = Unit {0}
ReadBack py (r ∷ rs) = (py.json_loads (encoded_record py r) ≡ some (obj r)) × ReadBack py rs

abbrev pub selected : (Fields → Bool) → List Fields → List Fields
selected test [] = []
selected test (r ∷ rs) = let later = selected test rs in if test r then r ∷ later else later

matching-lines :
    (py : Runtime) (test : Fields → Bool) (rs : List Fields)
    → PrintsOneLine py
    → ReadBack py rs
    → matching py test (stream_lines (lines py rs)) ≡ selected test rs
unfolding lines matching
matching-lines py test [] one back = unfold stream_lines in refl
matching-lines py test (r ∷ rs) one back =
    ap (matching py test) (stream_lines-encoded_record py r (lines py rs) one)
    ∙ ap (λ v. if_matches test (fields_of v) (matching py test (stream_lines (lines py rs)))) back.0
    ∙ ap (if_matches test (some r)) (matching-lines py test rs one back.1)

-- Over the evidence of records in a capture session of any status, the lookup returns the first record
-- of them that is an annotation of the id, and none only where there is none. A printed record takes
-- one line, and `json.loads` of the line of each record gives the record back.
pub find_annotation-lines :
    (py : Runtime) (id annotation_id : String) (s : Store) (m : Metadata) (rs : List Fields)
    → PrintsOneLine py
    → ReadBack py rs
    → is_valid_session_id id ≡ true
    → lookup id s.metadata ≡ some m
    → (directory_of s id).evidence ≡ some (lines py rs)
    → is_capture m ≡ true
    → find_annotation py id annotation_id s ≡ first_of (selected (is_annotation annotation_id) rs)
unfolding find_annotation
find_annotation-lines py id annotation_id s m rs one back valid held on_disk captured =
    rw (valid, held, captured, on_disk, find_annotation)
      (ap first_of (matching-lines py (is_annotation annotation_id) rs one back))
