-- ===== src/Storage/Sessions/Appending.antt =====
-- What appends leave in the evidence file and in the counters.
use dragon_sniff.Prelude.{
  ℕ, ◌+◌, ◌<◌, String, true, [], ◌∷◌, ◌++◌, some, leb, ◌==◌, length, length-append, last_of, ◌≡◌,
  refl, arith, ap, ◌∙◌, Bool-cases, inl, inr,
}
use text.Mathlib.TextPositions.{eq_refl}
use dragon_sniff.Prelude.Dict.{Dict, lookup, assign, lookup-assign}
use dragon_sniff.Prelude.Result.{ok}
use dragon_sniff.Json.{Fields, obj}
use dragon_sniff.Runtime.{Runtime, Bytes}
use dragon_sniff.Storage.Metadata.{Metadata, is_valid_session_id, encoded_metadata}
use dragon_sniff.Storage.Evidence.{newline, count_newlines, ends_complete}
use dragon_sniff.Storage.Evidence.Repaired.{count_newlines-append}
use dragon_sniff.Storage.Sessions.{
  Directory, Store, replaced, whole, directory_of, put_directory, write_metadata, is_active,
  metadata_for, encoded_record, counted, count_in, or_no_directory, checkpoint, account,
  append_line, append, with_evidence,
}

-- An active session whose counters say what is in its file.
pub record Backed (s : Store) (id : String) (m : Metadata) (file : Bytes) : Type 0 where
  pub valid : is_valid_session_id id ≡ true
  pub held : lookup id s.metadata ≡ some m
  pub live : is_active m ≡ true
  pub on_disk : (directory_of s id).evidence ≡ some file
  pub complete : ends_complete file ≡ true
  pub records : m.records ≡ count_newlines file
  pub bytes : m.bytes ≡ length file

-- `json.dumps` escapes a newline, so a line of evidence has one, at its end.
abbrev pub PrintsOneLine : Runtime → Type 0
PrintsOneLine py = (r : Fields) → count_newlines (py.json_dumps (obj r)) ≡ 0

pub lookup-assign_self :
    {A : Type 0} (k : String) (a : A) (d : Dict A) → lookup k (assign k a d) ≡ some a
lookup-assign_self k a d = rw (lookup-assign k k a d, eq_refl k) refl

pub directory_of-put_directory :
    (id : String) (d : Directory) (s : Store) → directory_of (put_directory id d s) id ≡ d
directory_of-put_directory id d s = ap or_no_directory (lookup-assign_self id d s.directories)

-- Writing metadata leaves the evidence and the metadata in memory.
pub record Keeps (id : String) (s t : Store) : Type 0 where
  pub metadata : t.metadata ≡ s.metadata
  pub evidence : (directory_of t id).evidence ≡ (directory_of s id).evidence

pub write_metadata-Keeps :
    (py : Runtime) (id : String) (m : Metadata) (s : Store)
    → Keeps id s (write_metadata py replaced id m s).0
unfolding write_metadata
write_metadata-Keeps py id m s = record {
  metadata = refl;
  evidence =
      ap (λ (q : Directory). q.evidence)
        (directory_of-put_directory id
          (record (directory_of s id) { metadata_file = some (encoded_metadata py m) }) s);
}

checkpoint-Keeps :
    (py : Runtime) (id : String) (m : Metadata) (s : Store)
    → ((checkpoint py replaced id m s).1 ≡ ok tt) × Keeps id s (checkpoint py replaced id m s).0
unfolding checkpoint write_metadata
checkpoint-Keeps py id m s = elim (Bool-cases (leb 64 (count_in id s.pending_checkpoints + 1))) [
  | inl due ↦
      let k = write_metadata-Keeps py id m s in
      rw due (refl, record { metadata = k.metadata; evidence = k.evidence })
  | inr early ↦ rw early (refl, record { metadata = refl; evidence = refl })
]

ends_complete-line : (xs : Bytes) → ends_complete (xs ++ newline ∷ []) ≡ true
unfolding ends_complete
ends_complete-line [] = refl
ends_complete-line (c ∷ cs) = last_line c cs
  where
    last_line : (c : ℕ) (cs : Bytes) → (last_of c (cs ++ newline ∷ []) == newline) ≡ true
    last_line c [] = refl
    last_line c (d ∷ ds) = last_line d ds

count_newlines-encoded_record :
    (py : Runtime) (r : Fields) → PrintsOneLine py → count_newlines (encoded_record py r) ≡ 1
unfolding encoded_record
count_newlines-encoded_record py r one =
    omega (arith, count_newlines-append (py.json_dumps (obj r)) (newline ∷ []), one r, just)
  where
    just : count_newlines (newline ∷ []) ≡ 1
    just = unfold count_newlines in omega arith

encoded_complete :
    (py : Runtime) (r : Fields)
    → (0 < length (encoded_record py r)) × (ends_complete (encoded_record py r) ≡ true)
unfolding encoded_record
encoded_complete py r = (
  omega (arith, length-append (py.json_dumps (obj r)) (newline ∷ [])),
  ends_complete-line (py.json_dumps (obj r)),
)

ends_complete-append :
    (xs ys : Bytes) → (0 < length ys) × (ends_complete ys ≡ true) → ends_complete (xs ++ ys) ≡ true
unfolding ends_complete
ends_complete-append xs [] h = absurd (omega (arith, h.0))
ends_complete-append [] (y ∷ ys) h = h.1
ends_complete-append (x ∷ xs) (y ∷ ys) h = behind x xs
  where
    behind : (x : ℕ) (xs : Bytes) → (last_of x (xs ++ y ∷ ys) == newline) ≡ true
    behind x [] = h.1
    behind x (z ∷ zs) = behind z zs

-- An append that the file system lets through returns, and adds the record's line and nothing else.
pub append-Backed :
    (py : Runtime) (now id : String) (r : Fields) (s : Store) (m : Metadata) (file : Bytes)
    → PrintsOneLine py
    → Backed s id m file
    → ((append py whole replaced now id r s).1 ≡ ok tt)
      × Backed
          (append py whole replaced now id r s).0
          id
          (counted now (length (encoded_record py r)) m)
          (file ++ encoded_record py r)
unfolding append metadata_for append_line account
append-Backed py now id r s m file one b =
    let line = encoded_record py r in
    let m' = counted now (length line) m in
    let s' : Store = record (with_evidence id (file ++ line) s) {
      evidence_file_bytes = assign id (length (file ++ line)) s.evidence_file_bytes;
      metadata = assign id m' s.metadata;
    } in
    let k = checkpoint-Keeps py id m' s' in
    rw (b.valid, b.held, b.live, b.on_disk, append, metadata_for, append_line)
      (
        k.0,
        record {
          valid = b.valid;
          held = ap (lookup id) k.1.metadata ∙ lookup-assign_self id m' s.metadata;
          live = b.live;
          on_disk =
              k.1.evidence
              ∙ ap (λ (q : Directory). q.evidence)
                  (directory_of-put_directory id
                    (record (directory_of s id) { evidence = some (file ++ line) }) s);
          complete = ends_complete-append file line (encoded_complete py r);
          records = omega (
            arith,
            b.records,
            count_newlines-append file line,
            count_newlines-encoded_record py r one,
          );
          bytes = omega (arith, b.bytes, length-append file line);
        },
      )
