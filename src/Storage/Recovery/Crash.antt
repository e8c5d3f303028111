-- ===== src/Storage/Recovery/Crash.antt =====
-- A service that goes down while it appends, and starts again.
use dragon_sniff.Prelude.{
  ℕ, zero, suc, ◌+◌, ◌≤◌, String, Bool, true, ◌||◌, List, [], ◌∷◌, ◌++◌, Option, some, length, take,
  ◌≡◌, refl, arith, ap, sym, ◌∙◌,
}
use mathlib.Core.Path.{subst}
use mathlib.Core.List.{append_assoc, append-nil}
use dragon_sniff.Prelude.Dict.{lookup}
use dragon_sniff.Prelude.Result.{Result, ok, err}
use dragon_sniff.Json.{Fields, obj}
use dragon_sniff.Runtime.{Runtime, Bytes}
use dragon_sniff.Storage.Metadata.{Metadata, interrupted, read_metadata}
use dragon_sniff.Storage.Evidence.{
  newline, count_newlines, ends_complete, Repair, unchanged, cut, repair_partial_tail,
  evidence_after, scan_evidence,
}
use dragon_sniff.Storage.Evidence.Repaired.{evidence_after-repair}
use dragon_sniff.Storage.Sessions.{
  Directory, Store, StoreError, replaced, whole, torn, directory_of, is_active, metadata_for,
  encoded_record, counted, append_line, append,
}
use dragon_sniff.Storage.Sessions.Appending.{
  Backed, write_metadata-Keeps, PrintsOneLine, append-Backed, lookup-assign_self,
  directory_of-put_directory,
}
use dragon_sniff.Storage.Recovery.{
  recount, interrupt, recovered, repaired_directory, loaded, load_session, reopened, with_partial,
  was_cut,
}

-- The lines of the records, one behind the other.
unfoldable pub lines : Runtime → List Fields → Bytes
lines py [] = []
lines py (r ∷ rs) = encoded_record py r ++ lines py rs

-- Appends that the file system lets through, up to the first that raises.
unfoldable pub append_all :
    Runtime → String → String → List Fields → Store → Store × Result StoreError (Unit {0})
append_all py now id [] s = (s, ok tt)
append_all py now id (r ∷ rs) s =
    let (t, done) = append py whole replaced now id r s in
    elim done [ err e ↦ (t, err e) | ok u ↦ append_all py now id rs t ]

record Grown (py : Runtime) (id : String) (m : Metadata) (file : Bytes) (rs : List Fields)
    (t : Store × Result StoreError (Unit {0})) : Type 0 where
  returned : t.1 ≡ ok tt
  metadata : Metadata
  backed : Backed t.0 id metadata (file ++ lines py rs)
  records : metadata.records ≡ m.records + length rs

append_all-Grown :
    (py : Runtime) (now id : String) (rs : List Fields) (s : Store) (m : Metadata) (file : Bytes)
    → PrintsOneLine py
    → Backed s id m file
    → Grown py id m file rs (append_all py now id rs s)
unfolding append_all lines
append_all-Grown py now id [] s m file one b = record {
  returned = refl;
  metadata = m;
  backed = rw append-nil b;
  records = omega arith;
}
append_all-Grown py now id (r ∷ rs) s m file one b =
    let step = append-Backed py now id r s m file one b in
    let g =
      append_all-Grown py now id rs (append py whole replaced now id r s).0
        (counted now (length (encoded_record py r)) m) (file ++ encoded_record py r) one step.1 in
    rw (step.0, append_all)
      (record {
        returned = g.returned;
        metadata = g.metadata;
        backed =
            subst
              (Backed (append_all py now id rs (append py whole replaced now id r s).0).0 id
                g.metadata)
              (append_assoc file (encoded_record py r) (lines py rs)) g.backed;
        records = omega (arith, g.records);
      })

take-front : (n : ℕ) (xs ys : Bytes) → n ≤ length xs → take n (xs ++ ys) ≡ take n xs
take-front zero xs ys h = refl
take-front (suc n) [] ys h = absurd (omega arith)
take-front (suc n) (x ∷ xs) ys h = ap (λ l. x ∷ l) (take-front n xs ys (omega arith))

count_newlines-take-le : (n : ℕ) (xs : Bytes) → count_newlines (take n xs) ≤ count_newlines xs
unfolding count_newlines
count_newlines-take-le zero xs = omega arith
count_newlines-take-le (suc n) [] = omega arith
count_newlines-take-le (suc n) (x ∷ xs) = ground (arith, count_newlines-take-le n xs)

count_newlines_torn :
    (py : Runtime) (r : Fields) (n : ℕ)
    → PrintsOneLine py
    → n ≤ length (py.json_dumps (obj r))
    → count_newlines (take n (encoded_record py r)) ≡ 0
unfolding encoded_record
count_newlines_torn py r n one short = omega (
  arith,
  ap count_newlines (take-front n (py.json_dumps (obj r)) (newline ∷ []) short),
  count_newlines-take-le n (py.json_dumps (obj r)),
  one r,
)

-- An append that is cut off raises, and its bytes stand at the end of the file.
append-torn :
    (py : Runtime) (now id : String) (r : Fields) (n : ℕ) (s : Store) (m : Metadata) (file : Bytes)
    → Backed s id m file
    → let t = (append py (torn n) replaced now id r s).0 in
      ((directory_of t id).evidence ≡ some (file ++ take n (encoded_record py r)))
      × ((directory_of t id).metadata_file ≡ (directory_of s id).metadata_file)
unfolding append metadata_for append_line
append-torn py now id r n s m file b =
    let put =
      directory_of-put_directory id
        (record (directory_of s id) { evidence = some (file ++ take n (encoded_record py r)) }) s in
    rw (b.valid, b.held, b.live, b.on_disk, append, metadata_for, append_line)
      (ap (λ (q : Directory). q.evidence) put, ap (λ (q : Directory). q.metadata_file) put)

-- What an interrupted session says once it is loaded.
pub record Resumes (t : Store) (id : String) (records : ℕ) (file : Bytes) : Type 0 where
  pub metadata : Metadata
  pub held : lookup id t.metadata ≡ some metadata
  pub status : metadata.status ≡ interrupted
  pub counted_records : metadata.records ≡ records
  pub counted_bytes : metadata.bytes ≡ length file
  pub evidence : (directory_of t id).evidence ≡ some file

-- Every part of a metadata that was active is from the file now.
record Recounts (file : Option Bytes) (r : Metadata × Bool) : Type 0 where
  status : r.0.status ≡ interrupted
  records : r.0.records ≡ (scan_evidence file).0
  bytes : r.0.bytes ≡ (scan_evidence file).1
  written : r.1 ≡ true

recount-active :
    (is_nt changed : Bool) (file : Option Bytes) (m : Metadata)
    → is_active m ≡ true
    → recount is_nt changed file m
      ≡ record m { records = (scan_evidence file).0; bytes = (scan_evidence file).1 }
unfolding recount
recount-active is_nt changed file m live = rw live refl

interrupt-active :
    (now : String) (m : Metadata)
    → is_active m ≡ true
    → ((interrupt now m).status ≡ interrupted)
      × ((interrupt now m).records ≡ m.records)
      × ((interrupt now m).bytes ≡ m.bytes)
unfolding interrupt
interrupt-active now m live = rw live (refl, refl, refl)

with_partial-active : (q : Repair) (m : Metadata) → is_active (with_partial q m) ≡ is_active m
with_partial-active unchanged m = refl
with_partial-active (cut kept torn_part n) m = refl

or_true : (a b : Bool) → (a || (true || b)) ≡ true
or_true a b = ground arith

recovered-Recounts :
    (is_nt : Bool) (now : String) (evidence : Option Bytes) (m : Metadata)
    → is_active m ≡ true
    → Recounts
        (evidence_after (repair_partial_tail evidence) evidence)
        (recovered is_nt now evidence m)
unfolding recovered
recovered-Recounts is_nt now evidence m live =
    let q = repair_partial_tail evidence in
    let file = evidence_after q evidence in
    let live' : is_active (with_partial q m) ≡ true = with_partial-active q m ∙ live in
    let e = recount-active is_nt (was_cut q) file (with_partial q m) live' in
    let parts =
      interrupt-active now
        (record (with_partial q m) {
          records = (scan_evidence file).0;
          bytes = (scan_evidence file).1;
        })
        live' in
    record {
      status = rw e parts.0;
      records = rw e parts.1;
      bytes = rw e parts.2;
      written = rw live (or_true _ (was_cut q));
    }

load_session-Resumes :
    (py : Runtime) (is_nt : Bool) (now id : String) (d : Directory) (m : Metadata)
    (kept rest : Bytes) (s : Store)
    → read_metadata py id d.metadata_file ≡ ok m
    → is_active m ≡ true
    → d.evidence ≡ some (kept ++ rest)
    → ends_complete kept ≡ true
    → count_newlines rest ≡ 0
    → Resumes (load_session py is_nt replaced now id d s).0 id (count_newlines kept) kept
unfolding load_session repaired_directory scan_evidence
load_session-Resumes py is_nt now id d m kept rest s readable live on_disk complete none_torn =
    let c = recovered-Recounts is_nt now d.evidence m live in
    let repaired : evidence_after (repair_partial_tail d.evidence) d.evidence ≡ some kept =
      ap (λ e. evidence_after (repair_partial_tail e) e) on_disk
      ∙ evidence_after-repair kept rest complete none_torn in
    let k =
      write_metadata-Keeps py id (recovered is_nt now d.evidence m).0 (loaded is_nt now id d m s) in
    rw (readable, load_session, c.written)
      (record {
        metadata = (recovered is_nt now d.evidence m).0;
        held =
            ap (lookup id) k.metadata
            ∙ lookup-assign_self id (recovered is_nt now d.evidence m).0 s.metadata;
        status = c.status;
        counted_records = c.records ∙ ap (λ f. (scan_evidence f).0) repaired;
        counted_bytes = c.bytes ∙ ap (λ f. (scan_evidence f).1) repaired;
        evidence =
            k.evidence
            ∙ ap (λ (q : Directory). q.evidence)
                (directory_of-put_directory id (repaired_directory d) s)
            ∙ repaired;
      })

-- Appends, one more that is cut off within its line, and a start over the files as they are: the
-- session comes back as interrupted, its evidence is the lines of the appends that returned, in order
-- and each once, and its counters say so. The metadata on disk may be as old as a checkpoint: only
-- that it is readable and active is needed.
pub load_session-append_all :
    (py : Runtime) (is_nt : Bool) (now later id : String) (rs : List Fields) (r : Fields) (n : ℕ)
    (s t : Store) (m m' : Metadata) (file : Bytes)
    → PrintsOneLine py
    → Backed s id m file
    → n ≤ length (py.json_dumps (obj r))
    → t ≡ (append py (torn n) replaced now id r (append_all py now id rs s).0).0
    → read_metadata py id (directory_of t id).metadata_file ≡ ok m'
    → is_active m' ≡ true
    → ((append_all py now id rs s).1 ≡ ok tt)
      × Resumes
          (load_session py is_nt replaced later id
            (directory_of t id)
            (reopened s.retention_bytes s.retention_sessions t.directories)).0
          id
          (m.records + length rs)
          (file ++ lines py rs)
load_session-append_all py is_nt now later id rs r n s t m m' file one b short after readable live =
    let g = append_all-Grown py now id rs s m file one b in
    let cut_off =
      append-torn py now id r n (append_all py now id rs s).0 g.metadata (file ++ lines py rs)
        g.backed in
    let on_disk : (directory_of t id).evidence
        ≡ some ((file ++ lines py rs) ++ take n (encoded_record py r)) =
      ap (λ (q : Store). (directory_of q id).evidence) after ∙ cut_off.0 in
    let back =
      load_session-Resumes py is_nt later id (directory_of t id) m' (file ++ lines py rs)
        (take n (encoded_record py r))
        (reopened s.retention_bytes s.retention_sessions t.directories) readable live on_disk
        g.backed.complete (count_newlines_torn py r n one short) in
    (
      g.returned,
      record {
        metadata = back.metadata;
        held = back.held;
        status = back.status;
        counted_records = back.counted_records ∙ sym g.backed.records ∙ g.records;
        counted_bytes = back.counted_bytes;
        evidence = back.evidence;
      },
    )
