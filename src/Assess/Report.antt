-- ===== src/Assess/Report.antt =====
-- The assessment report: `build_report` of src/dragonsniff/assess/report.py. The constants of the
-- format and the version of the program are left out.
use dragon_sniff.Prelude.{
  ℕ, suc, String, Bool, true, false, List, [], ◌∷◌, Option, none, some, ◌==◌, not, length, head?,
  map_option, ◌>>=◌, >>=-eq-some, ◌≡◌, refl, arith, some-injective, select,
}
use mathlib.Core.Path.{subst}
use dragon_sniff.Json.{Number}
use dragon_sniff.Runtime.{Runtime}
use dragon_sniff.Assess.Evidence.{Record, RunProblem, Run, Session, Evidence}
use dragon_sniff.Assess.Profile.{Profile, Check}
use dragon_sniff.Assess.Engine.{Verdict, pass, fail, inconclusive, Finding, evaluate}

pub record RunReport : Type 0 where
  pub run_id : Option String
  pub problem : Option RunProblem
  pub started_sequence : Option ℕ
  pub started_utc : Option String
  pub terminal_kind : Option String
  pub terminal_sequence : Option ℕ
  pub terminal_utc : Option String

pub record EvidenceReport : Type 0 where
  pub sha256 : String
  pub byte_length : ℕ
  pub record_count : ℕ
  pub first_sequence : ℕ
  pub last_sequence : ℕ
  pub sequence_gaps : List (ℕ × ℕ)
  pub monotonic_inversions : ℕ
  pub run : RunReport
  pub session : Option Session

pub record Tally : Type 0 where
  pub passed : ℕ
  pub failed : ℕ
  pub undecided : ℕ

pub record Report : Type 0 where
  pub profile_name : String
  pub profile_version : String
  pub profile_sha256 : String
  pub profile_byte_length : ℕ
  pub evidence : EvidenceReport
  pub hold_is_bounded : Bool
  pub max_hold_s : Number
  pub max_hold_ns : ℕ
  pub summary : Tally
  pub findings : List Finding
  pub assessed_at : Option String

abbrev pub of_record : {A : Type 0} → (Record → A) → Option Record → Option A
of_record f none = none
of_record f (some r) = some (f r)

unfoldable pub run_report : Run → RunReport
run_report run = record {
  run_id = run.run_id;
  problem = run.problem;
  started_sequence = of_record (λ r. r.sequence) run.started;
  started_utc = of_record (λ r. r.timestamp) run.started;
  terminal_kind = of_record (λ r. r.kind) run.terminal;
  terminal_sequence = of_record (λ r. r.sequence) run.terminal;
  terminal_utc = of_record (λ r. r.timestamp) run.terminal;
}

-- `records[-1]`.
abbrev pub last? : List Record → Option Record
last? [] = none
last? (r ∷ rs) = let later = last? rs in elim later [ none ↦ some r | some q ↦ some q ]

abbrev pub is_verdict : Verdict → Verdict → Bool
is_verdict pass pass = true
is_verdict fail fail = true
is_verdict inconclusive inconclusive = true
is_verdict _ _ = false

-- How many findings have the result.
unfoldable pub count_results : Verdict → List Finding → ℕ
count_results v fs = length (select (λ f. is_verdict f.result v) fs)

unfoldable pub tally : List Finding → Tally
tally fs = record {
  passed = count_results pass fs;
  failed = count_results fail fs;
  undecided = count_results inconclusive fs;
}

-- `none` is an exception of `evaluate`, or of the first and last record of evidence that has none.
unfoldable pub build_report : Runtime → Evidence → Profile → Option String → Option Report
build_report py e profile assessed_at = do
  findings ← map_option (evaluate py e profile) profile.checks
  first ← head? e.records
  last ← last? e.records
  some (record {
    profile_name = profile.name;
    profile_version = profile.version;
    profile_sha256 = profile.sha256;
    profile_byte_length = profile.byte_length;
    evidence = record {
      sha256 = e.sha256;
      byte_length = e.byte_length;
      record_count = length e.records;
      first_sequence = first.sequence;
      last_sequence = last.sequence;
      sequence_gaps = e.gaps;
      monotonic_inversions = e.monotonic_inversions;
      run = run_report e.run;
      session = e.session;
    };
    hold_is_bounded = not (profile.max_hold_ns == 0);
    max_hold_s = profile.max_hold_s;
    max_hold_ns = profile.max_hold_ns;
    summary = tally findings;
    findings = findings;
    assessed_at = assessed_at;
  })

-- The report's findings are those of the profile's checks, in order, and its tally is theirs.
build_report-findings :
    (py : Runtime) (e : Evidence) (profile : Profile) (at : Option String) (r : Report)
    → build_report py e profile at ≡ some r
    → (map_option (evaluate py e profile) profile.checks ≡ some r.findings)
      × (r.summary ≡ tally r.findings)
unfolding build_report
build_report-findings py e profile at r h = ground arith

-- The findings, one by one, are what `evaluate` returns for the checks.
abbrev pub Evaluates : Runtime → Evidence → Profile → List Check → List Finding → Type 0
Evaluates py e profile [] [] = Unit
Evaluates py e profile (c ∷ cs) (f ∷ fs) =
    (evaluate py e profile c ≡ some f) × Evaluates py e profile cs fs
Evaluates py e profile _ _ = ⊥

-- A list of findings of which so many passed, failed and were left undecided.
pub data Counts : List Finding → ℕ → ℕ → ℕ → Type 0 where
  no_finding : Counts [] 0 0 0
  has_passed :
      {f : Finding} {fs : List Finding} {p q u : ℕ}
      → f.result ≡ pass
      → Counts fs p q u
      → Counts (f ∷ fs) (suc p) q u
  has_failed :
      {f : Finding} {fs : List Finding} {p q u : ℕ}
      → f.result ≡ fail
      → Counts fs p q u
      → Counts (f ∷ fs) p (suc q) u
  undecided :
      {f : Finding} {fs : List Finding} {p q u : ℕ}
      → f.result ≡ inconclusive
      → Counts fs p q u
      → Counts (f ∷ fs) p q (suc u)

Counts-tally :
    (fs : List Finding)
    → Counts fs (count_results pass fs) (count_results fail fs) (count_results inconclusive fs)
unfolding count_results
Counts-tally [] = no_finding
Counts-tally (f ∷ fs) = by_result f.result refl (Counts-tally fs)
  where
    by_result :
        (v : Verdict)
        → f.result ≡ v
        → Counts fs (count_results pass fs) (count_results fail fs) (count_results inconclusive fs)
        → Counts
            (f ∷ fs)
            (count_results pass (f ∷ fs))
            (count_results fail (f ∷ fs))
            (count_results inconclusive (f ∷ fs))
    by_result pass is later = rw (is, count_results) (has_passed refl later)
    by_result fail is later = rw (is, count_results) (has_failed refl later)
    by_result inconclusive is later = rw (is, count_results) (Counts.undecided refl later)

map_option-Evaluates :
    (py : Runtime) (e : Evidence) (profile : Profile) (cs : List Check) (fs : List Finding)
    → map_option (evaluate py e profile) cs ≡ some fs
    → Evaluates py e profile cs fs
map_option-Evaluates py e profile [] fs h = subst (Evaluates py e profile []) (some-injective h) tt
map_option-Evaluates py e profile (c ∷ cs) fs h =
    let (f, got, h₁) =
      >>=-eq-some (evaluate py e profile c)
        (λ f. map_option (evaluate py e profile) cs >>= λ rest. some (f ∷ rest)) h in
    let (rest, more, h₂) =
      >>=-eq-some (map_option (evaluate py e profile) cs) (λ rest. some (f ∷ rest)) h₁ in
    subst (Evaluates py e profile (c ∷ cs)) (some-injective h₂)
      (got, map_option-Evaluates py e profile cs rest more)

-- A report has, for each check of the profile and in their order, the finding that `evaluate` returns,
-- and its summary has the number of findings that passed, that failed and that were left undecided.
pub build_report-Counts :
    (py : Runtime) (e : Evidence) (profile : Profile) (at : Option String) (r : Report)
    → build_report py e profile at ≡ some r
    → Evaluates py e profile profile.checks r.findings
      × Counts r.findings r.summary.passed r.summary.failed r.summary.undecided
unfolding tally
build_report-Counts py e profile at r h =
    let (found, counted) = build_report-findings py e profile at r h in
    (
      map_option-Evaluates py e profile profile.checks r.findings found,
      rw counted (Counts-tally r.findings),
    )
