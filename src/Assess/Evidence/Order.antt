-- ===== src/Assess/Evidence/Order.antt =====
-- The order of the records that `load_evidence` accepts.
use dragon_sniff.Prelude.{
  ℕ, suc, ◌+◌, ◌<◌, List, [], ◌∷◌, Option, none, some, ◌≡◌, refl, arith, Bool-cases, ◌==◌, inl, inr,
  length, ap,
}
use dragon_sniff.Runtime.{Runtime, Bytes}
use dragon_sniff.Prelude.Result.{Result, ok, ◌>>=◌, >>=-eq-ok}
use dragon_sniff.Assess.Evidence.{
  EvidenceError, Record, Evidence, parse_line, check_order, parse_lines, load_evidence, split_lines,
  prepend, without_last, gaps, run,
}

-- Sequences rise strictly, from above `low`.
abbrev pub IsAscending : ℕ → List Record → Type 0
IsAscending low [] = Unit
IsAscending low (r ∷ rs) = (low < r.sequence) × IsAscending r.sequence rs

abbrev sequence_of : Option Record → ℕ
sequence_of none = 0
sequence_of (some r) = r.sequence

parse_line-positive :
    (py : Runtime) (n : ℕ) (line : Bytes) (r : Record)
    → parse_line py n line ≡ ok r
    → 0 < r.sequence
unfolding parse_line
parse_line-positive py n line r h = ground arith

check_order-lt :
    (n : ℕ) (previous : Option Record) (r : Record) (u : Unit {0})
    → 0 < r.sequence
    → check_order n previous r ≡ ok u
    → sequence_of previous < r.sequence
unfolding check_order
check_order-lt n none r u p h = p
check_order-lt n (some q) r u p h = ground arith

-- What a successful round of the loop went through.
round-eq-ok :
    (blank : Result EvidenceError (Unit {0})) (parsed : Result EvidenceError Record)
    (check : Record → Result EvidenceError (Unit {0}))
    (more : Record → Result EvidenceError (List Record)) {rs : List Record}
    → (blank >>= λ _. parsed >>= λ r. check r >>= λ _. more r >>= λ rest. ok (r ∷ rest)) ≡ ok rs
    → (r : Record) × (rest : List Record) × (u : Unit {0}) × (parsed ≡ ok r)
      × (check r ≡ ok u)
      × (more r ≡ ok rest)
      × (rs ≡ r ∷ rest)
round-eq-ok blank parsed check more h =
    let (_, _, h₁) =
      >>=-eq-ok blank (λ _. parsed >>= λ r. check r >>= λ _. more r >>= λ rest. ok (r ∷ rest)) h in
    let (r, p, h₂) = >>=-eq-ok parsed (λ r. check r >>= λ _. more r >>= λ rest. ok (r ∷ rest)) h₁ in
    let (u, c, h₃) = >>=-eq-ok (check r) (λ _. more r >>= λ rest. ok (r ∷ rest)) h₂ in
    let (rest, m, h₄) = >>=-eq-ok (more r) (λ rest. ok (r ∷ rest)) h₃ in (r, rest, u, p, c, m, cc)

pub parse_lines-IsAscending :
    (py : Runtime) (n : ℕ) (previous : Option Record) (lines : List Bytes) (rs : List Record)
    → parse_lines py n previous lines ≡ ok rs
    → IsAscending (sequence_of previous) rs
unfolding parse_lines
parse_lines-IsAscending py n previous [] [] h = tt
parse_lines-IsAscending py n previous [] (r ∷ rs) h = cc
parse_lines-IsAscending py n previous (line ∷ lines) rs h =
    let (r, rest, u, parsed, checked, more, e) =
      round-eq-ok _ (parse_line py n line) (check_order n previous)
        (λ r. parse_lines py (n + 1) (some r) lines) h in
    rw e (
      check_order-lt n previous r u (parse_line-positive py n line r parsed) checked,
      parse_lines-IsAscending py (n + 1) (some r) lines rest more,
    )

-- One record for each line.
pub length-parse_lines :
    (py : Runtime) (n : ℕ) (previous : Option Record) (lines : List Bytes) (rs : List Record)
    → parse_lines py n previous lines ≡ ok rs
    → length rs ≡ length lines
unfolding parse_lines
length-parse_lines py n previous [] [] h = refl
length-parse_lines py n previous [] (r ∷ rs) h = cc
length-parse_lines py n previous (line ∷ lines) rs h =
    let (r, rest, u, parsed, checked, more, e) =
      round-eq-ok _ (parse_line py n line) (check_order n previous)
        (λ r. parse_lines py (n + 1) (some r) lines) h in
    rw e (ap suc (length-parse_lines py (n + 1) (some r) lines rest more))

length-split_lines : (data_bytes : Bytes) → 0 < length (split_lines data_bytes)
unfolding split_lines
length-split_lines [] = omega arith
length-split_lines (c ∷ cs) = elim (Bool-cases (c == 10)) [
  | inl e ↦ rw e (omega arith)
  | inr e ↦ rw e (positive c (split_lines cs))
]
  where
    positive : (c : ℕ) (ls : List Bytes) → 0 < length (prepend c ls)
    positive c [] = omega arith
    positive c (l ∷ ls) = omega arith

-- `load_evidence` derives everything from the records of the loop.
pub record Loaded (py : Runtime) (data_bytes : Bytes) (e : Evidence) : Type 0 where
  pub parsed : parse_lines py 1 none (split_lines (without_last data_bytes)) ≡ ok e.records
  pub gaps_are : e.gaps ≡ gaps e.records
  pub run_is : e.run ≡ run e.records

pub load_evidence-Loaded :
    (py : Runtime) (data_bytes : Bytes) (metadata : Option Bytes) (e : Evidence)
    → load_evidence py data_bytes metadata ≡ ok e
    → Loaded py data_bytes e
unfolding load_evidence
load_evidence-Loaded py data_bytes metadata e h = ground arith

-- The records of accepted evidence have strictly rising, positive sequences, and there is one for
-- each line of the file, so at least one.
pub load_evidence-IsAscending :
    (py : Runtime) (data_bytes : Bytes) (metadata : Option Bytes) (e : Evidence)
    → load_evidence py data_bytes metadata ≡ ok e
    → IsAscending 0 e.records
      × (length e.records ≡ length (split_lines (without_last data_bytes)))
      × (0 < length e.records)
load_evidence-IsAscending py data_bytes metadata e h =
    let l = load_evidence-Loaded py data_bytes metadata e h in
    let lines = split_lines (without_last data_bytes) in
    let same = length-parse_lines py 1 none lines e.records l.parsed in
    (
      parse_lines-IsAscending py 1 none lines e.records l.parsed,
      same,
      omega (arith, length-split_lines (without_last data_bytes), same),
    )
