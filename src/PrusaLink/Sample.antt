-- ===== src/PrusaLink/Sample.antt =====
-- What is in a status that was accepted.
use dragon_sniff.Prelude.{
  ◌≤◌, String, Bool, true, false, List, Option, none, some, str_eq, ◌≡◌, arith, ◌++◌,
}
use dragon_sniff.Prelude.Result.{Result, ok, ◌>>=◌, or_raise, >>=-eq-ok}
use mathlib.Core.Path.{subst}
use dragon_sniff.Json.{Value, Fields, Number, get, fields_of, is_finite}
use dragon_sniff.Runtime.{Runtime}
use dragon_sniff.Annotations.{text_length}
use dragon_sniff.PrusaLink.{
  StatusError, status_not_object, no_printer, max_printer_state_characters, Status, finite_number,
  check_state, optional_number, listed_if, parse_printer, parse_prusalink_status,
}

abbrev pub finite_if_given : Option Number → Bool
finite_if_given none = true
finite_if_given (some n) = is_finite n

pub record IsSample (py : Runtime) (s : Status) : Type 0 where
  pub state_given : str_eq (py.strip s.printer_state) "" ≡ false
  pub state_short : text_length s.printer_state ≤ max_printer_state_characters
  pub bed : is_finite s.bed_temperature_c ≡ true
  pub bed_target : is_finite s.bed_target_c ≡ true
  pub nozzle : finite_if_given s.nozzle_temperature_c ≡ true
  pub nozzle_target : finite_if_given s.nozzle_target_c ≡ true

finite_number-is_finite :
    (py : Runtime) (v : Value) (n : Number) → finite_number py v ≡ ok n → is_finite n ≡ true
unfolding finite_number
finite_number-is_finite py v n h = ground arith

check_state-bounds :
    (py : Runtime) (v : Value) (s : String)
    → check_state py v ≡ ok s
    → (str_eq (py.strip s) "" ≡ false) × (text_length s ≤ max_printer_state_characters)
unfolding check_state
check_state-bounds py v s h = ground arith

optional_number-finite :
    (py : Runtime) (fs : Fields) (name : String) (o : Option Number × Bool)
    → optional_number py fs name ≡ ok o
    → finite_if_given o.0 ≡ true
unfolding optional_number finite_number
optional_number-finite py fs name o h = ground arith

parts-eq-ok :
    {A B C D E R : Type 0} (ra : Result StatusError A) (rb : Result StatusError B)
    (rc : Result StatusError C) (rd : Result StatusError D) (re : Result StatusError E)
    (f : A → B → C → D → E → R) {r : R}
    → (ra >>= λ a. rb >>= λ b. rc >>= λ c. rd >>= λ d. re >>= λ e. ok (f a b c d e)) ≡ ok r
    → (a : A) × (b : B) × (c : C) × (d : D) × (e : E) × (ra ≡ ok a)
      × (rb ≡ ok b)
      × (rc ≡ ok c)
      × (rd ≡ ok d)
      × (re ≡ ok e)
      × (f a b c d e ≡ r)
parts-eq-ok ra rb rc rd re f h = ground arith

parse_printer-IsSample :
    (py : Runtime) (fs : Fields) (p : Status × List String)
    → parse_printer py fs ≡ ok p
    → IsSample py p.0
unfolding parse_printer
parse_printer-IsSample py fs p h =
    let (a, b, c, d, e, ha, hb, hc, hd, he, same) =
      parts-eq-ok (check_state py (get fs "state")) (finite_number py (get fs "temp_bed"))
        (finite_number py (get fs "target_bed")) (optional_number py fs "temp_nozzle")
        (optional_number py fs "target_nozzle")
        (λ a b c d e. (
          record {
            printer_state = a;
            bed_temperature_c = b;
            bed_target_c = c;
            nozzle_temperature_c = d.0;
            nozzle_target_c = e.0;
          },
          listed_if d.1 "temp_nozzle" ++ listed_if e.1 "target_nozzle",
        ))
        h in
    let state = check_state-bounds py _ a ha in
    subst (λ (q : Status × List String). IsSample py q.0) same
      (record {
        state_given = state.0;
        state_short = state.1;
        bed = finite_number-is_finite py _ b hb;
        bed_target = finite_number-is_finite py _ c hc;
        nozzle = optional_number-finite py fs "temp_nozzle" d hd;
        nozzle_target = optional_number-finite py fs "target_nozzle" e he;
      })

-- A status that was accepted has a printer state of 1 to 128 characters that is not blank, and every
-- temperature in it is finite.
pub parse_prusalink_status-IsSample :
    (py : Runtime) (v : Value) (p : Status × List String)
    → parse_prusalink_status py v ≡ ok p
    → IsSample py p.0
unfolding parse_prusalink_status
parse_prusalink_status-IsSample py v p h =
    let (fs, _, h₁) =
      >>=-eq-ok (or_raise (fields_of v) status_not_object)
        (λ fs. or_raise (fields_of (get fs "printer")) no_printer >>= parse_printer py) h in
    let (printer, _, h₂) =
      >>=-eq-ok (or_raise (fields_of (get fs "printer")) no_printer) (parse_printer py) h₁ in
    parse_printer-IsSample py printer p h₂
