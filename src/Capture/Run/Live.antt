-- ===== src/Capture/Run/Live.antt =====
-- A started run can always come to its end.
use dragon_sniff.Prelude.{String, Bool, true, false, ◌||◌, ◌≡◌, refl, arith}
use dragon_sniff.Prelude.Int.{ℤ}
use dragon_sniff.Capture.Annotate.{Phase, idle, running, stopping, completed, cancelled, failed}
use dragon_sniff.Capture.Run.{
  Worker, absent, created, lost, sampling, leaving, recording, settled, exited, Run, is_terminal,
  is_stopping, finish_if_complete, outcome_of_body, final_phase, Step, Reach,
}
use dragon_sniff.Capture.Run.Ended.{Consistent, HasEnded, Step-Consistent, Reach-Consistent}

-- A series of steps.
pub data Leads (str_of_int : ℤ → String) : Worker → Run → Worker → Run → Type 0 where
  stays : {w : Worker} {s : Run} → Leads str_of_int w s w s
  first :
      {w v u : Worker} {s t r : Run}
      → Step str_of_int w s v t
      → Leads str_of_int v t u r
      → Leads str_of_int w s u r

pub record Finishes (str_of_int : ℤ → String) (w : Worker) (s : Run) : Type 0 where
  pub worker : Worker
  pub run : Run
  pub leads : Leads str_of_int w s worker run
  pub finished : run.finished ≡ true

onward :
    {p : ℤ → String} {w v : Worker} {s t : Run} → Step p w s v t → Finishes p v t → Finishes p w s
onward x f = record {
  worker = f.worker;
  run = f.run;
  leads = Leads.first x f.leads;
  finished = f.finished;
}

terminal_not_stopping : (phase : Phase) → is_terminal phase ≡ true → is_stopping phase ≡ false
terminal_not_stopping idle h = refl
terminal_not_stopping running h = refl
terminal_not_stopping stopping h = cc
terminal_not_stopping completed h = refl
terminal_not_stopping cancelled h = refl
terminal_not_stopping failed h = refl

or_true : (a : Bool) → (a || true) ≡ true
or_true a = ground arith

check_finishes :
    (s : Run)
    → HasEnded s
    → (finish_if_complete (record s { source_alive = false })).finished ≡ true
unfolding finish_if_complete
check_finishes s h =
    rw (h.no_connection, terminal_not_stopping s.phase h.terminal, h.terminal) (or_true s.finished)

-- From each place of the worker.
settled-Finishes : (p : ℤ → String) (s : Run) → HasEnded s → Finishes p settled s
settled-Finishes p s h = onward Step.source_ends (
    onward Step.worker_checks
      (record { worker = settled; run = _; leads = Leads.stays; finished = check_finishes s h }))

exited-Finishes : (p : ℤ → String) (s : Run) → HasEnded s → Finishes p exited s
exited-Finishes p s h = onward Step.source_ends (
    onward (Step.caller_checks refl)
      (record { worker = exited; run = _; leads = Leads.stays; finished = check_finishes s h }))

recording-Finishes :
    (p : ℤ → String) (final : Phase) (s : Run)
    → Consistent (recording final) s
    → Finishes p (recording final) s
recording-Finishes p final s h =
    let x = Step.records in onward x (settled-Finishes p _ (Step-Consistent {p = p} x h))

leaving-Finishes :
    (p : ℤ → String) (outcome : Phase) (s : Run)
    → Consistent (leaving outcome) s
    → Finishes p (leaving outcome) s
leaving-Finishes p outcome s h =
    let x = Step.completes in
    onward x (recording-Finishes p (final_phase outcome s) _ (Step-Consistent {p = p} x h))

sampling-Finishes : (p : ℤ → String) (s : Run) → Consistent sampling s → Finishes p sampling s
sampling-Finishes p s h =
    let x = Step.leaves false false (λ e. cc) in
    onward x (leaving-Finishes p (outcome_of_body false false) _ (Step-Consistent {p = p} x h))

abbrev pub was_started : Worker → Bool
was_started absent = false
was_started lost = false
was_started _ = true

-- No interleaving gets a capture stuck whose thread was made and whose start raised nothing: from each
-- state that is reached, whatever failed since, some further steps make it finished.
pub Reach-Finishes :
    (str_of_int : ℤ → String) (w : Worker) (s : Run)
    → Reach str_of_int w s
    → was_started w ≡ true
    → Finishes str_of_int w s
Reach-Finishes p absent s r h = cc
Reach-Finishes p lost s r h = cc
Reach-Finishes p created s r h =
    onward Step.thread_starts (sampling-Finishes p s (Reach-Consistent r).0)
Reach-Finishes p sampling s r h = sampling-Finishes p s (Reach-Consistent r)
Reach-Finishes p (leaving outcome) s r h = leaving-Finishes p outcome s (Reach-Consistent r)
Reach-Finishes p (recording final) s r h = recording-Finishes p final s (Reach-Consistent r)
Reach-Finishes p settled s r h = settled-Finishes p s (Reach-Consistent r)
Reach-Finishes p exited s r h = exited-Finishes p s (Reach-Consistent r)
