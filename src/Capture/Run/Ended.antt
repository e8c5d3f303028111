-- ===== src/Capture/Run/Ended.antt =====
-- A run that is finished has said how it ended, whatever the interleaving was.
use dragon_sniff.Prelude.{
  ℕ, ◌+◌, String, Bool, true, false, not, ◌||◌, Option, none, some, ◌==◌, ◌≡◌, refl, arith, ap, sym,
  ◌∙◌, ◌⊎◌, Bool-cases, inl, inr,
}
use mathlib.Core.Path.{subst}
use dragon_sniff.Prelude.Int.{ℤ}
use dragon_sniff.Client.Fetch.{FetchResult}
use dragon_sniff.Capture.Annotate.{Phase, failed}
use dragon_sniff.Capture.Run.{
  Worker, absent, created, lost, sampling, leaving, recording, settled, exited, Run, is_terminal,
  is_idle, is_alive, see_boot_id, observe_boot_id, boot_id_text, boot_id_of, sample, one_if,
  Endpoint, info, state, health, finish_if_complete, request_stop, is_held, is_stopping,
  outcome_of_body, final_phase, Step, Reach,
}

-- What holds of a run by where its worker is: before its end, while it ends, and behind it.
pub record Runs (s : Run) : Type 0 where
  pub open_phase : is_terminal s.phase ≡ false
  pub unfinished : s.finished ≡ false
  pub no_record : s.ended ≡ none

pub record Ends (final : Phase) (s : Run) : Type 0 where
  pub at : s.phase ≡ final
  pub terminal : is_terminal final ≡ true
  pub unfinished : s.finished ≡ false
  pub idle_connection : s.connections ≡ 0

pub record HasEnded (s : Run) : Type 0 where
  pub terminal : is_terminal s.phase ≡ true
  pub recorded : (s.ended ≡ some s.phase) ⊎ (s.phase ≡ failed)
  pub no_connection : s.connections ≡ 0
  pub no_source : s.finished ≡ true → s.source_alive ≡ false

abbrev pub Consistent : Worker → Run → Type 0
Consistent absent s = Runs s × (s.connections ≡ 0)
Consistent created s = Runs s × (s.connections ≡ 0)
Consistent lost s = Runs s × (s.connections ≡ 0)
Consistent sampling s = Runs s
Consistent (leaving outcome) s = Runs s × (s.connections ≡ 0) × (is_terminal outcome ≡ true)
Consistent (recording final) s = Ends final s
Consistent settled s = HasEnded s
Consistent exited s = HasEnded s

outcome_of_body-terminal :
    (cancel raised_ : Bool) → is_terminal (outcome_of_body cancel raised_) ≡ true
outcome_of_body-terminal true raised_ = refl
outcome_of_body-terminal false true = refl
outcome_of_body-terminal false false = refl

request_stop-Runs : (s : Run) → Runs s → Runs (request_stop s)
request_stop-Runs s r = elim (Bool-cases (is_terminal s.phase || is_idle s.phase)) [
  | inl over ↦ rw over r
  | inr live ↦
      rw live (record { open_phase = refl; unfinished = r.unfinished; no_record = r.no_record })
]

request_stop_ended : (s : Run) → is_terminal s.phase ≡ true → request_stop s ≡ s
request_stop_ended s h = rw h refl

see_boot_id-Runs : (o : Option String) (n : ℕ) (s : Run) → Runs s → Runs (see_boot_id o n s)
see_boot_id-Runs none n s h = h
see_boot_id-Runs (some b) n s h = record {
  open_phase = h.open_phase;
  unfinished = h.unfinished;
  no_record = h.no_record;
}

sample-Runs :
    (p : ℤ → String) (path : Endpoint) (r : FetchResult) (s : Run)
    → Runs s
    → Runs (sample p path r s)
unfolding sample observe_boot_id
sample-Runs p info r s h = record {
  open_phase = h.open_phase;
  unfinished = h.unfinished;
  no_record = h.no_record;
}
sample-Runs p state r s h = record {
  open_phase = h.open_phase;
  unfinished = h.unfinished;
  no_record = h.no_record;
}
sample-Runs p health r s h =
    see_boot_id-Runs (boot_id_text p (boot_id_of r.parsed)) (s.fetches_completed + 1)
      (record s {
        fetches_completed = s.fetches_completed + 1;
        health_successes = s.health_successes + one_if r.is_ok;
        health_failures = s.health_failures + one_if (not r.is_ok);
      })
      (record { open_phase = h.open_phase; unfinished = h.unfinished; no_record = h.no_record })

-- A step that leaves the phase, the events and the record leaves all of it.
Runs-transport :
    (s t : Run) → t.phase ≡ s.phase → t.finished ≡ s.finished → t.ended ≡ s.ended → Runs s → Runs t
Runs-transport s t e f g h = record {
  open_phase = ap is_terminal e ∙ h.open_phase;
  unfinished = f ∙ h.unfinished;
  no_record = g ∙ h.no_record;
}

-- Before the end a check finishes nothing.
finish_if_complete-Runs :
    (s : Run)
    → Runs s
    → Runs (finish_if_complete s) × ((finish_if_complete s).connections ≡ s.connections)
unfolding finish_if_complete
finish_if_complete-Runs s h = elim (Bool-cases (is_held s)) [
  | inl held ↦ rw held (h, refl)
  | inr free ↦ rw free (
    record {
      open_phase = h.open_phase;
      unfinished = rw (h.unfinished, h.open_phase) refl;
      no_record = h.no_record;
    },
    refl,
  )
]

no_source_held : (c : Bool) (source stop : Bool) → (c || (source || stop)) ≡ false → source ≡ false
no_source_held c source stop h = ground (arith, h)

finish_if_complete-HasEnded : (s : Run) → HasEnded s → HasEnded (finish_if_complete s)
unfolding finish_if_complete
finish_if_complete-HasEnded s h = elim (Bool-cases (is_held s)) [
  | inl held ↦ rw held h
  | inr free ↦ rw free (record {
    terminal = h.terminal;
    recorded = h.recorded;
    no_connection = h.no_connection;
    no_source =
        λ done. no_source_held (not (s.connections == 0)) s.source_alive (is_stopping s.phase) free;
  })
]

final_phase-terminal :
    (outcome : Phase) (s : Run)
    → is_terminal outcome ≡ true
    → is_terminal (final_phase outcome s) ≡ true
final_phase-terminal outcome s h = elim (Bool-cases s.cancel) [
  | inl stopped ↦ rw stopped refl
  | inr on ↦ rw on h
]

source_ends-Consistent :
    (w : Worker) (s : Run) → Consistent w s → Consistent w (record s { source_alive = false })
source_ends-Consistent absent s h = (Runs-transport s _ refl refl refl h.0, h.1)
source_ends-Consistent created s h = (Runs-transport s _ refl refl refl h.0, h.1)
source_ends-Consistent lost s h = (Runs-transport s _ refl refl refl h.0, h.1)
source_ends-Consistent sampling s h = Runs-transport s _ refl refl refl h
source_ends-Consistent (leaving outcome) s h = (Runs-transport s _ refl refl refl h.0, h.1, h.2)
source_ends-Consistent (recording final) s h = record {
  at = h.at;
  terminal = h.terminal;
  unfinished = h.unfinished;
  idle_connection = h.idle_connection;
}
source_ends-Consistent settled s h = record {
  terminal = h.terminal;
  recorded = h.recorded;
  no_connection = h.no_connection;
  no_source = λ done. refl;
}
source_ends-Consistent exited s h = record {
  terminal = h.terminal;
  recorded = h.recorded;
  no_connection = h.no_connection;
  no_source = λ done. refl;
}

cancel-Consistent :
    (w : Worker) (s : Run) → Consistent w s → Consistent w (record s { cancel = true })
cancel-Consistent absent s h = (Runs-transport s _ refl refl refl h.0, h.1)
cancel-Consistent created s h = (Runs-transport s _ refl refl refl h.0, h.1)
cancel-Consistent lost s h = (Runs-transport s _ refl refl refl h.0, h.1)
cancel-Consistent sampling s h = Runs-transport s _ refl refl refl h
cancel-Consistent (leaving outcome) s h = (Runs-transport s _ refl refl refl h.0, h.1, h.2)
cancel-Consistent (recording final) s h = record {
  at = h.at;
  terminal = h.terminal;
  unfinished = h.unfinished;
  idle_connection = h.idle_connection;
}
cancel-Consistent settled s h = record {
  terminal = h.terminal;
  recorded = h.recorded;
  no_connection = h.no_connection;
  no_source = h.no_source;
}
cancel-Consistent exited s h = record {
  terminal = h.terminal;
  recorded = h.recorded;
  no_connection = h.no_connection;
  no_source = h.no_source;
}

request_stop-connections : (s : Run) → (request_stop s).connections ≡ s.connections
request_stop-connections s = elim (Bool-cases (is_terminal s.phase || is_idle s.phase)) [
  | inl over ↦ rw over refl
  | inr live ↦ rw live refl
]

request_stop-Consistent : (w : Worker) (s : Run) → Consistent w s → Consistent w (request_stop s)
request_stop-Consistent absent s h = (request_stop-Runs s h.0, request_stop-connections s ∙ h.1)
request_stop-Consistent created s h = (request_stop-Runs s h.0, request_stop-connections s ∙ h.1)
request_stop-Consistent lost s h = (request_stop-Runs s h.0, request_stop-connections s ∙ h.1)
request_stop-Consistent sampling s h = request_stop-Runs s h
request_stop-Consistent (leaving outcome) s h =
    (request_stop-Runs s h.0, request_stop-connections s ∙ h.1, h.2)
request_stop-Consistent (recording final) s h =
    subst (Ends final) (sym (request_stop_ended s (ap is_terminal h.at ∙ h.terminal))) h
request_stop-Consistent settled s h = subst HasEnded (sym (request_stop_ended s h.terminal)) h
request_stop-Consistent exited s h = subst HasEnded (sym (request_stop_ended s h.terminal)) h

caller-Consistent :
    (w : Worker) (s : Run)
    → is_alive w ≡ false
    → Consistent w s
    → Consistent w (finish_if_complete s)
caller-Consistent absent s dead h = let c = finish_if_complete-Runs s h.0 in (c.0, c.1 ∙ h.1)
caller-Consistent created s dead h = let c = finish_if_complete-Runs s h.0 in (c.0, c.1 ∙ h.1)
caller-Consistent lost s dead h = let c = finish_if_complete-Runs s h.0 in (c.0, c.1 ∙ h.1)
caller-Consistent sampling s dead h = cc
caller-Consistent (leaving outcome) s dead h = cc
caller-Consistent (recording final) s dead h = cc
caller-Consistent settled s dead h = cc
caller-Consistent exited s dead h = finish_if_complete-HasEnded s h

pub Step-Consistent :
    {p : ℤ → String} {w w' : Worker} {s s' : Run}
    → Step p w s w' s'
    → Consistent w s
    → Consistent w' s'
Step-Consistent (Step.starts {s = s} source fresh) h =
    (record { open_phase = refl; unfinished = h.0.unfinished; no_record = h.0.no_record }, h.1)
Step-Consistent (Step.starts_unrecorded fresh) h =
    (record { open_phase = refl; unfinished = h.0.unfinished; no_record = h.0.no_record }, h.1)
Step-Consistent (Step.starts_without_thread source fresh) h =
    (record { open_phase = refl; unfinished = h.0.unfinished; no_record = h.0.no_record }, h.1)
Step-Consistent Step.thread_refused h = h
Step-Consistent Step.thread_starts h = h.0
Step-Consistent (Step.fetch_begins {s = s}) h = Runs-transport s _ refl refl refl h
Step-Consistent {p = p} (Step.fetch_ends {s = s} path r) h =
    sample-Runs p path r (record s { connections = 0 }) (Runs-transport s _ refl refl refl h)
Step-Consistent (Step.leaves {s = s} seen raised_ honest) h =
    (Runs-transport s _ refl refl refl h, refl, outcome_of_body-terminal seen raised_)
Step-Consistent (Step.completes {s = s} {outcome = outcome}) h = record {
  at = refl;
  terminal = final_phase-terminal outcome s h.2;
  unfinished = h.0.unfinished;
  idle_connection = h.1;
}
Step-Consistent (Step.records {s = s} {final = final}) h = record {
  terminal = ap is_terminal h.at ∙ h.terminal;
  recorded = inl (ap some (sym h.at));
  no_connection = h.idle_connection;
  no_source = λ done. cc (h.unfinished, done);
}
Step-Consistent (Step.fails_to_record {s = s}) h = record {
  terminal = refl;
  recorded = inr refl;
  no_connection = h.idle_connection;
  no_source = λ done. cc (h.unfinished, done);
}
Step-Consistent (Step.worker_checks {s = s}) h = finish_if_complete-HasEnded s h
Step-Consistent Step.thread_ends h = h
Step-Consistent (Step.source_ends {w = w} {s = s}) h = source_ends-Consistent w s h
Step-Consistent (Step.stop_requested {w = w} {s = s}) h = request_stop-Consistent w s h
Step-Consistent (Step.cancel_set {w = w} {s = s}) h = cancel-Consistent w s h
Step-Consistent (Step.caller_checks {w = w} {s = s} dead) h = caller-Consistent w s dead h

pub Reach-Consistent : {p : ℤ → String} {w : Worker} {s : Run} → Reach p w s → Consistent w s
Reach-Consistent Reach.begins =
    (record { open_phase = refl; unfinished = refl; no_record = refl }, refl)
Reach-Consistent (Reach.then r x) = Step-Consistent x (Reach-Consistent r)

finished-HasEnded : (w : Worker) (s : Run) → Consistent w s → s.finished ≡ true → HasEnded s
finished-HasEnded absent s h done = cc (h.0.unfinished, done)
finished-HasEnded created s h done = cc (h.0.unfinished, done)
finished-HasEnded lost s h done = cc (h.0.unfinished, done)
finished-HasEnded sampling s h done = cc (h.unfinished, done)
finished-HasEnded (leaving outcome) s h done = cc (h.0.unfinished, done)
finished-HasEnded (recording final) s h done = cc (h.unfinished, done)
finished-HasEnded settled s h done = h
finished-HasEnded exited s h done = h

-- In every interleaving of the worker, the callers and the printer's source, a capture that is finished
-- is in a terminal state, has a terminal record of that state or is marked as failed, and has no open
-- connection and no source that runs.
pub Reach-HasEnded :
    (str_of_int : ℤ → String) (w : Worker) (s : Run)
    → Reach str_of_int w s
    → s.finished ≡ true
    → HasEnded s × (s.source_alive ≡ false)
Reach-HasEnded str_of_int w s r done =
    let e = finished-HasEnded w s (Reach-Consistent r) done in (e, e.no_source done)
