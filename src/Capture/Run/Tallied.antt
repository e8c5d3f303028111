-- ===== src/Capture/Run/Tallied.antt =====
-- The counters of a run add up.
use dragon_sniff.Prelude.{
  ℕ, ◌+◌, ◌≤◌, String, Bool, true, false, not, ◌||◌, Option, none, some, str_eq, All, All-append,
  ◌≡◌, arith, Bool-cases, inl, inr,
}
use dragon_sniff.Prelude.Int.{ℤ}
use dragon_sniff.Client.Fetch.{FetchResult}
use dragon_sniff.Capture.Run.{
  Worker, Run, Endpoint, info, state, health, BootChange, changes_after, see_boot_id, boot_id_text,
  boot_id_of, observe_boot_id, one_if, sample, is_held, finish_if_complete, is_terminal, is_idle,
  request_stop, Step, Reach,
}

-- Each state sample is a success or a failure; the answers are no more than the fetches; and a change of
-- the boot id is one.
abbrev pub Tallied : Run → Type 0
Tallied s =
    (s.samples_completed ≡ s.state_successes + s.state_failures)
    × (s.samples_completed + s.health_successes + s.health_failures ≤ s.fetches_completed)
    × All (λ (c : BootChange). str_eq c.previous c.current ≡ false) s.boot_id_changes

one_of_two : (b : Bool) → one_if b + one_if (not b) ≡ 1
one_of_two true = omega arith
one_of_two false = omega arith

changes_after-All :
    (initial previous : Option String) (boot_id : String) (n : ℕ)
    → All
        (λ (c : BootChange). str_eq c.previous c.current ≡ false)
        (changes_after initial previous boot_id n)
changes_after-All none previous boot_id n = tt
changes_after-All (some i) none boot_id n = tt
changes_after-All (some i) (some previous) boot_id n = elim (Bool-cases (str_eq previous boot_id)) [
  | inl same ↦ rw same tt
  | inr other ↦ rw other (other, tt)
]

see_boot_id-Tallied :
    (o : Option String) (n : ℕ) (s : Run) → Tallied s → Tallied (see_boot_id o n s)
see_boot_id-Tallied none n s h = h
see_boot_id-Tallied (some b) n s h = (
  h.0,
  h.1,
  All-append (λ (c : BootChange). str_eq c.previous c.current ≡ false) s.boot_id_changes
      (changes_after s.initial_boot_id s.latest_boot_id b n) h.2
      (changes_after-All s.initial_boot_id s.latest_boot_id b n),
)

sample-Tallied :
    (p : ℤ → String) (path : Endpoint) (r : FetchResult) (s : Run)
    → Tallied s
    → Tallied (sample p path r s)
unfolding sample observe_boot_id
sample-Tallied p info r s h = (h.0, omega (arith, h.1), h.2)
sample-Tallied p state r s h = (omega (arith, h.0, one_of_two r.is_ok), omega (arith, h.1), h.2)
sample-Tallied p health r s h =
    see_boot_id-Tallied (boot_id_text p (boot_id_of r.parsed)) (s.fetches_completed + 1)
      (record s {
        fetches_completed = s.fetches_completed + 1;
        health_successes = s.health_successes + one_if r.is_ok;
        health_failures = s.health_failures + one_if (not r.is_ok);
      })
      (h.0, omega (arith, h.1, one_of_two r.is_ok), h.2)

request_stop-Tallied : (s : Run) → Tallied s → Tallied (request_stop s)
request_stop-Tallied s h = elim (Bool-cases (is_terminal s.phase || is_idle s.phase)) [
  | inl over ↦ rw over h
  | inr live ↦ rw live h
]

finish_if_complete-Tallied : (s : Run) → Tallied s → Tallied (finish_if_complete s)
unfolding finish_if_complete
finish_if_complete-Tallied s h = elim (Bool-cases (is_held s)) [
  | inl held ↦ rw held h
  | inr free ↦ rw free h
]

Step-Tallied :
    {p : ℤ → String} {w w' : Worker} {s s' : Run} → Step p w s w' s' → Tallied s → Tallied s'
Step-Tallied (Step.starts source fresh) h = h
Step-Tallied (Step.starts_unrecorded fresh) h = h
Step-Tallied (Step.starts_without_thread source fresh) h = h
Step-Tallied Step.thread_refused h = h
Step-Tallied Step.thread_starts h = h
Step-Tallied Step.fetch_begins h = h
Step-Tallied {p = p} (Step.fetch_ends {s = s} path r) h =
    sample-Tallied p path r (record s { connections = 0 }) h
Step-Tallied (Step.leaves seen raised_ honest) h = h
Step-Tallied Step.completes h = h
Step-Tallied Step.records h = h
Step-Tallied Step.fails_to_record h = h
Step-Tallied (Step.worker_checks {s = s}) h = finish_if_complete-Tallied s h
Step-Tallied Step.thread_ends h = h
Step-Tallied Step.source_ends h = h
Step-Tallied (Step.stop_requested {s = s}) h = request_stop-Tallied s h
Step-Tallied Step.cancel_set h = h
Step-Tallied (Step.caller_checks {s = s} dead) h = finish_if_complete-Tallied s h

-- In every interleaving each state sample is counted as a success or as a failure, the answers that are
-- counted are no more than the fetches that ended, and every change of the boot id that is listed is
-- from one id to another.
pub Reach-Tallied :
    (str_of_int : ℤ → String) (w : Worker) (s : Run) → Reach str_of_int w s → Tallied s
Reach-Tallied p w s Reach.begins = (omega arith, omega arith, tt)
Reach-Tallied p w s (Reach.then {w = v} {s = t} r x) = Step-Tallied x (Reach-Tallied p v t r)
