-- ===== src/Assess/Engine/Cases.antt =====
-- The ways in which `evaluate` returns a finding.
use dragon_sniff.Prelude.{
  ℕ, ◌<◌, List, some, ◌≡◌, refl, arith, ◌>>=◌, >>=-eq-some, some-injective, sym,
}
use dragon_sniff.Runtime.{Runtime}
use dragon_sniff.Assess.Evidence.{Record, Evidence}
use dragon_sniff.Assess.Profile.{Signal, Profile, Check}
use dragon_sniff.Assess.Attempts.{attempts_for}
use dragon_sniff.Assess.Timeline.{Attempt}
use dragon_sniff.Assess.Engine.{
  Slice, Survey, Finding, survey, verdict_of, conclude, window, evaluate, open_window,
  closed_window, WindowResult, Reason, closed_finding, lookup_signal, predicate_of, evaluate_window,
}

pub window-open-lt :
    (e : Evidence) (c : Check) (s : Slice) → window e c ≡ some (open_window s) → s.start < s.stop
unfolding window
window-open-lt e c s h = ground arith

-- How a finding came about.
pub data Evaluated (py : Runtime) (e : Evidence) (profile : Profile) (c : Check) (f : Finding)
    : Type 0 where
  closed :
      (signal : Signal) (reason : Reason)
      → window e c ≡ some (closed_window reason)
      → f ≡ closed_finding signal c reason
      → Evaluated py e profile c f
  opened :
      (signal : Signal) (s : Slice) (as' : List Attempt)
      → window e c ≡ some (open_window s)
      → attempts_for py e signal ≡ some as'
      → f
        ≡ conclude py profile.max_hold_ns signal c s
            (survey e profile.max_hold_ns s (predicate_of c.criterion) as')
      → Evaluated py e profile c f

window-Evaluated :
    (py : Runtime) (e : Evidence) (profile : Profile) (c : Check) (signal : Signal)
    (w : WindowResult) (f : Finding)
    → window e c ≡ some w
    → evaluate_window py e profile c signal w ≡ some f
    → Evaluated py e profile c f
unfolding evaluate_window
window-Evaluated py e profile c signal (closed_window reason) f at h =
    closed signal reason at (sym (some-injective h))
window-Evaluated py e profile c signal (open_window s) f at h =
    let (as', g, k) =
      >>=-eq-some (attempts_for py e signal)
        (λ as'. some (
          conclude py profile.max_hold_ns signal c s
            (survey e profile.max_hold_ns s (predicate_of c.criterion) as')))
        h in
    opened signal s as' at g (sym (some-injective k))

pub evaluate-Evaluated :
    (py : Runtime) (e : Evidence) (profile : Profile) (c : Check) (f : Finding)
    → evaluate py e profile c ≡ some f
    → Evaluated py e profile c f
unfolding evaluate
evaluate-Evaluated py e profile c f h =
    let (signal, found, h₁) =
      >>=-eq-some (lookup_signal c.signal profile.signals)
        (λ signal. window e c >>= evaluate_window py e profile c signal) h in
    let (w, at, h₂) = >>=-eq-some (window e c) (evaluate_window py e profile c signal) h₁ in
    window-Evaluated py e profile c signal w f at h₂

pub evaluate-open :
    (py : Runtime) (e : Evidence) (profile : Profile) (c : Check) (signal : Signal) (s : Slice)
    (as' : List Attempt)
    → lookup_signal c.signal profile.signals ≡ some signal
    → window e c ≡ some (open_window s)
    → attempts_for py e signal ≡ some as'
    → evaluate py e profile c
      ≡ some (
          conclude py profile.max_hold_ns signal c s
            (survey e profile.max_hold_ns s (predicate_of c.criterion) as'))
unfolding evaluate evaluate_window
evaluate-open py e profile c signal s as' a b d = rw (a, b) (rw d)

pub result-conclude :
    (py : Runtime) (hold_ns : ℕ) (signal : Signal) (c : Check) (s : Slice) (v : Survey)
    → (conclude py hold_ns signal c s v).result ≡ verdict_of c.criterion s v
unfolding conclude
result-conclude py hold_ns signal c s v = refl

-- An open window ends the slice at the run's terminal record.
pub window-terminal :
    (e : Evidence) (c : Check) (s : Slice) (terminal : Record)
    → e.run.terminal ≡ some terminal
    → window e c ≡ some (open_window s)
    → s.terminal_sequence ≡ terminal.sequence
unfolding window
window-terminal e c s terminal is h = ground arith
