-- ===== src/Assess/Engine/Soundness.antt =====
-- What a PASS of `holds_throughout` promises.
use dragon_sniff.Prelude.{
  ℕ, ◌+◌, ◌-◌, ◌≤◌, ◌<◌, Bool, true, false, List, [], ◌∷◌, some, ◌≡◌, refl, arith, Bool-cases, inl,
  inr, All, In, All-In, In-map, first-select, map, ap, sym, ◌∙◌,
}
use mathlib.Core.Path.{subst}
use dragon_sniff.Runtime.{Runtime}
use dragon_sniff.Assess.Evidence.{Evidence, missing_between}
use dragon_sniff.Assess.Profile.{Signal, Profile, Check, Predicate, holds_throughout}
use dragon_sniff.Assess.Attempts.{attempts_for}
use dragon_sniff.Assess.Attempts.Pairing.{IsTimed, attempts_for-IsTimed}
use dragon_sniff.Assess.Timeline.{Attempt, Truth, Judged, Piece, Bounds, pieces}
use dragon_sniff.Assess.Timeline.Integrate.{covers, truth_at, integrate_full}
use dragon_sniff.Assess.Timeline.Sweep.{is_known}
use dragon_sniff.Assess.Timeline.Holds.{AreTimed, IsHeld, pieces-IsHeld}
use dragon_sniff.Assess.Engine.Cases.{
  Evaluated, closed, opened, evaluate-Evaluated, window-open-lt, result-conclude,
}
use dragon_sniff.Assess.Engine.{
  Slice, Survey, Finding, pass, inconclusive, truth, judge, survey, verdict_of, conclude, window,
  evaluate, open_window, predicate_of, timeline, bounds_of,
}

-- At the instant `t` the predicate rests on an attempt: one that is valid and satisfies it, was
-- begun by then, and is not older than the hold.
pub record IsSupported (p : Predicate) (hold_ns : ℕ) (as' : List Attempt) (t : ℕ) : Type 0 where
  pub attempt : Attempt
  pub member : In attempt as'
  pub is_valid : attempt.valid ≡ true
  pub satisfied : truth p attempt ≡ some true
  pub begun : attempt.start_ns ≤ t
  pub fresh : t < attempt.start_ns + hold_ns

truth_if_known : (u : Truth) → is_known true u ≡ true → u ≡ some true
truth_if_known u h = ground arith

-- Where the pieces are true, one of them covers the instant and is true.
true_piece :
    (ps : List Piece) (t : ℕ)
    → truth_at ps t ≡ some true
    → (q : Piece) × In q ps × (covers t q ≡ true) × (q.truth ≡ some true)
unfolding truth_at
true_piece ps t h =
    let (q, m, c, r) = first-select (covers t) (λ q. is_known true q.truth) ps (ground arith) in
    (q, m, c, truth_if_known q.truth (r (ground arith)))

judged-AreTimed :
    (incomplete : Bool) (p : Predicate) (as' : List Attempt)
    → All IsTimed as'
    → AreTimed (map (judge incomplete p) as')
judged-AreTimed incomplete p [] h = tt
judged-AreTimed incomplete p (a ∷ as') h = (h.0, judged-AreTimed incomplete p as' h.1)

pieces-IsSupported :
    (b : Bounds) (p : Predicate) (as' : List Attempt) (t : ℕ)
    → All IsTimed as'
    → truth_at (pieces b (map (judge false p) as')) t ≡ some true
    → IsSupported p b.hold_ns as' t
pieces-IsSupported b p as' t timed h =
    let (q, m, c, is_true) = true_piece (pieces b (map (judge false p) as')) t h in
    let (source, n, j) =
      All-In (IsHeld b (map (judge false p) as')) q (pieces b (map (judge false p) as'))
        (pieces-IsHeld b (map (judge false p) as') (judged-AreTimed false p as' timed)) m in
    let (a, k, e) = In-map (judge false p) source as' n in
    record {
      attempt = a;
      member = k;
      is_valid = subst (λ (s : Judged). s.0.valid ≡ true) e j.is_valid;
      satisfied = subst (λ (s : Judged). s.1 ≡ some true) e (j.claims true is_true);
      begun = let from = subst (λ (s : Judged). s.0.start_ns ≤ q.start) e j.begins in ground arith;
      fresh =
          let until = subst (λ (s : Judged). q.stop ≤ s.0.start_ns + b.hold_ns) e j.fresh in
          ground arith;
    }

nothing_true : (t : ℕ) → truth_at [] t ≡ some true → ⊥
unfolding truth_at
nothing_true t h = cc

module _ (e : Evidence) (hold_ns : ℕ) (s : Slice) (p : Predicate) (as' : List Attempt) where
  timeline-IsSupported :
      (t : ℕ)
      → All IsTimed as'
      → truth_at (timeline e hold_ns s p as') t ≡ some true
      → (missing_between e.gaps 1 s.terminal_sequence ≡ false) × IsSupported p hold_ns as' t
  unfolding timeline
  timeline-IsSupported t timed h =
      elim (Bool-cases (missing_between e.gaps 1 s.terminal_sequence)) [
        | inl gap ↦ absurd (nothing_true t (rw gap at h))
        | inr whole ↦
            (whole, pieces-IsSupported (bounds_of e hold_ns s) p as' t timed (rw whole at h))
      ]

  survey_full :
      (t : ℕ)
      → All IsTimed as'
      → (survey e hold_ns s p as').integral.true_ns ≡ s.stop - s.start
      → s.start ≤ t
      → t < s.stop
      → ((survey e hold_ns s p as').incomplete ≡ false) × IsSupported p hold_ns as' t
  unfolding survey
  survey_full t timed full lo hi =
      timeline-IsSupported t timed
        (integrate_full (timeline e hold_ns s p as') s.start s.stop (omega arith) t full lo hi)

inconclusive_ne_pass : inconclusive ≡ pass → ⊥
inconclusive_ne_pass h = cc

-- A PASS of `conclude` is a full timeline.
full_if_pass :
    (p : Predicate) (s : Slice) (v : Survey)
    → verdict_of (holds_throughout p) s v ≡ pass
    → v.integral.true_ns ≡ s.stop - s.start
unfolding verdict_of
full_if_pass p s v h = ground arith

-- What a PASS of `holds_throughout p` rests on: an open window, in which every instant is supported,
-- and evidence with no missing sequence up to the end of the run.
pub record PassRests (py : Runtime) (e : Evidence) (profile : Profile) (c : Check) (p : Predicate)
    : Type 0 where
  pub signal : Signal
  pub slice : Slice
  pub attempts : List Attempt
  pub is_open : window e c ≡ some (open_window slice)
  pub are_attempts : attempts_for py e signal ≡ some attempts
  pub not_empty : slice.start < slice.stop
  pub gapless : missing_between e.gaps 1 slice.terminal_sequence ≡ false
  pub supported :
      (t : ℕ) → slice.start ≤ t → t < slice.stop → IsSupported p profile.max_hold_ns attempts t

survey-incomplete :
    (e : Evidence) (hold_ns : ℕ) (s : Slice) (p : Predicate) (as' : List Attempt)
    → (survey e hold_ns s p as').incomplete ≡ missing_between e.gaps 1 s.terminal_sequence
unfolding survey
survey-incomplete e hold_ns s p as' = refl

rests_of_pass :
    (py : Runtime) (e : Evidence) (profile : Profile) (c : Check) (p : Predicate) (f : Finding)
    → c.criterion ≡ holds_throughout p
    → Evaluated py e profile c f
    → f.result ≡ pass
    → PassRests py e profile c p
rests_of_pass py e profile c p f kind (closed signal reason at is) won =
    absurd (inconclusive_ne_pass (sym (ap (λ (g : Finding). g.result) is) ∙ won))
rests_of_pass py e profile c p f kind (opened signal s as' at of is) won =
    let hold_ns = profile.max_hold_ns in
    let v = survey e hold_ns s p as' in
    let is' =
      subst (λ k. f ≡ conclude py hold_ns signal c s (survey e hold_ns s (predicate_of k) as')) kind
        is in
    let won' : verdict_of (holds_throughout p) s v ≡ pass =
      subst (λ k. verdict_of k s v ≡ pass) kind
        (sym (result-conclude py hold_ns signal c s v)
          ∙ sym (ap (λ (g : Finding). g.result) is')
          ∙ won) in
    let lt = window-open-lt e c s at in
    let timed = attempts_for-IsTimed py e signal as' of in
    let at_instant = λ (t : ℕ) (lo : s.start ≤ t) (hi : t < s.stop).
      survey_full e hold_ns s p as' t timed (full_if_pass p s v won') lo hi in
    record {
      signal = signal;
      slice = s;
      attempts = as';
      is_open = at;
      are_attempts = of;
      not_empty = lt;
      gapless = sym (survey-incomplete e hold_ns s p as') ∙ (at_instant s.start (omega arith) lt).0;
      supported = λ t lo hi. (at_instant t lo hi).1;
    }

-- A PASS of `holds_throughout` over evidence: the run's window is not empty, no sequence is missing
-- up to the end of the run, and at every nanosecond of the window the predicate is satisfied by a
-- valid attempt that was begun by then and is younger than the declared hold.
pub evaluate-PassRests :
    (py : Runtime) (e : Evidence) (profile : Profile) (c : Check) (p : Predicate) (f : Finding)
    → c.criterion ≡ holds_throughout p
    → evaluate py e profile c ≡ some f
    → f.result ≡ pass
    → PassRests py e profile c p
evaluate-PassRests py e profile c p f kind done won =
    rests_of_pass py e profile c p f kind (evaluate-Evaluated py e profile c f done) won
