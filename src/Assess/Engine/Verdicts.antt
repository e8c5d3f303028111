-- ===== src/Assess/Engine/Verdicts.antt =====
-- Which verdict a check has, and with which reasons.
use dragon_sniff.Prelude.{
  ℕ, ◌+◌, ◌-◌, ◌*◌, ◌≤◌, Bool, true, false, not, ◌&&◌, ◌||◌, List, [], ◌∷◌, ◌++◌, none, some, ◌≡◌,
  ◌≢◌, refl, arith, leb, ltb, if◌then◌else◌, Bool-cases, inl, inr, is_empty, ap, sym, ◌∙◌,
  some-injective,
}
use mathlib.Core.Path.{subst}
use dragon_sniff.Prelude.Measure.{count_time, count_time_mono, count_time_disjoint}
use dragon_sniff.Runtime.{Runtime}
use dragon_sniff.Json.{Number, denominator}
use dragon_sniff.Assess.Evidence.{Evidence}
use dragon_sniff.Assess.Profile.{
  Signal, Profile, Check, Predicate, Criterion, holds_throughout, time_in_band, between,
}
use dragon_sniff.Assess.Attempts.{attempts_for}
use dragon_sniff.Assess.Timeline.{Attempt, Truth, Piece, Integral, integrate}
use dragon_sniff.Assess.Timeline.Integrate.{truth_at, integrate-eq-measure}
use dragon_sniff.Assess.Timeline.Sweep.{is_known}
use dragon_sniff.Assess.Engine.{
  Slice, Survey, Finding, Verdict, pass, fail, inconclusive, survey, verdict_of, conclude, window,
  evaluate, Reason, predicate_of, reasons, held_flag, reaches, kept_reasons, timeline,
  lookup_signal, open_window,
}
use dragon_sniff.Assess.Engine.Cases.{
  Evaluated, closed, opened, evaluate-Evaluated, window-open-lt, evaluate-open, result-conclude,
}

-- The three parts of the survey's timeline add up to the window.
survey-sum :
    (e : Evidence) (hold_ns : ℕ) (s : Slice) (p : Predicate) (as' : List Attempt)
    → s.start ≤ s.stop
    → let i : Integral = (survey e hold_ns s p as').integral in
      i.true_ns + i.false_ns + i.unknown_ns ≡ s.stop - s.start
unfolding survey
survey-sum e hold_ns s p as' h = let (_, _, sum) = integrate-eq-measure _ s.start s.stop h in sum

-- A finding of this verdict has reasons, or has none.
abbrev pub explained : Verdict → List Reason → Bool
explained inconclusive rs = not (is_empty rs)
explained _ rs = is_empty rs

nonempty-append : {A : Type 0} (xs ys : List A) → is_empty (xs ++ ys) ≡ (is_empty xs && is_empty ys)
nonempty-append [] ys = refl
nonempty-append (x ∷ xs) ys = refl

some_reason :
    (hold_ns : ℕ) (s : Slice) (held : Bool) (v : Survey)
    → (ltb 0 v.integral.unknown_ns || held) ≡ true
    → is_empty (reasons hold_ns s held v) ≡ false
unfolding reasons
some_reason hold_ns s held v h = ground arith

band_decided :
    (r : ℕ → Bool) (t upper : ℕ)
    → upper ≡ t
    → (if r t then pass else (if r upper then inconclusive else fail)) ≢ inconclusive
band_decided r t upper e h =
    decided (r t)
      (subst (λ u. (if r t then pass else (if r u then inconclusive else fail)) ≡ inconclusive) e h)
  where
    decided : (b : Bool) → (if b then pass else (if b then inconclusive else fail)) ≢ inconclusive
    decided b h = ground arith

-- Where neither time is unknown nor a violation is held, the verdict is definite.
undecided :
    (k : Criterion) (s : Slice) (v : Survey)
    → v.integral.true_ns + v.integral.false_ns + v.integral.unknown_ns ≡ s.stop - s.start
    → verdict_of k s v ≡ inconclusive
    → (ltb 0 v.integral.unknown_ns || held_flag k v) ≡ true
unfolding verdict_of
undecided (holds_throughout p) s v sum h = ground arith
undecided (time_in_band low high fraction) s v sum h =
    elim (Bool-cases (ltb 0 v.integral.unknown_ns)) [
      | inl some_unknown ↦ rw some_unknown refl
      | inr known ↦ absurd (
          band_decided (λ t. reaches fraction t (s.stop - s.start)) v.integral.true_ns
            (s.stop - s.start - v.integral.false_ns) (ground arith) h)
    ]

explained-kept :
    (r : Verdict) (rs : List Reason)
    → (r ≡ inconclusive → is_empty rs ≡ false)
    → explained r (kept_reasons r rs) ≡ true
explained-kept pass rs h = refl
explained-kept fail rs h = refl
explained-kept inconclusive rs h = ground (arith, h refl)

explained-conclude :
    (py : Runtime) (hold_ns : ℕ) (signal : Signal) (c : Check) (s : Slice) (v : Survey)
    → v.integral.true_ns + v.integral.false_ns + v.integral.unknown_ns ≡ s.stop - s.start
    → let f : Finding = conclude py hold_ns signal c s v in explained f.result f.reasons ≡ true
unfolding conclude
explained-conclude py hold_ns signal c s v sum =
    explained-kept (verdict_of c.criterion s v) (reasons hold_ns s (held_flag c.criterion v) v)
      (λ h. some_reason hold_ns s (held_flag c.criterion v) v (undecided c.criterion s v sum h))

-- Every finding of `evaluate` is explained: an INCONCLUSIVE one has at least one reason, and a PASS
-- or a FAIL has none.
pub evaluate-explained :
    (py : Runtime) (e : Evidence) (profile : Profile) (c : Check) (f : Finding)
    → evaluate py e profile c ≡ some f
    → explained f.result f.reasons ≡ true
evaluate-explained py e profile c f h = explain (evaluate-Evaluated py e profile c f h)
  where
    explain : Evaluated py e profile c f → explained f.result f.reasons ≡ true
    explain (closed signal reason at is) =
        subst (λ (g : Finding). explained g.result g.reasons ≡ true) (sym is) refl
    explain (opened signal s as' at of is) =
        let sum =
          survey-sum e profile.max_hold_ns s (predicate_of c.criterion) as'
            (omega (arith, window-open-lt e c s at)) in
        subst (λ (g : Finding). explained g.result g.reasons ≡ true) (sym is)
          (explained-conclude py profile.max_hold_ns signal c s _ sum)

-- What the actual truth at an instant may be, given what the pieces say of it.
abbrev pub AgreesWith : (ℕ → Bool) → (ℕ → Truth) → Type 0
AgreesWith actual known = (t : ℕ) (b : Bool) → known t ≡ some b → actual t ≡ b

known_is : (u : Truth) (v : Bool) → is_known v u ≡ true → u ≡ some v
known_is u v h = ground arith

-- However the unknown time resolves, the true time lies between the known true time and the time
-- that is not known to be false.
between_bounds :
    (ps : List Piece) (ws we : ℕ) (actual : ℕ → Bool)
    → ws ≤ we
    → AgreesWith actual (truth_at ps)
    → ((integrate ps ws we).true_ns ≤ count_time actual ws (we - ws))
      × (count_time actual ws (we - ws) ≤ we - ws - (integrate ps ws we).false_ns)
between_bounds ps ws we actual h agrees =
    let (trues, falses, _) = integrate-eq-measure ps ws we h in
    let n = we - ws in
    let below =
      count_time_mono (λ t. is_known true (truth_at ps t)) actual ws n
        (λ t k. agrees t true (known_is (truth_at ps t) true k)) in
    let apart =
      count_time_disjoint actual (λ t. is_known false (truth_at ps t)) ws n
        (λ t. never_both (actual t) (truth_at ps t) (agrees t false)) in
    (omega (arith, trues, below), omega (arith, falses, apart))
  where
    never_both :
        (a : Bool) (u : Truth) → (u ≡ some false → a ≡ false) → (a && is_known false u) ≡ false
    never_both true (some false) k = k refl
    never_both true none k = refl
    never_both true (some true) k = refl
    never_both false u k = refl

leb_trans : (x y z : ℕ) → leb x y ≡ true → y ≤ z → leb x z ≡ true
leb_trans x y z h le = ground arith

mul_mono : (a b d : ℕ) → a ≤ b → a * d ≤ b * d
mul_mono a b d le = grind arith

reaches_mono :
    (fraction : Number) (a b whole : ℕ)
    → a ≤ b
    → reaches fraction a whole ≡ true
    → reaches fraction b whole ≡ true
reaches_mono fraction a b whole le h = leb_trans _ _ _ h (mul_mono a b (denominator fraction) le)

-- A verdict that does not contradict whether the band's fraction is reached.
abbrev pub agrees : Verdict → Bool → Bool
agrees pass reached = reached
agrees fail reached = not reached
agrees inconclusive reached = true

agrees_between :
    (low actual high : Bool)
    → (low ≡ true → actual ≡ true)
    → (actual ≡ true → high ≡ true)
    → agrees (if low then pass else (if high then inconclusive else fail)) actual ≡ true
agrees_between low actual high below above = ground (arith, below, above)

verdict-agrees :
    (e : Evidence) (hold_ns : ℕ) (s : Slice) (low high fraction : Number) (as' : List Attempt)
    (actual : ℕ → Bool)
    → s.start ≤ s.stop
    → AgreesWith actual (truth_at (timeline e hold_ns s (between low high) as'))
    → agrees
        (verdict_of (time_in_band low high fraction) s (survey e hold_ns s (between low high) as'))
        (reaches fraction (count_time actual s.start (s.stop - s.start)) (s.stop - s.start))
      ≡ true
unfolding verdict_of survey
verdict-agrees e hold_ns s low high fraction as' actual le consistent =
    let whole = s.stop - s.start in
    let i = integrate (timeline e hold_ns s (between low high) as') s.start s.stop in
    let (under, over) =
      between_bounds (timeline e hold_ns s (between low high) as') s.start s.stop actual le
        consistent in
    agrees_between (reaches fraction i.true_ns whole)
      (reaches fraction (count_time actual s.start whole) whole)
      (reaches fraction (whole - i.false_ns) whole)
      (reaches_mono fraction i.true_ns (count_time actual s.start whole) whole under)
      (reaches_mono fraction (count_time actual s.start whole) (whole - i.false_ns) whole over)

-- A `time_in_band` verdict is safe under every resolution of the unknown time: whichever instants
-- were really in band, as long as they agree with the known pieces of the timeline, a PASS means
-- that the real time in band reaches the fraction and a FAIL that it does not.
pub evaluate-agrees :
    (py : Runtime) (e : Evidence) (profile : Profile) (c : Check) (signal : Signal) (s : Slice)
    (as' : List Attempt) (low high fraction : Number) (f : Finding) (actual : ℕ → Bool)
    → lookup_signal c.signal profile.signals ≡ some signal
    → window e c ≡ some (open_window s)
    → attempts_for py e signal ≡ some as'
    → c.criterion ≡ time_in_band low high fraction
    → evaluate py e profile c ≡ some f
    → AgreesWith actual (truth_at (timeline e profile.max_hold_ns s (between low high) as'))
    → agrees f.result
        (reaches fraction (count_time actual s.start (s.stop - s.start)) (s.stop - s.start))
      ≡ true
evaluate-agrees py e profile c signal s as' low high fraction f actual a b d kind done consistent =
    let hold_ns = profile.max_hold_ns in
    let reached =
      reaches fraction (count_time actual s.start (s.stop - s.start)) (s.stop - s.start) in
    let is = some-injective (sym done ∙ evaluate-open py e profile c signal s as' a b d) in
    let result =
      ap (λ (g : Finding). g.result) is
      ∙ result-conclude py hold_ns signal c s (survey e hold_ns s (predicate_of c.criterion) as')
      ∙ ap (λ k. verdict_of k s (survey e hold_ns s (predicate_of k) as')) kind in
    subst (λ r. agrees r reached ≡ true) (sym result)
      (verdict-agrees e hold_ns s low high fraction as' actual
        (omega (arith, window-open-lt e c s b)) consistent)
