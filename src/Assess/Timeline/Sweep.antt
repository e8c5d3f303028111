-- ===== src/Assess/Timeline/Sweep.antt =====
-- The sweep over sorted events counts the instants at which one counter is alone.
use dragon_sniff.Prelude.{
  ℕ, ◌+◌, ◌-◌, ◌≤◌, ◌<◌, Bool, true, false, not, List, [], ◌∷◌, none, some, ◌≡◌, refl, arith, ltb,
  if◌then◌else◌, All, ◌∙◌, sym, ap,
}
use mathlib.Core.Path.{subst₂}
use dragon_sniff.Prelude.Measure.{count_time, count_time_ext, count_time_split, count_time_const}
use dragon_sniff.Assess.Timeline.{
  Event, Active, Totals, Truth, activate, verdict, credit, sweep, idle,
}
use dragon_sniff.Assess.Timeline.Sort.{balance, ◌⊕◌, ⊕-activate, ⊕-idle, IsSorted}

abbrev pub is_known : Bool → Truth → Bool
is_known v none = false
is_known v (some true) = v
is_known v (some false) = not v

-- The total that the truth value `v` is credited to.
abbrev pub share : Bool → Totals → ℕ
share v t = if v then t.true_ns else t.false_ns

share-credit :
    (v : Bool) (t : Totals) (truth : Truth) (n : ℕ)
    → share v (credit t truth n) ≡ share v t + (if is_known v truth then n else 0)
unfolding credit
share-credit v t truth n = ground arith

-- What the counters say at the instant `t`, when `active` and the events `es` are left.
abbrev status : Active → List Event → ℕ → Truth
status active es t = verdict (active ⊕ balance t es)

balance_before : (t low : ℕ) (es : List Event) → IsSorted low es → t < low → balance t es ≡ idle
unfolding balance
balance_before t low [] s h = refl
balance_before t low (e ∷ es) s h = ground (arith, balance_before t e.position es s.1)

status_before :
    (active : Active) (t : ℕ) (e : Event) (es : List Event)
    → IsSorted e.position es
    → t < e.position
    → status active (e ∷ es) t ≡ verdict active
status_before active t e es s h =
    rw (balance_before t e.position (e ∷ es) (omega arith, s) h, ⊕-idle) refl

balance_after :
    (t : ℕ) (e : Event) (es : List Event)
    → e.position ≤ t
    → balance t (e ∷ es) ≡ activate (balance t es) e
unfolding balance
balance_after t e es h = ground arith

status_after :
    (active : Active) (t : ℕ) (e : Event) (es : List Event)
    → e.position ≤ t
    → status active (e ∷ es) t ≡ status (activate active e) es t
status_after active t e es h =
    ap verdict (ap (◌⊕◌ active) (balance_after t e es h) ∙ ⊕-activate active (balance t es) e)

-- The time up to the next event goes to the truth value that the counters show.
time_before :
    (v : Bool) (position n : ℕ) (active : Active) (e : Event) (es : List Event)
    → IsSorted e.position es
    → position + n ≡ e.position
    → count_time (λ t. is_known v (status active (e ∷ es) t)) position n
      ≡ (if is_known v (verdict active) then n else 0)
time_before v position n active e es s h =
    count_time_ext (λ t. is_known v (status active (e ∷ es) t)) (λ t. is_known v (verdict active))
      position n (λ t a b. ap (is_known v) (status_before active t e es s (omega arith)))
    ∙ count_time_const (is_known v (verdict active)) position n

time_after :
    (v : Bool) (n : ℕ) (active : Active) (e : Event) (es : List Event)
    → count_time (λ t. is_known v (status active (e ∷ es) t)) e.position n
      ≡ count_time (λ t. is_known v (status (activate active e) es t)) e.position n
time_after v n active e es =
    count_time_ext (λ t. is_known v (status active (e ∷ es) t))
      (λ t. is_known v (status (activate active e) es t)) e.position n
      (λ t a b. ap (is_known v) (status_after active t e es a))

-- One round of the loop.
credited :
    (v : Bool) (position point : ℕ) (truth : Truth) (totals : Totals)
    → position ≤ point
    → share v (if ltb position point then credit totals truth (point - position) else totals)
      ≡ share v totals + (if is_known v truth then point - position else 0)
credited v position point truth totals h =
    ground (arith, share-credit v totals truth (point - position))

sweep_step :
    (e : Event) (es : List Event) (position : ℕ) (active : Active) (totals : Totals)
    → position ≤ e.position
    → sweep (e ∷ es) position active totals
      ≡ sweep es e.position (activate active e) (
          if ltb position e.position
          then credit totals (verdict active) (e.position - position)
          else totals)
unfolding sweep
sweep_step e es position active totals h =
    let moved : (if ltb position e.position then e.position else position) ≡ e.position =
      ground arith in
    ap
      (λ p. sweep es p (activate active e) (
        if ltb position e.position
        then credit totals (verdict active) (e.position - position)
        else totals))
      moved

-- The time left is the time up to the next event and the time after it.
time_step :
    (v : Bool) (position stop : ℕ) (active : Active) (e : Event) (es : List Event)
    → IsSorted e.position es
    → position ≤ e.position
    → e.position ≤ stop
    → count_time (λ t. is_known v (status active (e ∷ es) t)) position (stop - position)
      ≡ (if is_known v (verdict active) then e.position - position else 0)
        + count_time
            (λ t. is_known v (status (activate active e) es t))
            e.position
            (stop - e.position)
time_step v position stop active e es s le le' =
    let m = λ (t : ℕ). is_known v (status active (e ∷ es) t) in
    let whole : e.position - position + (stop - e.position) ≡ stop - position = omega arith in
    let back : position + (e.position - position) ≡ e.position = omega arith in
    let split : count_time m position (stop - position)
        ≡ count_time m position (e.position - position)
          + count_time m e.position (stop - e.position) =
      subst₂
        (λ (a b : ℕ).
          count_time m position a
          ≡ count_time m position (e.position - position) + count_time m b (stop - e.position))
        whole back (count_time_split m position (e.position - position) (stop - e.position)) in
    omega (
      arith,
      split,
      time_before v position (e.position - position) active e es s back,
      time_after v (stop - e.position) active e es,
    )

nothing_left :
    (v : Bool) (active : Active) (position n : ℕ)
    → active ⊕ idle ≡ idle
    → count_time (λ t. is_known v (verdict (active ⊕ idle))) position n ≡ 0
unfolding verdict
nothing_left v active position n done = rw done (count_time_const false position n)

sweep_cons :
    (v : Bool) (e : Event) (es : List Event) (position stop : ℕ) (active : Active) (totals : Totals)
    → IsSorted position (e ∷ es)
    → All (λ f. f.position ≤ stop) (e ∷ es)
    → active ⊕ balance stop (e ∷ es) ≡ idle
    → share v (
        sweep es e.position (activate active e) (
          if ltb position e.position
          then credit totals (verdict active) (e.position - position)
          else totals))
      ≡ share v (
          if ltb position e.position
          then credit totals (verdict active) (e.position - position)
          else totals)
        + count_time
            (λ t. is_known v (status (activate active e) es t))
            e.position
            (stop - e.position)
    → share v (sweep (e ∷ es) position active totals)
      ≡ share v totals
        + count_time (λ t. is_known v (status active (e ∷ es) t)) position (stop - position)
sweep_cons v e es position stop active totals s all done rest = omega (
  arith,
  ap (share v) (sweep_step e es position active totals s.0),
  rest,
  credited v position e.position (verdict active) totals s.0,
  time_step v position stop active e es s.1 s.0 all.0,
)

-- The sweep of sorted events that end by `stop` and leave nothing active.
pub sweep_lem :
    (v : Bool) (es : List Event) (position stop : ℕ) (active : Active) (totals : Totals)
    → IsSorted position es
    → All (λ e. e.position ≤ stop) es
    → position ≤ stop
    → active ⊕ balance stop es ≡ idle
    → share v (sweep es position active totals)
      ≡ share v totals
        + count_time (λ t. is_known v (status active es t)) position (stop - position)
unfolding sweep balance
sweep_lem v [] position stop active totals s all le done =
    omega (arith, nothing_left v active position (stop - position) done)
sweep_lem v (e ∷ es) position stop active totals s all le done =
    sweep_cons v e es position stop active totals s all done (
      sweep_lem v es e.position stop (activate active e)
        (if ltb position e.position
          then credit totals (verdict active) (e.position - position)
          else totals)
        s.1 all.1 all.0
        (sym (⊕-activate active (balance stop es) e)
          ∙ sym (ap (◌⊕◌ active) (balance_after stop e es all.0))
          ∙ done))
