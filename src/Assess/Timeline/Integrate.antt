-- ===== src/Assess/Timeline/Integrate.antt =====
-- `_integrate` measures the three-valued truth of the pieces over the window.
use dragon_sniff.Prelude.{
  ℕ, zero, suc, ◌+◌, ◌-◌, ◌≤◌, ◌<◌, Bool, true, false, not, ◌&&◌, List, [], ◌∷◌, none, some, ◌≡◌,
  refl, arith, leb, ltb, ◌==◌, if◌then◌else◌, inl, inr, Bool-cases, All, ◌∙◌, ap, max, min, select,
  all, is_empty,
}
use dragon_sniff.Prelude.Int.{pos, ◌+ℤ◌}
use dragon_sniff.Prelude.Measure.{count_time, count_time_ext, count_time_disjoint, count_time_full}
use dragon_sniff.Assess.Timeline.{
  Piece, Event, Active, Slot, in_true, in_false, in_unknown, slot_of, Truth, activate, verdict,
  events_of, sort_events, sweep, idle, integrate, nonzero, opening, closing, Integral, Totals,
}
use dragon_sniff.Assess.Timeline.Sort.{balance, ◌⊕◌, idle-⊕, balance-sort, sort-IsSorted, sort-All}
use dragon_sniff.Assess.Timeline.Sweep.{is_known, share, sweep_lem}

-- The piece covers the instant.
abbrev pub covers : ℕ → Piece → Bool
covers t p = leb p.start t && ltb t p.stop

abbrev pub covering : List Piece → ℕ → List Piece
covering ps t = select (covers t) ps

-- What the pieces say of an instant: true if some piece covers it and each that does is true, false
-- if some does and each is false, and unknown otherwise.
unfoldable pub truth_at : List Piece → ℕ → Truth
truth_at ps t =
    let found = covering ps t in
    if is_empty found
    then none
    else (if all (λ p. is_known true p.truth) found
        then some true
        else (if all (λ p. is_known false p.truth) found then some false else none))

abbrev has_slot : Slot → Slot → Bool
has_slot in_true in_true = true
has_slot in_false in_false = true
has_slot in_unknown in_unknown = true
has_slot _ _ = false

-- How many pieces of a slot cover the instant.
tally : Slot → List Piece → ℕ → ℕ
tally k [] t = 0
tally k (p ∷ ps) t = (if covers t p && has_slot k (slot_of p.truth) then 1 else 0) + tally k ps t

abbrev counters : List Piece → ℕ → Active
counters ps t = record {
  trues = pos (tally in_true ps t);
  falses = pos (tally in_false ps t);
  unknowns = pos (tally in_unknown ps t);
}

-- Opening and closing at once changes nothing, and opening adds one.
open_close :
    (a b c p q : ℕ) (k : Slot)
    → let base : Active = record { trues = pos a; falses = pos b; unknowns = pos c } in
      activate (activate base (closing q k)) (opening p k) ≡ base
unfolding activate ◌+ℤ◌
open_close a b c p q in_true = ground arith
open_close a b c p q in_false = ground arith
open_close a b c p q in_unknown = ground arith

balance-pair :
    (t start stop : ℕ) (k : Slot) (es : List Event)
    → start < stop
    → balance t (opening start k ∷ closing stop k ∷ es) ≡ (
        if leb stop t
        then activate (activate (balance t es) (closing stop k)) (opening start k)
        else (if leb start t then activate (balance t es) (opening start k) else balance t es))
unfolding balance
balance-pair t start stop k es h = ground arith

opened :
    (t : ℕ) (p : Piece) (ps : List Piece) (q : ℕ)
    → covers t p ≡ true
    → activate (counters ps t) (opening q (slot_of p.truth)) ≡ counters (p ∷ ps) t
unfolding activate ◌+ℤ◌ slot_of tally
opened t p ps q h = ground arith

not_covered :
    (t : ℕ) (p : Piece) (ps : List Piece) → covers t p ≡ false → counters ps t ≡ counters (p ∷ ps) t
unfolding tally
not_covered t p ps h = ground arith

events-cons :
    (ws we : ℕ) (p : Piece) (ps : List Piece)
    → events_of ws we (p ∷ ps) ≡ (
        if leb (min p.stop we) (max p.start ws)
        then events_of ws we ps
        else opening (max p.start ws) (slot_of p.truth)
          ∷ closing (min p.stop we) (slot_of p.truth)
          ∷ events_of ws we ps)
unfolding events_of
events-cons ws we p ps = refl

-- The pair of events of a clipped piece counts it where it covers the instant.
balance_counted :
    (t start stop : ℕ) (p : Piece) (ps : List Piece) (es : List Event)
    → start < stop
    → (leb start t && ltb t stop) ≡ covers t p
    → balance t es ≡ counters ps t
    → balance t (opening start (slot_of p.truth) ∷ closing stop (slot_of p.truth) ∷ es)
      ≡ counters (p ∷ ps) t
balance_counted t start stop p ps es lt same rest =
    rw (balance-pair t start stop (slot_of p.truth) es lt, rest)
      (elim (Bool-cases (leb stop t)) [
        | inl past ↦ rw past (
            open_close (tally in_true ps t) (tally in_false ps t) (tally in_unknown ps t) start stop
              (slot_of p.truth)
            ∙ not_covered t p ps (ground arith))
        | inr before ↦ rw before (elim (Bool-cases (leb start t)) [
          | inl inside ↦ rw inside (opened t p ps start (ground arith))
          | inr early ↦ rw early (not_covered t p ps (ground arith))
        ])
      ])

balance_clipped :
    (ws we t : ℕ) (p : Piece) (ps : List Piece)
    → ws ≤ t
    → t < we
    → balance t (events_of ws we ps) ≡ counters ps t
    → balance t (events_of ws we (p ∷ ps)) ≡ counters (p ∷ ps) t
balance_clipped ws we t p ps lo hi rest =
    rw events-cons (elim (Bool-cases (leb (min p.stop we) (max p.start ws))) [
      | inl gone ↦ rw gone (rest ∙ not_covered t p ps (ground arith))
      | inr kept ↦ rw kept (
          balance_counted t (max p.start ws) (min p.stop we) p ps (events_of ws we ps)
            (ground arith) (ground arith) rest)
    ])

end_clipped :
    (ws we : ℕ) (p : Piece) (ps : List Piece)
    → balance we (events_of ws we ps) ≡ idle
    → balance we (events_of ws we (p ∷ ps)) ≡ idle
end_clipped ws we p ps rest =
    rw events-cons (elim (Bool-cases (leb (min p.stop we) (max p.start ws))) [
      | inl gone ↦ rw gone rest
      | inr kept ↦
          rw
            (
              kept,
              balance-pair we (max p.start ws) (min p.stop we) (slot_of p.truth)
                  (events_of ws we ps) (ground arith),
              rest,
            )
            (let past : leb (min p.stop we) we ≡ true = ground arith in
              rw past (open_close 0 0 0 (max p.start ws) (min p.stop we) (slot_of p.truth)))
    ])

balance-events :
    (ws we t : ℕ) (ps : List Piece)
    → ws ≤ t
    → t < we
    → balance t (events_of ws we ps) ≡ counters ps t
unfolding balance events_of tally
balance-events ws we t [] lo hi = refl
balance-events ws we t (p ∷ ps) lo hi =
    balance_clipped ws we t p ps lo hi (balance-events ws we t ps lo hi)

-- Nothing is left active at the end of the window.
balance_end : (ws we : ℕ) (ps : List Piece) → balance we (events_of ws we ps) ≡ idle
unfolding balance events_of
balance_end ws we [] = refl
balance_end ws we (p ∷ ps) = end_clipped ws we p ps (balance_end ws we ps)

events-Within :
    (ws we : ℕ) (ps : List Piece)
    → ws ≤ we
    → All (λ e. ws ≤ e.position) (events_of ws we ps)
      × All (λ e. e.position ≤ we) (events_of ws we ps)
unfolding events_of
events-Within ws we [] h = (tt, tt)
events-Within ws we (p ∷ ps) h =
    let (lows, highs) = events-Within ws we ps h in
    elim (Bool-cases (leb (min p.stop we) (max p.start ws))) [
      | inl gone ↦ rw gone (lows, highs)
      | inr kept ↦
          rw kept ((ground arith, (ground arith, lows)), (ground arith, (ground arith, highs)))
    ]

-- What the covering pieces are, in terms of the counters.
covering_counts :
    (ps : List Piece) (t : ℕ)
    → (is_empty (covering ps t)
        ≡ (tally in_true ps t + tally in_false ps t + tally in_unknown ps t == 0))
      × (all (λ p. is_known true p.truth) (covering ps t)
          ≡ (tally in_false ps t + tally in_unknown ps t == 0))
      × (all (λ p. is_known false p.truth) (covering ps t)
          ≡ (tally in_true ps t + tally in_unknown ps t == 0))
unfolding tally slot_of
covering_counts [] t = (refl, refl, refl)
covering_counts (p ∷ ps) t = elim (Bool-cases (covers t p)) [
  | inl inside ↦ rw inside (ground (arith, covering_counts ps t))
  | inr outside ↦ rw outside (ground (arith, covering_counts ps t))
]

nonzero-pos : (n : ℕ) → nonzero (pos n) ≡ not (n == 0)
nonzero-pos zero = refl
nonzero-pos (suc n) = ground arith

-- The counters of the covering pieces give their common truth value.
verdict-counters : (ps : List Piece) (t : ℕ) → verdict (counters ps t) ≡ truth_at ps t
unfolding verdict truth_at
verdict-counters ps t =
    let (empty, trues, falses) = covering_counts ps t in
    let a = tally in_true ps t in
    let b = tally in_false ps t in
    let c = tally in_unknown ps t in
    rw (empty, trues, falses, nonzero-pos a, nonzero-pos b, nonzero-pos c) (alone a b c)
  where
    alone :
        (a b c : ℕ)
        → (if not (a == 0) && (not (not (b == 0)) && not (not (c == 0)))
            then some true
            else (if not (b == 0) && (not (not (a == 0)) && not (not (c == 0)))
                then some false
                else none))
          ≡ (if a + b + c == 0
              then none
              else (if b + c == 0 then some true else (if a + c == 0 then some false else none)))
    alone a b c = ground arith

abbrev nothing : Totals
nothing = record { true_ns = 0; false_ns = 0 }

never_both : (u : Truth) → (is_known true u && is_known false u) ≡ false
never_both u = ground arith

known_true : (u : Truth) → is_known true u ≡ true → u ≡ some true
known_true u h = ground arith

module _ (ps : List Piece) (ws we : ℕ) (ordered : ws ≤ we) where
  status_is :
      (t : ℕ)
      → ws ≤ t
      → t < we
      → verdict (idle ⊕ balance t (sort_events (events_of ws we ps))) ≡ truth_at ps t
  status_is t lo hi =
      ap verdict (
        idle-⊕ (balance t (sort_events (events_of ws we ps)))
        ∙ balance-sort t (events_of ws we ps)
        ∙ balance-events ws we t ps lo hi)
      ∙ verdict-counters ps t

  total_share :
      (v : Bool)
      → share v (sweep (sort_events (events_of ws we ps)) ws idle nothing)
        ≡ count_time (λ t. is_known v (truth_at ps t)) ws (we - ws)
  total_share v =
      let es = events_of ws we ps in
      let (lows, highs) = events-Within ws we ps ordered in
      let closed : idle ⊕ balance we (sort_events es) ≡ idle =
        idle-⊕ (balance we (sort_events es)) ∙ balance-sort we es ∙ balance_end ws we ps in
      let swept =
        sweep_lem v (sort_events es) ws we idle nothing (sort-IsSorted ws es lows)
          (sort-All we es highs) ordered closed in
      let same =
        count_time_ext (λ t. is_known v (verdict (idle ⊕ balance t (sort_events es))))
          (λ t. is_known v (truth_at ps t)) ws (we - ws)
          (λ t a b. ap (is_known v) (status_is t a (omega arith))) in
      let none_yet : share v nothing ≡ 0 = ground arith in omega (arith, swept, same, none_yet)

  -- Over a window that does not end before it starts, `_integrate` counts the nanoseconds at which
  -- the pieces are true and those at which they are false, and the unknown time is the rest: the
  -- three sum to the window.
  pub integrate-eq-measure :
      let r : Integral = integrate ps ws we in
      (r.true_ns ≡ count_time (λ t. is_known true (truth_at ps t)) ws (we - ws))
      × (r.false_ns ≡ count_time (λ t. is_known false (truth_at ps t)) ws (we - ws))
      × (r.true_ns + r.false_ns + r.unknown_ns ≡ we - ws)
  unfolding integrate
  integrate-eq-measure =
      let apart =
        count_time_disjoint (λ t. is_known true (truth_at ps t))
          (λ t. is_known false (truth_at ps t)) ws (we - ws) (λ t. never_both (truth_at ps t)) in
      (
        total_share true,
        total_share false,
        omega (arith, total_share true, total_share false, apart),
      )

  -- If the whole window is true, then every instant of it lies in a piece, and in true pieces only.
  pub integrate_full :
      (t : ℕ) → (integrate ps ws we).true_ns ≡ we - ws → ws ≤ t → t < we → truth_at ps t ≡ some true
  integrate_full t full lo hi =
      let (measured, _, _) = integrate-eq-measure in
      known_true (truth_at ps t) (
        count_time_full (λ u. is_known true (truth_at ps u)) ws (we - ws) t
          (omega (arith, measured)) lo (omega arith))

-- With no piece, all of the window is unknown.
pub integrate_none :
    (ws we : ℕ) → ((integrate [] ws we).true_ns ≡ 0) × ((integrate [] ws we).false_ns ≡ 0)
unfolding integrate events_of sort_events sweep
integrate_none ws we = (refl, refl)
