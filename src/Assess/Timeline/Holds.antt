-- ===== src/Assess/Timeline/Holds.antt =====
-- Where a piece comes from: how far a value is held, and over which evidence.
use dragon_sniff.Prelude.{
  ℕ, ◌+◌, ◌≤◌, ◌<◌, Bool, true, false, ◌&&◌, List, [], ◌∷◌, Option, none, some, ◌≡◌, ◌⊎◌, inl, inr,
  refl, arith, ltb, Bool-cases, min, All, All-append, In,
}
use dragon_sniff.Assess.Evidence.{missing_between}
use dragon_sniff.Assess.Timeline.{
  Attempt, Truth, Piece, Bounds, Judged, combine, holdable, piece_if, own_piece, held_piece, first?,
  pieces_from, pieces, limit,
}

-- Attempts do not end before they start.
abbrev pub AreTimed : List Judged → Type 0
AreTimed = All (λ (j : Judged). j.0.start_ns ≤ j.0.end_ns)

abbrev WithinHorizon : Option ℕ → ℕ → Type 0
WithinHorizon none t = Unit
WithinHorizon (some horizon) t = t ≤ horizon

-- The record `until` is the end of the run, or of an attempt that does not end before the piece.
abbrev pub EndsBy : Bounds → List Judged → Piece → ℕ → Type 0
EndsBy b js p until =
    (b.terminal_sequence ≡ some until)
    ⊎ ((next : Judged) × In next js × (next.0.last_sequence ≡ until) × (p.stop ≤ next.0.end_ns))

-- The attempt `source` justifies the piece: the attempt is valid, the piece lies in the hold that
-- starts with the attempt and in the run, no sequence is missing from the attempt up to the record
-- `until` at which the hold ends, and a truth value that the piece claims is the attempt's.
pub record Justified (b : Bounds) (js : List Judged) (p : Piece) (source : Judged) : Type 0 where
  pub is_valid : source.0.valid ≡ true
  pub positive : p.start < p.stop
  pub begins : source.0.start_ns ≤ p.start
  pub fresh : p.stop ≤ source.0.start_ns + b.hold_ns
  pub in_horizon : WithinHorizon b.horizon_ns p.stop
  pub until : ℕ
  pub ends_by : EndsBy b js p until
  pub gapless : missing_between b.gaps source.0.first_sequence until ≡ false
  pub claims : (v : Bool) → p.truth ≡ some v → source.1 ≡ some v

abbrev pub IsHeld : Bounds → List Judged → Piece → Type 0
IsHeld b js p = (source : Judged) × In source js × Justified b js p source

combine-left : (t u : Truth) (v : Bool) → combine t u ≡ some v → t ≡ some v
unfolding combine
combine-left t u v h = ground arith

limit-Within : (b : Bounds) (t : ℕ) → WithinHorizon b.horizon_ns (limit b t)
limit-Within b t =
    elim b.horizon_ns
      as (λ h. WithinHorizon h (elim h [ none ↦ t | some horizon ↦ min t horizon ])) [
        | none ↦ tt
        | some horizon ↦ omega arith
      ]

Within-le : (h : Option ℕ) (s t : ℕ) → s ≤ t → WithinHorizon h t → WithinHorizon h s
Within-le none s t le w = tt
Within-le (some horizon) s t le w = omega arith

limit-le : (b : Bounds) (t : ℕ) → limit b t ≤ t
limit-le b t = ground arith

-- What a hold over the next attempt rests on.
holdable-next :
    (b : Bounds) (a n : Attempt)
    → holdable b a (some n) ≡ true
    → (a.valid ≡ true)
      × (a.end_ns ≤ n.start_ns)
      × (missing_between b.gaps a.first_sequence n.last_sequence ≡ false)
unfolding holdable
holdable-next b a n h = ground arith

holdable-last :
    (b : Bounds) (a : Attempt)
    → holdable b a none ≡ true
    → (a.valid ≡ true)
      × (terminal : ℕ) × (b.terminal_sequence ≡ some terminal)
      × (missing_between b.gaps a.first_sequence terminal ≡ false)
unfolding holdable
holdable-last b a h =
    (ground arith, elim b.terminal_sequence [ none ↦ 0 | some t ↦ t ], ground arith, ground arith)

-- A piece is made only under the test, and with a positive length.
All-piece_if :
    (P : Piece → Type 0) (held : Bool) (start stop : ℕ) (truth : Truth)
    → (held ≡ true → start < stop → P (record { start = start; stop = stop; truth = truth }))
    → All P (piece_if held start stop truth)
All-piece_if P held start stop truth h = elim (Bool-cases (held && ltb start stop)) [
  | inl made ↦ rw made (h (ground arith) (ground arith), tt)
  | inr none_made ↦ rw none_made tt
]

module _ (b : Bounds) (whole : List Judged) where
  own_piece-IsHeld :
      (previous current : Judged)
      → In previous whole
      → In current whole
      → previous.0.start_ns ≤ previous.0.end_ns
      → All (IsHeld b whole) (own_piece b (some previous) current)
  unfolding own_piece
  own_piece-IsHeld previous current m n timed =
      All-piece_if (IsHeld b whole) (holdable b previous.0 (some current.0)) current.0.start_ns
        (min current.0.end_ns (limit b (previous.0.start_ns + b.hold_ns)))
        (combine previous.1 current.1)
        λ held lt.
          let (ok_valid, after, gapless) = holdable-next b previous.0 current.0 held in
          (
            previous,
            m,
            record {
              is_valid = ok_valid;
              positive = lt;
              begins = omega arith;
              fresh = omega (arith, limit-le b (previous.0.start_ns + b.hold_ns));
              in_horizon =
                  Within-le b.horizon_ns _ (limit b (previous.0.start_ns + b.hold_ns)) (omega arith)
                    (limit-Within b (previous.0.start_ns + b.hold_ns));
              until = current.0.last_sequence;
              ends_by = inr (current, n, refl, omega arith);
              gapless = gapless;
              claims = combine-left previous.1 current.1;
            },
          )

  next_piece-IsHeld :
      (current next : Judged)
      → In current whole
      → In next whole
      → current.0.start_ns ≤ current.0.end_ns
      → next.0.start_ns ≤ next.0.end_ns
      → All (IsHeld b whole) (held_piece b current (some next))
  unfolding held_piece
  next_piece-IsHeld current next m n timed timed' =
      All-piece_if (IsHeld b whole) (holdable b current.0 (some next.0)) current.0.end_ns
        (min next.0.start_ns (limit b (current.0.start_ns + b.hold_ns))) current.1
        λ held lt.
          let (ok_valid, after, gapless) = holdable-next b current.0 next.0 held in
          (
            current,
            m,
            record {
              is_valid = ok_valid;
              positive = lt;
              begins = timed;
              fresh = omega (arith, limit-le b (current.0.start_ns + b.hold_ns));
              in_horizon =
                  Within-le b.horizon_ns _ (limit b (current.0.start_ns + b.hold_ns)) (omega arith)
                    (limit-Within b (current.0.start_ns + b.hold_ns));
              until = next.0.last_sequence;
              ends_by = inr (next, n, refl, omega arith);
              gapless = gapless;
              claims = λ v e. e;
            },
          )

  last_piece-IsHeld :
      (current : Judged)
      → In current whole
      → current.0.start_ns ≤ current.0.end_ns
      → All (IsHeld b whole) (held_piece b current none)
  unfolding held_piece
  last_piece-IsHeld current m timed =
      All-piece_if (IsHeld b whole) (holdable b current.0 none) current.0.end_ns _ current.1
        λ held lt.
          let (ok_valid, terminal, is_end, gapless) = holdable-last b current.0 held in
          (
            current,
            m,
            record {
              is_valid = ok_valid;
              positive = lt;
              begins = timed;
              fresh = omega (arith, limit-le b (current.0.start_ns + b.hold_ns));
              in_horizon =
                  Within-le b.horizon_ns _ (limit b (current.0.start_ns + b.hold_ns)) (omega arith)
                    (limit-Within b (current.0.start_ns + b.hold_ns));
              until = terminal;
              ends_by = inl is_end;
              gapless = gapless;
              claims = λ v e. e;
            },
          )

  held_piece-IsHeld :
      (current : Judged) (js : List Judged)
      → In current whole
      → All (λ j. In j whole) js
      → current.0.start_ns ≤ current.0.end_ns
      → AreTimed js
      → All (IsHeld b whole) (held_piece b current (first? js))
  held_piece-IsHeld current [] m ms timed ts = last_piece-IsHeld current m timed
  held_piece-IsHeld current (next ∷ js) m ms timed ts =
      next_piece-IsHeld current next m ms.0 timed ts.0

  pieces_after-IsHeld :
      (previous : Judged) (js : List Judged)
      → In previous whole
      → All (λ j. In j whole) js
      → previous.0.start_ns ≤ previous.0.end_ns
      → AreTimed js
      → All (IsHeld b whole) (pieces_from b (some previous) js)
  unfolding pieces_from
  pieces_after-IsHeld previous [] m ms timed ts = tt
  pieces_after-IsHeld previous (j ∷ js) m ms timed ts =
      All-append (IsHeld b whole) (own_piece b (some previous) j) _
        (own_piece-IsHeld previous j m ms.0 timed)
        (All-append (IsHeld b whole) (held_piece b j (first? js)) (pieces_from b (some j) js)
          (held_piece-IsHeld j js ms.0 ms.1 ts.0 ts.1)
          (pieces_after-IsHeld j js ms.0 ms.1 ts.0 ts.1))

In-weaken :
    {A : Type 0} (x : A) (zs ys : List A) → All (λ y. In y zs) ys → All (λ y. In y (x ∷ zs)) ys
In-weaken x zs [] h = tt
In-weaken x zs (y ∷ ys) h = (inr h.0, In-weaken x zs ys h.1)

In-self : {A : Type 0} (xs : List A) → All (λ y. In y xs) xs
In-self [] = tt
In-self (x ∷ xs) = (inl refl, In-weaken x xs xs (In-self xs))

-- Every piece of the timeline of attempts that do not end before they start is justified by one of
-- the attempts: a value is held for the declared time at most, within the run, over evidence with
-- no missing sequence, and never from an invalid attempt.
pub pieces-IsHeld : (b : Bounds) (js : List Judged) → AreTimed js → All (IsHeld b js) (pieces b js)
unfolding pieces pieces_from own_piece
pieces-IsHeld b [] ts = tt
pieces-IsHeld b (j ∷ js) ts =
    let (m, ms) = In-self (j ∷ js) in
    All-append (IsHeld b (j ∷ js)) (held_piece b j (first? js)) (pieces_from b (some j) js)
      (held_piece-IsHeld b (j ∷ js) j js m ms ts.0 ts.1)
      (pieces_after-IsHeld b (j ∷ js) j js m ms ts.0 ts.1)
