-- ===== src/Assess/Timeline.antt =====
-- The three-valued timeline of a check: `_combine`, `_pieces` and `_integrate` of
-- src/dragonsniff/assess/engine.py. A truth value `none` is unknown.
pub mod Sort
pub mod Sweep
pub mod Integrate
pub mod Holds
use dragon_sniff.Prelude.{
  ℕ, zero, suc, ◌+◌, ◌-◌, min, max, Bool, true, false, not, ◌&&◌, ◌||◌, List, [], ◌∷◌, Option, none,
  some, ltb, leb, ◌==◌, if◌then◌else◌, ◌++◌,
}
use dragon_sniff.Prelude.Int.{ℤ, pos, negsuc, ◌+ℤ◌}
use dragon_sniff.Json.{Value}
use dragon_sniff.Assess.Evidence.{missing_between}

-- One observation attempt. `value` is null when the attempt is invalid.
pub record Attempt : Type 0 where
  pub start_ns : ℕ
  pub end_ns : ℕ
  pub first_sequence : ℕ
  pub last_sequence : ℕ
  pub value : Value
  pub valid : Bool

abbrev pub Truth : Type 0
Truth = Option Bool

unfoldable pub combine : Truth → Truth → Truth
combine (some true) (some true) = some true
combine (some false) (some false) = some false
combine _ _ = none

pub record Piece : Type 0 where
  pub start : ℕ
  pub stop : ℕ
  pub truth : Truth

-- What `_pieces` is given beside the attempts: the gaps of the evidence, the hold bound, and the
-- end of the run when there is one.
pub record Bounds : Type 0 where
  pub gaps : List (ℕ × ℕ)
  pub hold_ns : ℕ
  pub horizon_ns : Option ℕ
  pub terminal_sequence : Option ℕ

abbrev pub limit : Bounds → ℕ → ℕ
limit b value = elim b.horizon_ns [ none ↦ value | some horizon ↦ min value horizon ]

-- `holdable(index)`, given the attempt that follows, if any.
unfoldable pub holdable : Bounds → Attempt → Option Attempt → Bool
holdable b attempt (some following) =
    ltb 0 b.hold_ns
    && attempt.valid
    && not (ltb following.start_ns attempt.end_ns)
    && not (missing_between b.gaps attempt.first_sequence following.last_sequence)
holdable b attempt none = ltb 0 b.hold_ns && attempt.valid && (elim b.terminal_sequence [
  | none ↦ false
  | some terminal ↦ not (missing_between b.gaps attempt.first_sequence terminal)
])

abbrev pub piece_if : Bool → ℕ → ℕ → Truth → List Piece
piece_if held start stop truth =
    if held && ltb start stop then record { start = start; stop = stop; truth = truth } ∷ [] else []

-- An attempt with its truth value.
abbrev pub Judged : Type 0
Judged = Attempt × Truth

-- The attempt's own interval: the previous held value or this value.
unfoldable pub own_piece : Bounds → Option Judged → Judged → List Piece
own_piece b none (attempt, truth) = []
own_piece b (some (previous, held)) (attempt, truth) =
    piece_if (holdable b previous (some attempt)) attempt.start_ns
      (min attempt.end_ns (limit b (previous.start_ns + b.hold_ns))) (combine held truth)

-- After the attempt: its own value, held.
unfoldable pub held_piece : Bounds → Judged → Option Judged → List Piece
held_piece b (attempt, truth) (some (following, next)) =
    piece_if (holdable b attempt (some following)) attempt.end_ns
      (min following.start_ns (limit b (attempt.start_ns + b.hold_ns))) truth
held_piece b (attempt, truth) none =
    piece_if (holdable b attempt none) attempt.end_ns
      (min (elim b.horizon_ns [ none ↦ attempt.end_ns | some horizon ↦ horizon ])
        (limit b (attempt.start_ns + b.hold_ns)))
      truth

abbrev pub first? : List Judged → Option Judged
first? [] = none
first? (j ∷ js) = some j

-- The loop of `_pieces`, with the attempt before.
unfoldable pub pieces_from : Bounds → Option Judged → List Judged → List Piece
pieces_from b previous [] = []
pieces_from b previous (j ∷ js) =
    own_piece b previous j ++ (held_piece b j (first? js) ++ pieces_from b (some j) js)

unfoldable pub pieces : Bounds → List Judged → List Piece
unfolding pieces_from
pieces b js = pieces_from b none js

-- The three counters of the sweep, `active[0]`, `active[1]` and `active[2]`.
pub data Slot : Type 0 where
  in_true in_false in_unknown : Slot

unfoldable pub slot_of : Truth → Slot
slot_of (some true) = in_true
slot_of (some false) = in_false
slot_of none = in_unknown

pub record Event : Type 0 where
  pub position : ℕ
  pub delta : ℤ
  pub slot : Slot

abbrev pub slot_index : Slot → ℕ
slot_index in_true = 0
slot_index in_false = 1
slot_index in_unknown = 2

-- The deltas are 1 and -1.
abbrev pub delta_rank : ℤ → ℕ
delta_rank (pos n) = 1
delta_rank (negsuc n) = 0

-- Python orders the triples (position, delta, slot) from the left.
unfoldable pub event_le : Event → Event → Bool
event_le a b =
    ltb a.position b.position
    || (a.position == b.position
        && (ltb (delta_rank a.delta) (delta_rank b.delta)
            || (delta_rank a.delta == delta_rank b.delta
                && leb (slot_index a.slot) (slot_index b.slot))))

abbrev pub opening : ℕ → Slot → Event
opening p s = record { position = p; delta = pos 1; slot = s }

abbrev pub closing : ℕ → Slot → Event
closing p s = record { position = p; delta = negsuc 0; slot = s }

-- The loop that clips the pieces to the window.
unfoldable pub events_of : ℕ → ℕ → List Piece → List Event
events_of window_start window_end [] = []
events_of window_start window_end (p ∷ ps) =
    let rest = events_of window_start window_end ps in
    let start = max p.start window_start in
    let stop = min p.stop window_end in
    if leb stop start
    then rest
    else opening start (slot_of p.truth) ∷ closing stop (slot_of p.truth) ∷ rest

-- `events.sort()`.
unfoldable pub insert_event : Event → List Event → List Event
insert_event e [] = e ∷ []
insert_event e (f ∷ fs) =
    let rest = insert_event e fs in if event_le e f then e ∷ f ∷ fs else f ∷ rest

unfoldable pub sort_events : List Event → List Event
unfolding insert_event
sort_events [] = []
sort_events (e ∷ es) = insert_event e (sort_events es)

pub record Active : Type 0 where
  pub trues : ℤ
  pub falses : ℤ
  pub unknowns : ℤ

-- The truth value of a counter: it is not zero.
abbrev pub nonzero : ℤ → Bool
nonzero (pos zero) = false
nonzero _ = true

unfoldable pub verdict : Active → Truth
verdict a =
    if nonzero a.trues && (not (nonzero a.falses) && not (nonzero a.unknowns))
    then some true
    else (if nonzero a.falses && (not (nonzero a.trues) && not (nonzero a.unknowns))
        then some false
        else none)

-- `active[slot] += delta`.
unfoldable pub activate : Active → Event → Active
activate a e = elim e.slot [
  | in_true ↦ record a { trues = a.trues +ℤ e.delta }
  | in_false ↦ record a { falses = a.falses +ℤ e.delta }
  | in_unknown ↦ record a { unknowns = a.unknowns +ℤ e.delta }
]

pub record Totals : Type 0 where
  pub true_ns : ℕ
  pub false_ns : ℕ

-- The time from `position` to `point` goes to the counter that is alone.
unfoldable pub credit : Totals → Truth → ℕ → Totals
credit t (some true) n = record t { true_ns = t.true_ns + n }
credit t (some false) n = record t { false_ns = t.false_ns + n }
credit t none n = t

-- The loop over the sorted events.
unfoldable pub sweep : List Event → ℕ → Active → Totals → Totals
sweep [] position active totals = totals
sweep (e ∷ es) position active totals =
    sweep es (if ltb position e.position then e.position else position) (activate active e) (
      if ltb position e.position
      then credit totals (verdict active) (e.position - position)
      else totals)

abbrev pub idle : Active
idle = record { trues = pos 0; falses = pos 0; unknowns = pos 0 }

pub record Integral : Type 0 where
  pub true_ns : ℕ
  pub false_ns : ℕ
  pub unknown_ns : ℕ

unfoldable pub integrate : List Piece → ℕ → ℕ → Integral
integrate ps window_start window_end =
    let t =
      sweep (sort_events (events_of window_start window_end ps)) window_start idle
        (record { true_ns = 0; false_ns = 0 }) in
    record {
      true_ns = t.true_ns;
      false_ns = t.false_ns;
      unknown_ns = window_end - window_start - t.true_ns - t.false_ns;
    }
