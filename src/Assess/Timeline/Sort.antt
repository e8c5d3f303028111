-- ===== src/Assess/Timeline/Sort.antt =====
-- Sorting the events keeps what is active at every instant.
use dragon_sniff.Prelude.{
  ℕ, ◌≤◌, List, [], ◌∷◌, ◌≡◌, refl, arith, leb, if◌then◌else◌, inl, inr, Bool-cases, All, ◌∙◌,
}
use dragon_sniff.Prelude.Int.{ℤ, ◌+ℤ◌, +ℤ_right_comm, +ℤ_shift, +ℤ_zero, zero-+ℤ}
use dragon_sniff.Assess.Timeline.{
  Event, Active, activate, event_le, insert_event, sort_events, idle,
}

-- The counters' changes up to the instant `t`.
unfoldable pub balance : ℕ → List Event → Active
balance t [] = idle
balance t (e ∷ es) = let rest = balance t es in if leb e.position t then activate rest e else rest

infixl 65 ◌⊕◌
unfoldable pub ◌⊕◌ : Active → Active → Active
a ⊕ b = record {
  trues = a.trues +ℤ b.trues;
  falses = a.falses +ℤ b.falses;
  unknowns = a.unknowns +ℤ b.unknowns;
}

abbrev of_parts : ℤ → ℤ → ℤ → Active
of_parts a b c = record { trues = a; falses = b; unknowns = c }

pub activate_comm :
    (a : Active) (e f : Event) → activate (activate a e) f ≡ activate (activate a f) e
unfolding activate
activate_comm a e f = ground (
  arith,
  +ℤ_right_comm a.trues e.delta f.delta,
  +ℤ_right_comm a.falses e.delta f.delta,
  +ℤ_right_comm a.unknowns e.delta f.delta,
)

pub ⊕-activate : (a b : Active) (e : Event) → a ⊕ activate b e ≡ activate a e ⊕ b
unfolding activate ◌⊕◌
⊕-activate a b e = ground (
  arith,
  +ℤ_shift a.trues b.trues e.delta,
  +ℤ_shift a.falses b.falses e.delta,
  +ℤ_shift a.unknowns b.unknowns e.delta,
)

pub ⊕-idle : (a : Active) → a ⊕ idle ≡ a
unfolding ◌⊕◌
⊕-idle a = cc (+ℤ_zero a.trues, +ℤ_zero a.falses, +ℤ_zero a.unknowns)

pub idle-⊕ : (a : Active) → idle ⊕ a ≡ a
unfolding ◌⊕◌
idle-⊕ a = cc (zero-+ℤ a.trues, zero-+ℤ a.falses, zero-+ℤ a.unknowns)

balance-insert :
    (t : ℕ) (e : Event) (es : List Event) → balance t (insert_event e es) ≡ balance t (e ∷ es)
unfolding balance insert_event
balance-insert t e [] = refl
balance-insert t e (f ∷ fs) =
    ground (arith, balance-insert t e fs, activate_comm (balance t fs) e f)

balance-cons :
    (t : ℕ) (e : Event) (es fs : List Event)
    → balance t es ≡ balance t fs
    → balance t (e ∷ es) ≡ balance t (e ∷ fs)
unfolding balance
balance-cons t e es fs h = rw h

pub balance-sort : (t : ℕ) (es : List Event) → balance t (sort_events es) ≡ balance t es
unfolding sort_events
balance-sort t [] = refl
balance-sort t (e ∷ es) =
    balance-insert t e (sort_events es) ∙ balance-cons t e (sort_events es) es (balance-sort t es)

-- Positions rise, from `low` on.
abbrev pub IsSorted : ℕ → List Event → Type 0
IsSorted low [] = Unit
IsSorted low (e ∷ es) = (low ≤ e.position) × IsSorted e.position es

IsSorted-mono : (a b : ℕ) (es : List Event) → a ≤ b → IsSorted b es → IsSorted a es
IsSorted-mono a b [] h s = tt
IsSorted-mono a b (e ∷ es) h s = (omega arith, s.1)

insert-IsSorted :
    (low : ℕ) (e : Event) (es : List Event)
    → low ≤ e.position
    → IsSorted low es
    → IsSorted low (insert_event e es)
unfolding insert_event event_le
insert-IsSorted low e [] h s = (h, tt)
insert-IsSorted low e (f ∷ fs) h s = elim (Bool-cases (event_le e f)) [
  | inl first ↦ rw first (h, (ground arith, s.1))
  | inr later ↦ rw later (s.0, insert-IsSorted f.position e fs (ground arith) s.1)
]

pub sort-IsSorted :
    (low : ℕ) (es : List Event) → All (λ e. low ≤ e.position) es → IsSorted low (sort_events es)
unfolding sort_events
sort-IsSorted low [] p = tt
sort-IsSorted low (e ∷ es) p = insert-IsSorted low e (sort_events es) p.0 (sort-IsSorted low es p.1)

insert-All :
    (stop : ℕ) (e : Event) (es : List Event)
    → e.position ≤ stop
    → All (λ f. f.position ≤ stop) es
    → All (λ f. f.position ≤ stop) (insert_event e es)
unfolding insert_event
insert-All stop e [] h p = (h, tt)
insert-All stop e (f ∷ fs) h p = elim (Bool-cases (event_le e f)) [
  | inl first ↦ rw first (h, p)
  | inr later ↦ rw later (p.0, insert-All stop e fs h p.1)
]

pub sort-All :
    (stop : ℕ) (es : List Event)
    → All (λ f. f.position ≤ stop) es
    → All (λ f. f.position ≤ stop) (sort_events es)
unfolding sort_events
sort-All stop [] p = tt
sort-All stop (e ∷ es) p = insert-All stop e (sort_events es) p.0 (sort-All stop es p.1)
