-- ===== src/Client/Budget/Bounded.antt =====
-- The ceiling on connections holds in every interleaving.
use dragon_sniff.Prelude.{
  ℕ, ◌+◌, ◌≤◌, ◌≡◌, arith, sym, ap, ◌∙◌, some, ltb, Bool-cases, inl, inr, some-injective,
}
use dragon_sniff.Client.Budget.{
  Permits, new_budget, LeaseStep, acquires, counts, uncounts, releases, Leases, fresh_budget, later,
}

abbrev permits : Permits → ℕ
permits p = p.free + p.acquired + p.active + p.returning

permits-step : {p q : Permits} → LeaseStep p q → permits q ≡ permits p
permits-step acquires = omega arith
permits-step counts = omega arith
permits-step uncounts = omega arith
permits-step releases = omega arith

permits-new_budget : (limit : ℕ) (p : Permits) → new_budget limit ≡ some p → permits p ≡ limit
unfolding new_budget
permits-new_budget limit p h = elim (Bool-cases (ltb limit 1)) [
  | inl none_left ↦ cc (rw none_left at h)
  | inr enough ↦ ap permits (sym (some-injective (rw enough at h))) ∙ omega arith
]

permits-limit : (limit : ℕ) (p : Permits) → Leases limit p → permits p ≡ limit
permits-limit limit p (fresh_budget start) = permits-new_budget limit p start
permits-limit limit p (later {p = q} before x) = permits-step x ∙ permits-limit limit q before

-- However threads interleave, no more connections are active than the limit, and the permits that are
-- free and the threads within `lease` add up to it.
pub Leases-bounded :
    (limit : ℕ) (p : Permits)
    → Leases limit p
    → (p.active ≤ limit) × (p.free + p.acquired + p.active + p.returning ≡ limit)
Leases-bounded limit p r = (omega (arith, permits-limit limit p r), permits-limit limit p r)
