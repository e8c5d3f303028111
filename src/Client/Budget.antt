-- ===== src/Client/Budget.antt =====
-- `ConnectionBudget` of src/dragonsniff/client.py: each thread takes a permit of the semaphore, counts
-- itself as active, and gives both back in the opposite order. A step is one of these four.
pub mod Bounded
use dragon_sniff.Prelude.{ℕ, suc, ◌+◌, ◌≡◌, Option, none, some, ltb, if◌then◌else◌}

-- The permits that are left, and the threads by how far they are in `lease`.
pub record Permits : Type 0 where
  pub free : ℕ
  pub acquired : ℕ
  pub active : ℕ
  pub returning : ℕ

-- `__init__`; a limit of 0 raises.
unfoldable pub new_budget : ℕ → Option Permits
new_budget limit =
    if ltb limit 1
    then none
    else some (record { free = limit; acquired = 0; active = 0; returning = 0 })

pub data LeaseStep : Permits → Permits → Type 0 where
  -- `acquire`; where no permit is left the thread waits, and raises TimeoutError in the end
  acquires :
      {f a n r : ℕ}
      → LeaseStep
          (record { free = suc f; acquired = a; active = n; returning = r })
          (record { free = f; acquired = suc a; active = n; returning = r })
  counts :
      {f a n r : ℕ}
      → LeaseStep
          (record { free = f; acquired = suc a; active = n; returning = r })
          (record { free = f; acquired = a; active = suc n; returning = r })
  uncounts :
      {f a n r : ℕ}
      → LeaseStep
          (record { free = f; acquired = a; active = suc n; returning = r })
          (record { free = f; acquired = a; active = n; returning = suc r })
  releases :
      {f a n r : ℕ}
      → LeaseStep
          (record { free = f; acquired = a; active = n; returning = suc r })
          (record { free = suc f; acquired = a; active = n; returning = r })

pub data Leases (limit : ℕ) : Permits → Type 0 where
  fresh_budget : {p : Permits} → new_budget limit ≡ some p → Leases limit p
  later : {p q : Permits} → Leases limit p → LeaseStep p q → Leases limit q
