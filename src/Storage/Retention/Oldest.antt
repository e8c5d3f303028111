-- ===== src/Storage/Retention/Oldest.antt =====
-- The loop of `enforce_retention` removes sessions in the order it gets them, and no more than it must.
use dragon_sniff.Prelude.{
  ℕ, ◌-◌, String, Bool, true, false, not, List, [], ◌∷◌, ◌++◌, length, select, ◌≡◌, refl, arith, ap,
  sym, ◌∙◌, Bool-cases, inl, inr,
}
use dragon_sniff.Storage.Sessions.{Store}
use dragon_sniff.Storage.Retention.{
  FileSystem, Object, sum_bytes, forget, within, is_leased, remove_until,
}

-- The candidates that no download holds, in the order of removal.
unfoldable pub removable : Store → List Object → List Object
removable s os = select (λ (o : Object). not (is_leased s o.session_id)) os

unfoldable pub forget_all : List Object → Store → Store
forget_all [] s = s
forget_all (o ∷ os) s = forget_all os (forget o.session_id s)

-- Why the loop ends: the limits hold, there is nothing left to remove, or the file system refuses.
pub data Ends (fs : FileSystem) (s : Store) (total count : ℕ) : List Object → Type 0 where
  fits : {os : List Object} → within s total count ≡ true → Ends fs s total count os
  exhausted : Ends fs s total count []
  refused :
      {o : Object} {os : List Object}
      → fs.rmtree o.session_id ≡ false
      → Ends fs s total count (o ∷ os)

-- The limits were exceeded before each removal.
abbrev pub Needed : Store → ℕ → ℕ → List Object → Type 0
Needed s total count [] = Unit
Needed s total count (o ∷ os) =
    (within s total count ≡ false) × Needed s (total - o.bytes) (count - 1) os

pub record Removes (fs : FileSystem) (s : Store) (total count : ℕ) (os : List Object) (t : Store)
    : Type 0 where
  pub removed : List Object
  pub rest : List Object
  pub oldest_first : removed ++ rest ≡ removable s os
  pub result : t ≡ forget_all removed s
  pub needed : Needed s total count removed
  pub ends : Ends fs s (total - sum_bytes removed) (count - length removed) rest

removable-held :
    (s : Store) (o : Object) (os : List Object)
    → is_leased s o.session_id ≡ true
    → removable s (o ∷ os) ≡ removable s os
unfolding removable
removable-held s o os h = rw h refl

removable-free :
    (s : Store) (o : Object) (os : List Object)
    → is_leased s o.session_id ≡ false
    → removable s (o ∷ os) ≡ o ∷ removable s os
unfolding removable
removable-free s o os h = rw h refl

-- Removing a session leaves the limits as they are.
Needed-forget :
    (s : Store) (id : String) (total count : ℕ) (os : List Object)
    → Needed (forget id s) total count os
    → Needed s total count os
unfolding forget
Needed-forget s id total count [] h = tt
Needed-forget s id total count (o ∷ os) h =
    (h.0, Needed-forget s id (total - o.bytes) (count - 1) os h.1)

Ends-at :
    (fs : FileSystem) (s : Store) (total count : ℕ) {total' count' : ℕ} {os : List Object}
    → total ≡ total'
    → count ≡ count'
    → Ends fs s total count os
    → Ends fs s total' count' os
Ends-at fs s total count e f (fits h) = fits (rw (← e, ← f) h)
Ends-at fs s total count e f exhausted = exhausted
Ends-at fs s total count e f (Ends.refused h) = Ends.refused h

Ends-forget :
    (fs : FileSystem) (s : Store) (id : String) (total count : ℕ) {total' count' : ℕ}
    {os : List Object}
    → total ≡ total'
    → count ≡ count'
    → Ends fs (forget id s) total count os
    → Ends fs s total' count' os
unfolding forget
Ends-forget fs s id total count e f (fits h) = fits (rw (← e, ← f) h)
Ends-forget fs s id total count e f exhausted = exhausted
Ends-forget fs s id total count e f (Ends.refused h) = Ends.refused h

-- The loop removes, of the candidates that no download holds, the front of the list and nothing else. Before each removal a limit is exceeded. It ends only where the limits
-- hold, no candidate is left, or the file system refuses to remove the next.
pub remove_until-Removes :
    (fs : FileSystem) (s : Store) (total count : ℕ) (os : List Object)
    → Removes fs s total count os (remove_until fs s total count os)
unfolding removable forget_all forget remove_until
remove_until-Removes fs s total count [] = record {
  removed = [];
  rest = [];
  oldest_first = refl;
  result = refl;
  needed = tt;
  ends = Ends-at fs s total count (omega arith) (omega arith) exhausted;
}
remove_until-Removes fs s total count (o ∷ os) =
    by_limits (within s total count) refl (remove_until-Removes fs s total count os)
      (remove_until-Removes fs (forget o.session_id s) (total - o.bytes) (count - 1) os)
  where
    by_limits :
        (b : Bool)
        → within s total count ≡ b
        → Removes fs s total count os (remove_until fs s total count os)
        → Removes fs
            (forget o.session_id s)
            (total - o.bytes)
            (count - 1)
            os
            (remove_until fs (forget o.session_id s) (total - o.bytes) (count - 1) os)
        → Removes fs s total count (o ∷ os) (remove_until fs s total count (o ∷ os))
    by_limits true e skip remove =
        rw (e, remove_until)
          (record {
            removed = [];
            rest = removable s (o ∷ os);
            oldest_first = refl;
            result = refl;
            needed = tt;
            ends = Ends-at fs s total count (omega arith) (omega arith) (fits e);
          })
    by_limits false e skip remove = elim (Bool-cases (is_leased s o.session_id)) [
      | inl held ↦
          rw (e, held, remove_until)
            (record {
              removed = skip.removed;
              rest = skip.rest;
              oldest_first = skip.oldest_first ∙ sym (removable-held s o os held);
              result = skip.result;
              needed = skip.needed;
              ends = skip.ends;
            })
      | inr free ↦ elim (Bool-cases (fs.rmtree o.session_id)) [
        | inr refuses ↦
            rw (e, free, refuses, remove_until)
              (record {
                removed = [];
                rest = o ∷ removable s os;
                oldest_first = sym (removable-free s o os free);
                result = refl;
                needed = tt;
                ends = Ends-at fs s total count (omega arith) (omega arith) (Ends.refused refuses);
              })
        | inl gone ↦
            rw (e, free, gone, remove_until)
              (record {
                removed = o ∷ remove.removed;
                rest = remove.rest;
                oldest_first =
                    ap (λ l. o ∷ l) remove.oldest_first ∙ sym (removable-free s o os free);
                result = remove.result;
                needed = (
                  e,
                  Needed-forget s o.session_id (total - o.bytes) (count - 1) remove.removed
                      remove.needed,
                );
                ends =
                    Ends-forget fs s o.session_id (total - o.bytes - sum_bytes remove.removed)
                      (count - 1 - length remove.removed) (omega arith) (omega arith) remove.ends;
              })
      ]
    ]
