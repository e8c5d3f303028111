-- ===== src/Storage/Retention/Retained.antt =====
-- `enforce_retention`, with the candidates that it sorts.
use mathlib.Core.List.{Perm}
use mathlib.Core.Path.{subst}
use dragon_sniff.Prelude.{◌-◌, not, List, [], ◌∷◌, ◌++◌, length, select, ◌≡◌, sym, All}
use dragon_sniff.Storage.Sessions.{Store}
use dragon_sniff.Storage.Retention.{
  FileSystem, Object, sum_bytes, is_leased, discover_invalid, storage_objects, sort_objects,
  candidates, enforce_retention,
}
use dragon_sniff.Storage.Retention.Oldest.{
  removable, forget_all, Needed, Ends, remove_until-Removes,
}
use dragon_sniff.Storage.Retention.Gone.{IsGone, forget_all-AreGone}
use dragon_sniff.Storage.Retention.Sorted.{
  IsSorted, NoneOlder, AllOlder, sort-IsSorted, select-IsSorted, sort_select-Perm,
  IsSorted-AllOlder,
}

-- The objects that are not active and that no download holds, in the order they are listed.
abbrev pub may_go : Store → List Object → List Object
may_go s os = removable s (select (λ (o : Object). not o.active) os)

-- What a pass leaves of the store `s`, whose objects are `objects`.
pub record Retains (fs : FileSystem) (s : Store) (objects : List Object) (t : Store) : Type 0 where
  pub removed : List Object
  pub rest : List Object
  pub all_listed : Perm (removed ++ rest) (may_go s objects)
  pub sorted : IsSorted removed
  pub oldest_first : AllOlder removed rest
  pub result : t ≡ forget_all removed s
  pub gone : All (IsGone t) removed
  pub needed : Needed s (sum_bytes objects) (length objects) removed
  pub ends :
      Ends fs s (sum_bytes objects - sum_bytes removed) (length objects - length removed) rest

front-NoneOlder : (o : Object) (os ps : List Object) → NoneOlder o (os ++ ps) → NoneOlder o os
front-NoneOlder o [] ps h = tt
front-NoneOlder o (q ∷ os) ps h = (h.0, front-NoneOlder o os ps h.1)

front-IsSorted : (os ps : List Object) → IsSorted (os ++ ps) → IsSorted os
front-IsSorted [] ps h = tt
front-IsSorted (o ∷ os) ps h = (front-NoneOlder o os ps h.0, front-IsSorted os ps h.1)

removable-candidates-IsSorted :
    (s : Store) (os : List Object) → IsSorted (removable s (candidates os))
unfolding removable candidates
removable-candidates-IsSorted s os =
    select-IsSorted (λ (o : Object). not (is_leased s o.session_id))
      (sort_objects (select (λ (o : Object). not o.active) os))
      (sort-IsSorted (select (λ (o : Object). not o.active) os))

removable-candidates-Perm :
    (s : Store) (os : List Object) → Perm (removable s (candidates os)) (may_go s os)
unfolding removable candidates
removable-candidates-Perm s os =
    sort_select-Perm (λ (o : Object). not (is_leased s o.session_id))
      (select (λ (o : Object). not o.active) os)

-- Retention removes, of the sessions that are not active and that no download holds, the oldest: those
-- removed and those left are all of them, and each removed one comes before each left one by its time
-- and then its id, as it does before those removed after it. The store then holds nothing of those
-- removed. Before each removal a limit is exceeded.
-- It ends only where the limits hold, none is left, or the file system refuses to remove the next.
pub enforce_retention-Retains :
    (fs : FileSystem) (s : Store)
    → Retains fs
        (discover_invalid s)
        (storage_objects fs (discover_invalid s))
        (enforce_retention fs s)
unfolding enforce_retention
enforce_retention-Retains fs s =
    let found = discover_invalid s in
    let objects = storage_objects fs found in
    let r =
      remove_until-Removes fs found (sum_bytes objects) (length objects) (candidates objects) in
    let in_order =
      subst IsSorted (sym r.oldest_first) (removable-candidates-IsSorted found objects) in
    record {
      removed = r.removed;
      rest = r.rest;
      all_listed =
          subst (λ l. Perm l (may_go found objects)) (sym r.oldest_first)
            (removable-candidates-Perm found objects);
      sorted = front-IsSorted r.removed r.rest in_order;
      oldest_first = IsSorted-AllOlder r.removed r.rest in_order;
      result = r.result;
      gone =
          subst (λ t. All (IsGone t) r.removed) (sym r.result) (forget_all-AreGone r.removed found);
      needed = r.needed;
      ends = r.ends;
    }
