-- ===== src/Storage/Retention/Sorted.antt =====
-- The sort of `_storage_objects_locked`'s candidates.
use mathlib.Core.List.{Perm}
use mathlib.Core.List.Perm
use dragon_sniff.Prelude.{Bool, true, false, List, [], ◌∷◌, ◌++◌, select, ◌≡◌, Bool-cases, inl, inr}
use dragon_sniff.Prelude.TextOrder.{pair_le_total, pair_le_trans}
use dragon_sniff.Storage.Retention.{Object, object_le, insert_object, sort_objects}

-- An object is removed before each of a list.
abbrev pub NoneOlder : Object → List Object → Type 0
NoneOlder o [] = Unit
NoneOlder o (p ∷ ps) = (object_le o p ≡ true) × NoneOlder o ps

abbrev pub IsSorted : List Object → Type 0
IsSorted [] = Unit
IsSorted (o ∷ os) = NoneOlder o os × IsSorted os

object_le_total : (a b : Object) → object_le a b ≡ false → object_le b a ≡ true
object_le_total a b h = pair_le_total (a.order, a.session_id) (b.order, b.session_id) h

object_le_trans :
    (a b c : Object) → object_le a b ≡ true → object_le b c ≡ true → object_le a c ≡ true
object_le_trans a b c h k =
    pair_le_trans (a.order, a.session_id) (b.order, b.session_id) (c.order, c.session_id) h k

NoneOlder-older :
    (o p : Object) (os : List Object) → object_le o p ≡ true → NoneOlder p os → NoneOlder o os
NoneOlder-older o p [] h k = tt
NoneOlder-older o p (q ∷ os) h k = (object_le_trans o p q h k.0, NoneOlder-older o p os h k.1)

NoneOlder-insert :
    (o p : Object) (os : List Object)
    → object_le o p ≡ true
    → NoneOlder o os
    → NoneOlder o (insert_object p os)
unfolding insert_object
NoneOlder-insert o p [] h k = (h, tt)
NoneOlder-insert o p (q ∷ os) h k = elim (Bool-cases (object_le p q)) [
  | inl first ↦ rw (first, insert_object) (h, k)
  | inr later ↦ rw (later, insert_object) (k.0, NoneOlder-insert o p os h k.1)
]

insert-IsSorted : (o : Object) (os : List Object) → IsSorted os → IsSorted (insert_object o os)
unfolding insert_object
insert-IsSorted o [] h = (tt, tt)
insert-IsSorted o (p ∷ os) h = elim (Bool-cases (object_le o p)) [
  | inl first ↦ rw (first, insert_object) ((first, NoneOlder-older o p os first h.0), h)
  | inr later ↦
      rw (later, insert_object)
        (NoneOlder-insert p o os (object_le_total o p later) h.0, insert-IsSorted o os h.1)
]

pub sort-IsSorted : (os : List Object) → IsSorted (sort_objects os)
unfolding sort_objects
sort-IsSorted [] = tt
sort-IsSorted (o ∷ os) = insert-IsSorted o (sort_objects os) (sort-IsSorted os)

NoneOlder-select :
    (p : Object → Bool) (o : Object) (os : List Object) → NoneOlder o os → NoneOlder o (select p os)
NoneOlder-select p o [] h = tt
NoneOlder-select p o (q ∷ os) h = elim (Bool-cases (p q)) [
  | inl kept ↦ rw kept (h.0, NoneOlder-select p o os h.1)
  | inr gone ↦ rw gone (NoneOlder-select p o os h.1)
]

pub select-IsSorted : (p : Object → Bool) (os : List Object) → IsSorted os → IsSorted (select p os)
select-IsSorted p [] h = tt
select-IsSorted p (o ∷ os) h = elim (Bool-cases (p o)) [
  | inl kept ↦ rw kept (NoneOlder-select p o os h.0, select-IsSorted p os h.1)
  | inr gone ↦ rw gone (select-IsSorted p os h.1)
]

-- Of a sorted list cut in two, each object of the front is as old as each behind.
pub data AllOlder : List Object → List Object → Type 0 where
  none_left : {later : List Object} → AllOlder [] later
  before :
      {o : Object} {os later : List Object}
      → NoneOlder o later
      → AllOlder os later
      → AllOlder (o ∷ os) later

NoneOlder-behind :
    (o : Object) (os later : List Object) → NoneOlder o (os ++ later) → NoneOlder o later
NoneOlder-behind o [] later h = h
NoneOlder-behind o (p ∷ os) later h = NoneOlder-behind o os later h.1

pub IsSorted-AllOlder : (os later : List Object) → IsSorted (os ++ later) → AllOlder os later
IsSorted-AllOlder [] later h = AllOlder.none_left
IsSorted-AllOlder (o ∷ os) later h =
    AllOlder.before (NoneOlder-behind o os later h.0) (IsSorted-AllOlder os later h.1)

select_cons-Perm :
    (p : Object → Bool) (o : Object) (os ps : List Object)
    → Perm (select p os) (select p ps)
    → Perm (select p (o ∷ os)) (select p (o ∷ ps))
select_cons-Perm p o os ps h = elim (Bool-cases (p o)) [
  | inl kept ↦ rw kept (Perm.cons o h)
  | inr gone ↦ rw gone h
]

select_swap-Perm :
    (p : Object → Bool) (a b : Object) (os : List Object)
    → Perm (select p (a ∷ b ∷ os)) (select p (b ∷ a ∷ os))
select_swap-Perm p a b os = elim (Bool-cases (p a)) [
  | inr gone ↦ rw gone (Perm.refl _)
  | inl kept ↦ elim (Bool-cases (p b)) [
    | inr away ↦ rw (kept, away) (Perm.refl _)
    | inl there ↦ rw (kept, there) (Perm.swap _ _ _)
  ]
]

insert_select-Perm :
    (p : Object → Bool) (o : Object) (os : List Object)
    → Perm (select p (insert_object o os)) (select p (o ∷ os))
unfolding insert_object
insert_select-Perm p o [] = Perm.refl _
insert_select-Perm p o (q ∷ os) = elim (Bool-cases (object_le o q)) [
  | inl first ↦ rw (first, insert_object) (Perm.refl _)
  | inr later ↦
      rw (later, insert_object)
        (Perm.trans (select_cons-Perm p q (insert_object o os) (o ∷ os) (insert_select-Perm p o os))
          (select_swap-Perm p q o os))
]

pub sort_select-Perm :
    (p : Object → Bool) (os : List Object) → Perm (select p (sort_objects os)) (select p os)
unfolding sort_objects
sort_select-Perm p [] = Perm.refl _
sort_select-Perm p (o ∷ os) =
    Perm.trans (insert_select-Perm p o (sort_objects os))
      (select_cons-Perm p o (sort_objects os) os (sort_select-Perm p os))
