-- ===== src/Storage/Retention/Spared.antt =====
-- No active session and none that is being downloaded is removed.
use dragon_sniff.Prelude.{
  String, Bool, true, false, not, ◌&&◌, List, [], ◌∷◌, ◌++◌, some, str_eq, eq_iff, length, select,
  map, is_some, ◌≡◌, refl, arith, ap, sym, ◌∙◌, ◌⊎◌, Bool-cases, inl, inr, All, All-append,
  some-injective,
}
use mathlib.Core.Path.{subst}
use dragon_sniff.Prelude.Dict.{Dict, lookup, lookup-erase}
use dragon_sniff.Storage.Metadata.{Metadata, LoadError, is_valid_session_id}
use dragon_sniff.Storage.Sessions.{Store, Directory, is_active}
use dragon_sniff.Storage.Retention.{
  FileSystem, Object, sum_bytes, forget, is_leased, present_invalid, discover_invalid, valid_object,
  invalid_object, storage_objects, object_le, insert_object, sort_objects, candidates,
  enforce_retention,
}
use dragon_sniff.Storage.Retention.Oldest.{removable, forget_all, remove_until-Removes}

-- An object of another session.
abbrev Differs : String → Object → Type 0
Differs id o = str_eq o.session_id id ≡ false

forget_all-metadata :
    (id : String) (os : List Object) (s : Store)
    → All (Differs id) os
    → lookup id (forget_all os s).metadata ≡ lookup id s.metadata
unfolding forget_all forget
forget_all-metadata id [] s h = refl
forget_all-metadata id (o ∷ os) s h =
    forget_all-metadata id os (forget o.session_id s) h.1
    ∙ lookup-erase o.session_id id s.metadata
    ∙ (rw h.0 refl)

forget_all-directories :
    (id : String) (os : List Object) (s : Store)
    → All (Differs id) os
    → lookup id (forget_all os s).directories ≡ lookup id s.directories
unfolding forget_all forget
forget_all-directories id [] s h = refl
forget_all-directories id (o ∷ os) s h =
    forget_all-directories id os (forget o.session_id s) h.1
    ∙ lookup-erase o.session_id id s.directories
    ∙ (rw h.0 refl)

module _ (P : Object → Type 0) where
  All-insert_object : (o : Object) (os : List Object) → P o → All P os → All P (insert_object o os)
  unfolding insert_object
  All-insert_object o [] p ps = (p, tt)
  All-insert_object o (q ∷ qs) p ps = elim (Bool-cases (object_le o q)) [
    | inl le ↦ rw le (p, ps)
    | inr gt ↦ rw gt (ps.0, All-insert_object o qs p ps.1)
  ]

  All-sort_objects : (os : List Object) → All P os → All P (sort_objects os)
  unfolding sort_objects
  All-sort_objects [] ps = tt
  All-sort_objects (o ∷ os) ps =
      All-insert_object o (sort_objects os) ps.0 (All-sort_objects os ps.1)

  -- What a selection keeps has both properties.
  All-selected :
      (p : Object → Bool) (os : List Object) → All (λ o. p o ≡ true → P o) os → All P (select p os)
  All-selected p [] h = tt
  All-selected p (o ∷ os) h = elim (Bool-cases (p o)) [
    | inl kept ↦ rw kept (h.0 kept, All-selected p os h.1)
    | inr dropped ↦ rw dropped (All-selected p os h.1)
  ]

  All-front : (xs ys : List Object) → All P (xs ++ ys) → All P xs
  All-front [] ys h = tt
  All-front (x ∷ xs) ys h = (h.0, All-front xs ys h.1)

not-true : (b : Bool) → not b ≡ true → b ≡ false
not-true b h = ground arith

-- Nothing of a leased session is removable.
leased-Differs :
    (id : String) (s : Store)
    → is_leased s id ≡ true
    → (o : Object) → not (is_leased s o.session_id) ≡ true
    → Differs id o
leased-Differs id s leased o free = elim (Bool-cases (str_eq o.session_id id)) [
  | inr other ↦ other
  | inl same ↦
      let e : o.session_id ≡ id = (eq_iff o.session_id id).0 same in cc (not-true _ (rw e at free))
]

All-const : {A : Type 0} (P : A → Type 0) (xs : List A) → ((x : A) → P x) → All P xs
All-const P [] h = tt
All-const P (x ∷ xs) h = (h x, All-const P xs h)

-- Each entry is the one that its own key finds, and carries that key as its id.
abbrev pub IsIndex : Dict Metadata → Type 0
IsIndex d = All (λ (e : String × Metadata). (lookup e.0 d ≡ some e.1) × (e.1.session_id ≡ e.0)) d

All-map :
    {A B : Type 0} (P : B → Type 0) (f : A → B) (xs : List A)
    → All (λ x. P (f x)) xs
    → All P (map f xs)
All-map P f [] h = tt
All-map P f (x ∷ xs) h = (h.0, All-map P f xs h.1)

All-imp :
    {A : Type 0} (P Q : A → Type 0) (xs : List A) → ((x : A) → P x → Q x) → All P xs → All Q xs
All-imp P Q [] f h = tt
All-imp P Q (x ∷ xs) f h = (f x h.0, All-imp P Q xs f h.1)

-- What is registered as invalid has no loaded session.
present_invalid-All :
    (known : Dict LoadError) (loaded : Dict Metadata) (ds : Dict Directory)
    → All
        (λ (e : String × LoadError). is_some (lookup e.0 loaded) ≡ false)
        (present_invalid known loaded ds)
unfolding present_invalid
present_invalid-All known loaded [] = tt
present_invalid-All known loaded ((id, d) ∷ rest) =
    elim (Bool-cases (is_valid_session_id id && not (is_some (lookup id loaded)))) [
      | inl kept ↦ rw kept (ground (arith, kept), present_invalid-All known loaded rest)
      | inr dropped ↦ rw dropped (present_invalid-All known loaded rest)
    ]

module _ (fs : FileSystem) (s : Store) (id : String) (m : Metadata) (index : IsIndex s.metadata)
    (held : lookup id s.metadata ≡ some m) where
  -- An object that may be removed is of another session.
  abbrev Safe : Object → Type 0
  Safe o = not o.active ≡ true → Differs id o

  valid-Safe :
      is_active m ≡ true
      → (e : String × Metadata) → (lookup e.0 s.metadata ≡ some e.1) × (e.1.session_id ≡ e.0)
      → Safe (valid_object (discover_invalid s) e.1)
  unfolding valid_object
  valid-Safe live (k, n) (found, key) stopped = elim (Bool-cases (str_eq n.session_id id)) [
    | inr other ↦ other
    | inl same ↦
        let here : k ≡ id = sym key ∙ (eq_iff n.session_id id).0 same in
        let equal : n ≡ m =
          some-injective (sym found ∙ ap (λ j. lookup j s.metadata) here ∙ held) in
        cc (rw (ap is_active equal ∙ live) at stopped)
  ]

  invalid-Safe :
      (e : String × LoadError)
      → is_some (lookup e.0 s.metadata) ≡ false
      → Safe (invalid_object fs (discover_invalid s) e.0)
  unfolding invalid_object
  invalid-Safe (k, e) none_there stopped = elim (Bool-cases (str_eq k id)) [
    | inr other ↦ other
    | inl same ↦
        cc (rw (ap (λ j. is_some (lookup j s.metadata)) ((eq_iff k id).0 same), held) at none_there)
  ]

  active-Differs :
      is_active m ≡ true → All (Differs id) (candidates (storage_objects fs (discover_invalid s)))
  unfolding candidates storage_objects discover_invalid
  active-Differs live = All-sort_objects (Differs id) _ (
      All-selected (Differs id) (λ o. not o.active) _
        (All-append Safe _ _
          (All-map Safe _ s.metadata (All-imp _ _ s.metadata (valid-Safe live) index))
          (All-map Safe _ _ (
            All-imp _ _ _ invalid-Safe
              (present_invalid-All s.invalid_sessions s.metadata s.directories)))))

  removable-Differs :
      (is_active m ≡ true) ⊎ (is_leased s id ≡ true)
      → All
          (Differs id)
          (removable (discover_invalid s) (candidates (storage_objects fs (discover_invalid s))))
  unfolding removable discover_invalid
  removable-Differs reason =
      All-selected (Differs id) (λ o. not (is_leased s o.session_id))
        (candidates (storage_objects fs (discover_invalid s))) (each reason)
    where
      each :
          (is_active m ≡ true) ⊎ (is_leased s id ≡ true)
          → All
              (λ o. not (is_leased s o.session_id) ≡ true → Differs id o)
              (candidates (storage_objects fs (discover_invalid s)))
      each (inl live) =
          All-imp (Differs id) (λ o. not (is_leased s o.session_id) ≡ true → Differs id o)
            (candidates (storage_objects fs (discover_invalid s))) (λ o d free. d)
            (active-Differs live)
      each (inr leased) =
          All-const (λ o. not (is_leased s o.session_id) ≡ true → Differs id o)
            (candidates (storage_objects fs (discover_invalid s))) (leased-Differs id s leased)

  -- Retention leaves a session that is active or has an open download: its metadata are still there, and
  -- its directory with all of its files is as it was, however far the limits are exceeded. Each entry of
  -- the metadata is found under its own id.
  pub enforce_retention-spares :
      (is_active m ≡ true) ⊎ (is_leased s id ≡ true)
      → (lookup id (enforce_retention fs s).metadata ≡ some m)
        × (lookup id (enforce_retention fs s).directories ≡ lookup id s.directories)
  unfolding enforce_retention discover_invalid
  enforce_retention-spares reason =
      let r =
        remove_until-Removes fs (discover_invalid s)
          (sum_bytes (storage_objects fs (discover_invalid s)))
          (length (storage_objects fs (discover_invalid s)))
          (candidates (storage_objects fs (discover_invalid s))) in
      let spared : All (Differs id) r.removed =
        All-front (Differs id) r.removed r.rest
          (subst (All (Differs id)) (sym r.oldest_first) (removable-Differs reason)) in
      (
        ap (λ (t : Store). lookup id t.metadata) r.result
            ∙ forget_all-metadata id r.removed (discover_invalid s) spared
            ∙ held,
        ap (λ (t : Store). lookup id t.directories) r.result
            ∙ forget_all-directories id r.removed (discover_invalid s) spared,
      )
