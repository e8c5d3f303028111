-- ===== src/Assess/Attempts/Pairing.antt =====
-- Properties of the attempts that the evidence gives.
use dragon_sniff.Prelude.{
  ◌≤◌, List, [], ◌∷◌, ◌++◌, some, ◌≡◌, refl, arith, Bool-cases, ◌⊎◌, inl, inr, All, All-append, map,
  map_option, select, ◌>>=◌, >>=-eq-some, some-injective,
}
use dragon_sniff.Runtime.{Runtime}
use dragon_sniff.Assess.Evidence.{Record, Evidence}
use dragon_sniff.Assess.Profile.{Signal, Source, dragon, prusalink}
use dragon_sniff.Assess.Timeline.{Attempt}
use dragon_sniff.Assess.Attempts.{
  lone_attempt, pair_attempt, settle, settle_all, Exchange, insert_attempt, sort_attempts,
  attempt_le, dragon_attempts, observation_attempt, prusalink_attempts, attempts_for,
  exchanges_from, run_records, is_observation,
}
use mathlib.Core.Path.{subst}

Source-cases : (s : Source) → (s ≡ dragon) ⊎ (s ≡ prusalink)
Source-cases dragon = inl refl
Source-cases prusalink = inr refl

abbrev pub IsTimed : Attempt → Type 0
IsTimed a = a.start_ns ≤ a.end_ns

pair_attempt-IsTimed :
    (py : Runtime) (signal : Signal) (request completion : Record) (a : Attempt)
    → pair_attempt py signal request completion ≡ some a
    → IsTimed a
unfolding pair_attempt
pair_attempt-IsTimed py signal request completion a h = ground arith

lone-IsTimed : (rs : List Record) → All IsTimed (map lone_attempt rs)
lone-IsTimed [] = tt
lone-IsTimed (r ∷ rs) = (omega arith, lone-IsTimed rs)

lone_settled-IsTimed :
    (rs : List Record) (as' : List Attempt)
    → some (map lone_attempt rs) ≡ some as'
    → All IsTimed as'
lone_settled-IsTimed rs as' h = subst (All IsTimed) (some-injective h) (lone-IsTimed rs)

settle-IsTimed :
    (py : Runtime) (signal : Signal) (opened closed : List Record) (as' : List Attempt)
    → settle py signal opened closed ≡ some as'
    → All IsTimed as'
unfolding settle
settle-IsTimed py signal (r ∷ []) (c ∷ []) as' h =
    let (a, e, f) = >>=-eq-some (pair_attempt py signal r c) (λ a. some (a ∷ [])) h in
    subst (All IsTimed) (some-injective f) (pair_attempt-IsTimed py signal r c a e, tt)
settle-IsTimed py signal opened closed as' h = lone_settled-IsTimed (opened ++ closed) as' h

settle_all-IsTimed :
    (py : Runtime) (signal : Signal) (xs : List Exchange) (as' : List Attempt)
    → settle_all py signal xs ≡ some as'
    → All IsTimed as'
unfolding settle_all
settle_all-IsTimed py signal [] as' h = subst (All IsTimed) (some-injective h) tt
settle_all-IsTimed py signal (x ∷ xs) as' h =
    let (here, e, h₁) =
      >>=-eq-some (settle py signal x.opened x.closed)
        (λ here. settle_all py signal xs >>= λ rest. some (here ++ rest)) h in
    let (rest, f, g) = >>=-eq-some (settle_all py signal xs) (λ rest. some (here ++ rest)) h₁ in
    subst (All IsTimed) (some-injective g) (
      All-append IsTimed here rest (settle-IsTimed py signal x.opened x.closed here e)
        (settle_all-IsTimed py signal xs rest f))

insert-All :
    (P : Attempt → Type 0) (a : Attempt) (bs : List Attempt)
    → P a
    → All P bs
    → All P (insert_attempt a bs)
unfolding insert_attempt
insert-All P a [] p q = (p, tt)
insert-All P a (b ∷ bs) p q = elim (Bool-cases (attempt_le a b)) [
  | inl first ↦ rw first (p, q)
  | inr later ↦ rw later (q.0, insert-All P a bs p q.1)
]

pub sort-All : (P : Attempt → Type 0) (bs : List Attempt) → All P bs → All P (sort_attempts bs)
unfolding sort_attempts
sort-All P [] q = tt
sort-All P (b ∷ bs) q = insert-All P b (sort_attempts bs) q.0 (sort-All P bs q.1)

dragon_attempts-IsTimed :
    (py : Runtime) (e : Evidence) (signal : Signal) (as' : List Attempt)
    → dragon_attempts py e signal ≡ some as'
    → All IsTimed as'
unfolding dragon_attempts
dragon_attempts-IsTimed py e signal as' h =
    let xs = exchanges_from signal (record { known = []; unidentified = [] }) (run_records e) in
    let (settled, f, g) =
      >>=-eq-some (settle_all py signal xs.known)
        (λ s. some (sort_attempts (map lone_attempt xs.unidentified ++ s))) h in
    subst (All IsTimed) (some-injective g) (
      sort-All IsTimed (map lone_attempt xs.unidentified ++ settled) (
        All-append IsTimed (map lone_attempt xs.unidentified) settled (lone-IsTimed xs.unidentified)
          (settle_all-IsTimed py signal xs.known settled f)))

observation_attempt-IsTimed :
    (py : Runtime) (signal : Signal) (r : Record) (a : Attempt)
    → observation_attempt py signal r ≡ some a
    → IsTimed a
unfolding observation_attempt
observation_attempt-IsTimed py signal r a h = ground arith

observations-IsTimed :
    (py : Runtime) (signal : Signal) (rs : List Record) (as' : List Attempt)
    → map_option (observation_attempt py signal) rs ≡ some as'
    → All IsTimed as'
observations-IsTimed py signal [] as' h = subst (All IsTimed) (some-injective h) tt
observations-IsTimed py signal (r ∷ rs) as' h =
    let (a, e, h₁) =
      >>=-eq-some (observation_attempt py signal r)
        (λ a. map_option (observation_attempt py signal) rs >>= λ rest. some (a ∷ rest)) h in
    let (rest, f, g) =
      >>=-eq-some (map_option (observation_attempt py signal) rs) (λ rest. some (a ∷ rest)) h₁ in
    subst (All IsTimed) (some-injective g)
      (observation_attempt-IsTimed py signal r a e, observations-IsTimed py signal rs rest f)

-- Whatever the evidence and the signal, no attempt ends before it starts.
pub attempts_for-IsTimed :
    (py : Runtime) (e : Evidence) (signal : Signal) (as' : List Attempt)
    → attempts_for py e signal ≡ some as'
    → All IsTimed as'
unfolding attempts_for prusalink_attempts
attempts_for-IsTimed py e signal as' h = elim (Source-cases signal.source) [
  | inl d ↦ dragon_attempts-IsTimed py e signal as' (ground arith)
  | inr p ↦
      observations-IsTimed py signal (select (is_observation signal) (run_records e)) as'
        (ground arith)
]
