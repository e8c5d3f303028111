-- ===== src/Recording/Window.antt =====
-- The recorder against the full history of accepted records.
use dragon_sniff.Prelude.{
  ℕ, ◌≢◌, zero, suc, ◌+◌, ◌-◌, ◌≤◌, ◌<◌, ◌≢◌, Bool, List, [], ◌∷◌, ◌++◌, some, str_eq, ltb, ◌==◌,
  length, tail, length-append, ◌≡◌, refl, arith, Bool-cases, inl, inr, ap, sym, ◌∙◌, some-injective,
}
use mathlib.Core.Path.{subst}
use mathlib.Core.List.{append_assoc, append-nil}
use dragon_sniff.Json.{Fields, find, put, find-put}
use dragon_sniff.Recording.{
  Recorder, natural, push, store, append, Call, call, after, accepted, replay, history, draft, init,
}

-- The elements of a list behind the first `n`.
abbrev pub drop : ℕ → List Fields → List Fields
drop zero rs = rs
drop (suc n) [] = []
drop (suc n) (r ∷ rs) = drop n rs

-- Records whose sequences count up from `n`.
abbrev pub AreNumbered : ℕ → List Fields → Type 0
AreNumbered n [] = Unit
AreNumbered n (r ∷ rs) = (find "sequence" r ≡ some (natural n)) × AreNumbered (n + 1) rs

-- The recorder holds the last records of the history, has counted those that are gone, and numbers
-- all of them from 1 with no gap.
pub record Tracks (s : Recorder) (log : List Fields) : Type 0 where
  pub room : 0 < s.max_records
  pub window : s.records ≡ drop s.dropped log
  pub bounded : length s.records ≤ s.max_records
  pub counted : s.dropped + length s.records ≡ length log
  pub next : s.next_sequence ≡ length log + 1
  pub full : (0 < s.dropped → length s.records ≡ s.max_records)
  pub numbered : AreNumbered 1 log

drop-append :
    (n : ℕ) (log : List Fields) (r : Fields)
    → n ≤ length log
    → drop n (log ++ r ∷ []) ≡ drop n log ++ r ∷ []
drop-append zero log r h = refl
drop-append (suc n) [] r h = absurd (omega arith)
drop-append (suc n) (x ∷ log) r h = drop-append n log r (omega arith)

tail-drop : (n : ℕ) (log : List Fields) → tail (drop n log) ≡ drop (suc n) log
tail-drop zero [] = refl
tail-drop zero (x ∷ log) = refl
tail-drop (suc n) [] = refl
tail-drop (suc n) (x ∷ log) = tail-drop n log

length-tail : (rs : List Fields) → length (tail rs) ≡ length rs - 1
length-tail [] = omega arith
length-tail (r ∷ rs) = omega arith

numbered-append :
    (n : ℕ) (log : List Fields) (r : Fields)
    → AreNumbered n log
    → find "sequence" r ≡ some (natural (n + length log))
    → AreNumbered n (log ++ r ∷ [])
numbered-append n [] r h e =
    (let z : n + 0 ≡ n = omega arith in subst (λ k. find "sequence" r ≡ some (natural k)) z e, tt)
numbered-append n (x ∷ log) r h e = (
  h.0,
  numbered-append (n + 1) log r h.1 (
      let z : n + suc (length log) ≡ n + 1 + length log = omega arith in
      subst (λ k. find "sequence" r ≡ some (natural k)) z e),
)

store-Tracks :
    (s : Recorder) (log : List Fields) (r : Fields)
    → Tracks s log
    → find "sequence" r ≡ some (natural s.next_sequence)
    → Tracks (store s r) (log ++ r ∷ [])
unfolding store push
store-Tracks s log r t e = elim (Bool-cases (length s.records == s.max_records)) [
  | inl is_full ↦
      let filled : length s.records ≡ s.max_records = ground arith in
      rw is_full (record {
        room = t.room;
        window =
            ap tail (ap (λ rs. rs ++ r ∷ []) t.window ∙ sym (drop-append s.dropped log r fits))
            ∙ tail-drop s.dropped (log ++ r ∷ [])
            ∙ ap (λ n. drop n (log ++ r ∷ [])) one_more;
        bounded = omega (arith, shorter, longer, filled);
        counted = omega (arith, shorter, longer, total, t.counted, t.room, filled);
        next = omega (arith, total, t.next);
        full = λ h. omega (arith, shorter, longer, filled);
        numbered = numbers;
      })
  | inr has_room ↦ rw has_room (record {
    room = t.room;
    window = ap (λ rs. rs ++ r ∷ []) t.window ∙ sym (drop-append s.dropped log r fits);
    bounded =
        let ne : length s.records ≢ s.max_records = ground arith in
        omega (arith, longer, t.bounded, ne);
    counted = omega (arith, longer, total, t.counted);
    next = omega (arith, total, t.next);
    full = λ h. absurd (ground (arith, t.full h));
    numbered = numbers;
  })
]
  where
    fits : s.dropped ≤ length log
    fits = omega (arith, t.counted)

    longer : length (s.records ++ r ∷ []) ≡ length s.records + 1
    longer = omega (arith, length-append s.records (r ∷ []))

    shorter : length (tail (s.records ++ r ∷ [])) ≡ length (s.records ++ r ∷ []) - 1
    shorter = length-tail (s.records ++ r ∷ [])

    total : length (log ++ r ∷ []) ≡ length log + 1
    total = omega (arith, length-append log (r ∷ []))

    one_more : suc s.dropped ≡ s.dropped + 1
    one_more = omega arith

    numbers : AreNumbered 1 (log ++ r ∷ [])
    numbers =
        numbered-append 1 log r t.numbered
          (subst (λ n. find "sequence" r ≡ some (natural n)) (omega (arith, t.next)) e)

sequence-put :
    (n : ℕ) (c : Call)
    → find "sequence"
        (put "sequence" (natural n) (draft c.kind c.timestamp c.monotonic_ns c.fields))
      ≡ some (natural n)
sequence-put n c = rw find-put refl

append-Tracks :
    (persist : Fields → Bool) (s : Recorder) (log : List Fields) (c : Call)
    → Tracks s log
    → Tracks (after (call persist s c)) (log ++ accepted (call persist s c))
unfolding append
append-Tracks persist s log c t = elim (Bool-cases (str_eq c.kind "")) [
  | inl nameless ↦ rw nameless (rw append-nil t)
  | inr named ↦
      let r =
        put "sequence" (natural s.next_sequence)
          (draft c.kind c.timestamp c.monotonic_ns c.fields) in
      rw named (elim (Bool-cases (persist r)) [
        | inl kept ↦ rw kept (store-Tracks s log r t (sequence-put s.next_sequence c))
        | inr lost ↦ rw lost (rw append-nil t)
      ])
]

-- However the calls go, also where persisting fails or a kind is missing: the recorder holds the last
-- records of what it has accepted, never more than its bound and exactly that once one is dropped,
-- counts the others as dropped, and numbers the accepted records from 1 with no gap.
pub replay-Tracks :
    (persist : Fields → Bool) (s : Recorder) (log : List Fields) (cs : List Call)
    → Tracks s log
    → Tracks (replay persist s cs) (log ++ history persist s cs)
unfolding replay history
replay-Tracks persist s log [] t = rw append-nil t
replay-Tracks persist s log (c ∷ cs) t =
    subst (λ l. Tracks (replay persist (after (call persist s c)) cs) l)
      (append_assoc log (accepted (call persist s c))
        (history persist (after (call persist s c)) cs))
      (replay-Tracks persist (after (call persist s c)) (log ++ accepted (call persist s c)) cs
        (append-Tracks persist s log c t))

-- A new recorder tracks the empty history.
pub init-Tracks : (n : ℕ) (s : Recorder) → init n ≡ some s → Tracks s []
unfolding init
init-Tracks n s h = elim (Bool-cases (ltb n 1)) [
  | inl bad ↦ cc (rw bad at h)
  | inr good ↦
      subst (λ q. Tracks q []) (some-injective (rw good at h))
        (record {
          room = ground arith;
          window = refl;
          bounded = omega arith;
          counted = omega arith;
          next = omega arith;
          full = λ p. absurd (omega arith);
          numbered = tt;
        })
]
