-- ===== src/Client/Sse/Lines.antt =====
-- One line of a stream: reading it, stripping it and taking it in.
use dragon_sniff.Prelude.{
  ℕ, zero, suc, ◌+◌, ◌≤◌, ◌<◌, String, Bool, true, false, not, ◌&&◌, [], ◌∷◌, ◌++◌, Option, none,
  some, ltb, ◌==◌, length, is_empty, all, length-append, ◌≡◌, refl, arith, ap, ◌∙◌,
}
use dragon_sniff.Runtime.{Bytes}
use dragon_sniff.Client.Parsed.{Text, Codec}
use dragon_sniff.Client.Sse.{
  readline, onto_first, rstrip, is_eol, Pending, take_line, event_of, with_parsed, yielded,
  first_error, then_fresh, deliver, on_read, on_line, iter_sse,
}

-- A byte of ASCII that ends no line.
abbrev pub is_clean : ℕ → Bool
is_clean b = ltb b 128 && not (is_eol b)

-- ASCII is decoded as it is.
abbrev pub DecodesAscii : Codec → Type 0
DecodesAscii c = (t : Text) → all is_clean t ≡ true → c.decode t ≡ (t, none)

pub clean_byte :
    (b : ℕ) (r : Bool)
    → (is_clean b && r) ≡ true
    → ((b == 10) ≡ false) × (is_eol b ≡ false) × (r ≡ true)
clean_byte b r h = (ground (arith, h), ground (arith, h), ground (arith, h))

readline-append :
    (limit : ℕ) (l rest : Bytes)
    → all is_clean l ≡ true
    → length l < limit
    → readline limit (l ++ 10 ∷ rest) ≡ (l ++ 10 ∷ [], rest)
unfolding readline
readline-append zero l rest h k = absurd (omega arith)
readline-append (suc n) [] rest h k = refl
readline-append (suc n) (x ∷ l) rest h k =
    let c = clean_byte x (all is_clean l) h in
    rw (c.0) (ap (onto_first x) (readline-append n l rest c.2 (omega (arith, k))))

and_false : (a : Bool) → (a && false) ≡ false
and_false a = ground arith

rstrip-append : (l : Bytes) → all is_clean l ≡ true → rstrip (l ++ 10 ∷ []) ≡ l
unfolding rstrip
rstrip-append [] h = refl
rstrip-append (x ∷ l) h =
    let c = clean_byte x (all is_clean l) h in
    rw (rstrip-append l c.2, c.1, and_false (is_empty l)) refl

first_error-none : (e : Option String) → first_error e none ≡ e
first_error-none none = refl
first_error-none (some e) = refl

abbrev pub sized : ℕ → Pending → Pending
sized n p = record p { size = p.size + n }

-- One line that is not empty.
on_line-append :
    (c : Codec) (x : ℕ) (l : Bytes) (p : Pending)
    → DecodesAscii c
    → all is_clean (x ∷ l) ≡ true
    → on_line c (x ∷ l ++ 10 ∷ []) p
      ≡ some ([], take_line (x ∷ l) (sized (length (x ∷ l ++ 10 ∷ [])) p))
unfolding on_line
on_line-append c x l p ascii h =
    rw (rstrip-append (x ∷ l) h, ascii (x ∷ l) h)
      (ap
        (λ e. some (
          [],
          take_line (x ∷ l)
              (record p { size = p.size + length (x ∷ l ++ 10 ∷ []); decode_error = e }),
        ))
        (first_error-none p.decode_error))

not_above : (n m : ℕ) → n ≤ m → ltb m n ≡ false
not_above n m h = ground (arith, h)

pub iter_sse-line :
    (c : Codec) (most reads x : ℕ) (l rest : Bytes) (p : Pending)
    → DecodesAscii c
    → all is_clean (x ∷ l) ≡ true
    → p.size + length (x ∷ l) + 1 ≤ most
    → iter_sse c most (suc reads) ((x ∷ l) ++ 10 ∷ rest) p
      ≡ iter_sse c most reads rest (take_line (x ∷ l) (sized (length (x ∷ l ++ 10 ∷ [])) p))
unfolding iter_sse on_read
iter_sse-line c most reads x l rest p ascii h k =
    let fits =
      not_above (p.size + length (x ∷ l ++ 10 ∷ [])) most
        (omega (arith, k, length-append l (10 ∷ []))) in
    ap (λ (r : Bytes × Bytes). on_read c most r.0 p (λ q. iter_sse c most reads r.1 q))
      (readline-append (most + 1) (x ∷ l) rest h (omega (arith, k)))
    ∙ (rw (fits, on_read)
        (ap (λ r. deliver r (λ q. iter_sse c most reads rest q)) (on_line-append c x l p ascii h)))

-- The blank line behind an event.
pub iter_sse-blank :
    (c : Codec) (most reads : ℕ) (rest : Bytes) (p : Pending)
    → DecodesAscii c
    → p.size + 1 ≤ most
    → iter_sse c most (suc reads) (10 ∷ rest) p
      ≡ deliver (then_fresh (yielded c p)) (iter_sse c most reads rest)
unfolding iter_sse on_read on_line rstrip event_of with_parsed
iter_sse-blank c most reads rest p ascii k =
    ap (λ (r : Bytes × Bytes). on_read c most r.0 p (λ q. iter_sse c most reads r.1 q))
      (readline-append (most + 1) [] rest refl (omega (arith, k)))
    ∙ (rw (not_above (p.size + 1) most k, ascii [] refl, on_read)
        (ap
          (λ e.
            deliver (then_fresh (yielded c (record p { decode_error = e })))
              (iter_sse c most reads rest))
          (first_error-none p.decode_error)))
