-- ===== src/Storage/Evidence/Tail.antt =====
-- The backward search against a plain definition of where the complete records end.
use dragon_sniff.Prelude.{
  ℕ, zero, suc, ◌+◌, ◌-◌, ◌≤◌, ◌<◌, Bool, true, false, List, [], ◌∷◌, ◌++◌, Option, none, some, ltb,
  length, take, ◌≡◌, refl, arith, ap, sym, ◌∙◌,
}
use dragon_sniff.Runtime.{Bytes}
use dragon_sniff.Storage.Evidence.{
  drop, rfind, search_back, last_complete_record_end, io_chunk_bytes,
}

abbrev pub end_after : Option ℕ → ℕ
end_after none = 0
end_after (some i) = suc i

-- The length of the longest front of the stream that ends with a newline, in one pass.
abbrev pub complete_end : Bytes → ℕ
complete_end stream = end_after (rfind stream)

pub rfind-append-none : (xs ys : Bytes) → rfind ys ≡ none → rfind (xs ++ ys) ≡ rfind xs
unfolding rfind
rfind-append-none [] ys h = h
rfind-append-none (x ∷ xs) ys h = rw (rfind-append-none xs ys h) refl

rfind-append-some :
    (xs ys : Bytes) (i : ℕ) → rfind ys ≡ some i → rfind (xs ++ ys) ≡ some (length xs + i)
unfolding rfind
rfind-append-some [] ys i h = h ∙ ap some (omega arith)
rfind-append-some (x ∷ xs) ys i h = rw (rfind-append-some xs ys i h) (ap some (omega arith))

take_nil : {A : Type 0} (n : ℕ) → take {A = A} n [] ≡ []
take_nil zero = refl
take_nil (suc n) = refl

-- A longer front is a shorter one and the bytes between.
take-split :
    {A : Type 0} (m n : ℕ) (xs : List A) → m ≤ n → take n xs ≡ take m xs ++ take (n - m) (drop m xs)
take-split zero n xs h = ap (λ k. take k xs) (omega arith)
take-split (suc m) zero xs h = absurd (omega arith)
take-split (suc m) (suc n) [] h = sym (take_nil (suc n - suc m))
take-split (suc m) (suc n) (x ∷ xs) h =
    ap (λ l. x ∷ l)
      (take-split m n xs (omega arith) ∙ ap (λ k. take m xs ++ take k (drop m xs)) (omega arith))

length-take : {A : Type 0} (n : ℕ) (xs : List A) → n ≤ length xs → length (take n xs) ≡ n
length-take zero xs h = omega arith
length-take (suc n) [] h = absurd (omega arith)
length-take (suc n) (x ∷ xs) h = omega (arith, length-take n xs)

pub take_all : {A : Type 0} (xs : List A) → take (length xs) xs ≡ xs
take_all [] = refl
take_all (x ∷ xs) = ap (λ l. x ∷ l) (take_all xs)

search_back-eq :
    (size fuel : ℕ) (stream : Bytes) (position : ℕ)
    → 0 < size
    → position ≤ fuel
    → position ≤ length stream
    → search_back size fuel stream position ≡ complete_end (take position stream)
unfolding search_back rfind
search_back-eq size zero stream position positive enough inside =
    let e : position ≡ 0 = omega arith in rw e (unfold rfind in refl)
search_back-eq size (suc fuel) stream position positive enough inside =
    by_position (ltb 0 position) refl (search_back-eq size fuel stream (position - size) positive)
  where
    start : ℕ
    start = position - size

    chunk : Bytes
    chunk = take (position - start) (drop start stream)

    by_chunk :
        (o : Option ℕ)
        → rfind chunk ≡ o
        → start < position
        → ltb 0 position ≡ true
        → (start ≤ fuel
            → start ≤ length stream
            → search_back size fuel stream start ≡ complete_end (take start stream))
        → search_back size (suc fuel) stream position ≡ complete_end (take position stream)
    by_chunk (some i) found below more earlier =
        let parts : take position stream ≡ take start stream ++ chunk =
          take-split start position stream (omega (arith, below)) in
        let whole : rfind (take position stream) ≡ some (start + i) =
          ap rfind parts
          ∙ rfind-append-some (take start stream) chunk i found
          ∙ ap (λ n. some (n + i)) (length-take start stream (omega (arith, below))) in
        let one : start + i + 1 ≡ suc (start + i) = omega arith in
        rw (more, found, search_back) (one ∙ sym (ap end_after whole))
    by_chunk none missing below more earlier =
        let parts : take position stream ≡ take start stream ++ chunk =
          take-split start position stream (omega (arith, below)) in
        let whole : rfind (take position stream) ≡ rfind (take start stream) =
          ap rfind parts ∙ rfind-append-none (take start stream) chunk missing in
        rw (more, missing, search_back)
          (earlier (omega (arith, below)) (omega (arith, below)) ∙ sym (ap end_after whole))

    by_position :
        (b : Bool)
        → ltb 0 position ≡ b
        → (start ≤ fuel
            → start ≤ length stream
            → search_back size fuel stream start ≡ complete_end (take start stream))
        → search_back size (suc fuel) stream position ≡ complete_end (take position stream)
    by_position false stop earlier =
        let e : position ≡ 0 = ground (arith, stop) in
        rw (stop, search_back) (sym (ap (λ n. complete_end (take n stream)) e))
    by_position true more earlier = by_chunk (rfind chunk) refl (ground (arith, more)) more earlier

-- However the chunks cut the file up, also where a newline is the last byte of one or the first of the
-- next, the search finds the end of the last complete record.
pub last_complete_record_end-eq :
    (stream : Bytes) → last_complete_record_end stream ≡ complete_end stream
unfolding last_complete_record_end
last_complete_record_end-eq stream =
    search_back-eq io_chunk_bytes (length stream) stream (length stream) (omega arith) (omega arith)
      (omega arith)
    ∙ ap complete_end (take_all stream)
