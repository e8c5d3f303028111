-- ===== src/Storage/Evidence/Writing.antt =====
-- What a write leaves in the file.
use dragon_sniff.Prelude.{
  ℕ, zero, suc, ◌-◌, ◌≤◌, true, List, [], ◌∷◌, ◌++◌, Option, none, some, length, take, ◌≡◌, refl,
  arith, ap, sym, ◌∙◌,
}
use mathlib.Core.List.{append_assoc, append-nil}
use dragon_sniff.Runtime.{Bytes}
use dragon_sniff.Storage.Evidence.{drop, Written, write_rounds, write_all}

pub take-drop : {A : Type 0} (n : ℕ) (xs : List A) → take n xs ++ drop n xs ≡ xs
take-drop zero xs = refl
take-drop (suc n) [] = refl
take-drop (suc n) (x ∷ xs) = ap (λ l. x ∷ l) (take-drop n xs)

pub length-drop : {A : Type 0} (n : ℕ) (xs : List A) → length (drop n xs) ≡ length xs - n
length-drop zero xs = omega arith
length-drop (suc n) [] = omega arith
length-drop (suc n) (x ∷ xs) = omega (arith, length-drop n xs)

-- The rest of the value that did not reach the file.
pub record Prefix (value : Bytes) (w : Written) : Type 0 where
  pub rest : Bytes
  pub split : value ≡ w.content ++ rest
  pub all_if_returned : (w.returned ≡ true → rest ≡ [])

write_rounds-Prefix :
    (os_write : Bytes → Option ℕ) (fuel : ℕ) (value : Bytes)
    → Prefix value (write_rounds os_write fuel value)
unfolding write_rounds
write_rounds-Prefix os_write fuel [] = record {
  rest = [];
  split = refl;
  all_if_returned = λ h. refl;
}
write_rounds-Prefix os_write zero (c ∷ cs) = record {
  rest = c ∷ cs;
  split = refl;
  all_if_returned = λ h. cc;
}
write_rounds-Prefix os_write (suc fuel) (c ∷ cs) =
    by_count (os_write (c ∷ cs)) refl (λ n. write_rounds-Prefix os_write fuel (drop n cs))
  where
    by_count :
        (o : Option ℕ)
        → os_write (c ∷ cs) ≡ o
        → ((n : ℕ) → Prefix (drop n cs) (write_rounds os_write fuel (drop n cs)))
        → Prefix (c ∷ cs) (write_rounds os_write (suc fuel) (c ∷ cs))
    by_count none e ih =
        rw (e, write_rounds) (record { rest = c ∷ cs; split = refl; all_if_returned = λ h. cc })
    by_count (some zero) e ih =
        rw (e, write_rounds) (record { rest = c ∷ cs; split = refl; all_if_returned = λ h. cc })
    by_count (some (suc n)) e ih =
        let later = ih n in
        rw (e, write_rounds)
          (record {
            rest = later.rest;
            split =
                ap (λ l. c ∷ l) (sym (take-drop n cs) ∙ ap (λ l. take n cs ++ l) later.split)
                ∙ sym (
                    append_assoc (c ∷ take n cs) (write_rounds os_write fuel (drop n cs)).content
                      later.rest);
            all_if_returned = later.all_if_returned;
          })

-- What reached the file is the front of the value, and all of it where the call returned.
pub write_all-Prefix :
    (os_write : Bytes → Option ℕ) (value : Bytes) → Prefix value (write_all os_write value)
unfolding write_all
write_all-Prefix os_write value = write_rounds-Prefix os_write (length value) value

-- Each call of `os.write` takes a byte or more.
abbrev pub Progresses : (Bytes → Option ℕ) → Type 0
Progresses os_write = (c : ℕ) (cs : Bytes) → (n : ℕ) × (os_write (c ∷ cs) ≡ some (suc n))

write_rounds_returns :
    (os_write : Bytes → Option ℕ)
    → Progresses os_write
    → (fuel : ℕ) (value : Bytes) → length value ≤ fuel
    → (write_rounds os_write fuel value).returned ≡ true
unfolding write_rounds
write_rounds_returns os_write progress fuel [] h = refl
write_rounds_returns os_write progress zero (c ∷ cs) h = absurd (omega arith)
write_rounds_returns os_write progress (suc fuel) (c ∷ cs) h =
    let (n, e) = progress c cs in
    rw (e, write_rounds)
      (write_rounds_returns os_write progress fuel (drop n cs) (omega (arith, length-drop n cs)))

all_written : {value : Bytes} {w : Written} → Prefix value w → w.returned ≡ true → w.content ≡ value
all_written {w = w} p h =
    sym (p.split ∙ ap (λ l. w.content ++ l) (p.all_if_returned h) ∙ append-nil w.content)

-- Where each call of `os.write` takes a byte or more, the loop ends, returns and has written the whole
-- value in order, however the calls cut it up.
pub write_all-eq :
    (os_write : Bytes → Option ℕ) (value : Bytes)
    → Progresses os_write
    → write_all os_write value ≡ record { content = value; returned = true }
write_all-eq os_write value progress =
    let done : (write_all os_write value).returned ≡ true = returns in
    let whole : (write_all os_write value).content ≡ value =
      all_written (write_all-Prefix os_write value) done in
    λ i. record { content = whole i; returned = done i }
  where
    returns : (write_all os_write value).returned ≡ true
    returns =
        unfold write_all in
        write_rounds_returns os_write progress (length value) value (omega arith)
