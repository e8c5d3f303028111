-- ===== src/Client/Parsed/Admitted.antt =====
-- What the check with the stack admits.
use dragon_sniff.Prelude.{
  ℕ, zero, suc, ◌+◌, ◌≤◌, ◌<◌, max, String, Bool, true, false, ◌&&◌, [], ◌∷◌, Option, none, some,
  ltb, leb, ◌≡◌, refl, arith, ap, sym, ◌∙◌, Bool-cases, inl, inr,
}
use dragon_sniff.Json.{
  Value, Fields, Items, obj, arr, str, bool, num, moment, null, field, end, cons, nil,
}
use dragon_sniff.Client.Parsed.{
  Stack, push_items, push_fields, expand, validate_rounds, size, size_items, size_fields,
  validate_parsed_text, max_parsed_json_depth,
}

unfoldable mutual
  -- How deep values are nested below a value; a text or a number has nothing below it.
  pub height : Value → ℕ
  height (obj fs) = height_fields fs
  height (arr vs) = height_items vs
  height v = 0

  pub height_items : Items → ℕ
  height_items nil = 0
  height_items (cons v vs) = max (suc (height v)) (height_items vs)

  pub height_fields : Fields → ℕ
  height_fields end = 0
  height_fields (field k v fs) = max (suc (height v)) (height_fields fs)

unfoldable mutual
  -- Every text and every key can be encoded.
  pub all_texts : (String → Bool) → Value → Bool
  all_texts ok_text (str s) = ok_text s
  all_texts ok_text (obj fs) = texts_of_fields ok_text fs
  all_texts ok_text (arr vs) = texts_of_items ok_text vs
  all_texts ok_text v = true

  pub texts_of_items : (String → Bool) → Items → Bool
  texts_of_items ok_text nil = true
  texts_of_items ok_text (cons v vs) = all_texts ok_text v && texts_of_items ok_text vs

  pub texts_of_fields : (String → Bool) → Fields → Bool
  texts_of_fields ok_text end = true
  texts_of_fields ok_text (field k v fs) =
      ok_text k && (all_texts ok_text v && texts_of_fields ok_text fs)

abbrev admits_all : (String → Bool) → Stack → Bool
admits_all u [] = true
admits_all u ((v, d) ∷ stack) =
    leb (d + height v) max_parsed_json_depth && (all_texts u v && admits_all u stack)

abbrev stack_size : Stack → ℕ
stack_size [] = 0
stack_size ((v, d) ∷ stack) = size v + stack_size stack

abbrev pub is_none : {A : Type 0} → Option A → Bool
is_none none = true
is_none (some a) = false

leb-max : (d a b n : ℕ) → leb (d + max (suc a) b) n ≡ (leb (d + 1 + a) n && leb (d + b) n)
leb-max d a b n = ground arith

regroup : (a b x y z : Bool) → (a && (x && (b && (y && z)))) ≡ ((a && b) && ((x && y) && z))
regroup a b x y z = ground arith

regroup_key :
    (k a b x y z : Bool)
    → (k && (a && (x && (b && (y && z))))) ≡ ((a && b) && ((k && (x && y)) && z))
regroup_key k a b x y z = ground arith

leb_shallow : (d : ℕ) → d ≤ 128 → leb (d + 0) 128 ≡ true
leb_shallow d h = ground (arith, h)

admits_all-push_items :
    (u : String → Bool) (d : ℕ) (vs : Items) (stack : Stack)
    → d ≤ 128
    → admits_all u (push_items (d + 1) vs stack)
      ≡ (leb (d + height_items vs) 128 && (texts_of_items u vs && admits_all u stack))
unfolding height_items texts_of_items
admits_all-push_items u d nil stack h = sym (ap (λ b. b && admits_all u stack) (leb_shallow d h))
admits_all-push_items u d (cons v vs) stack h =
    ap (λ b. leb (d + 1 + height v) 128 && (all_texts u v && b))
      (admits_all-push_items u d vs stack h)
    ∙ regroup (leb (d + 1 + height v) 128) (leb (d + height_items vs) 128) (all_texts u v)
        (texts_of_items u vs) (admits_all u stack)
    ∙ ap (λ b. b && ((all_texts u v && texts_of_items u vs) && admits_all u stack))
        (sym (leb-max d (height v) (height_items vs) 128))

-- A key has the depth of its value, so it is no deeper.
leb_key :
    (d a : ℕ) (b : Bool)
    → (leb (d + 1 + 0) 128 && (leb (d + 1 + a) 128 && b)) ≡ (leb (d + 1 + a) 128 && b)
leb_key d a b = ground arith

swap_key : (p q k x : Bool) → (p && (q && x)) ≡ (q && x) → (p && (k && (q && x))) ≡ (k && (q && x))
swap_key p q k x h = ground (arith, h)

admits_all-push_fields :
    (u : String → Bool) (d : ℕ) (fs : Fields) (stack : Stack)
    → d ≤ 128
    → admits_all u (push_fields (d + 1) fs stack)
      ≡ (leb (d + height_fields fs) 128 && (texts_of_fields u fs && admits_all u stack))
unfolding height_fields texts_of_fields height all_texts
admits_all-push_fields u d end stack h = sym (ap (λ b. b && admits_all u stack) (leb_shallow d h))
admits_all-push_fields u d (field k v fs) stack h =
    let rest = leb (d + height_fields fs) 128 && (texts_of_fields u fs && admits_all u stack) in
    ap (λ b. leb (d + 1 + 0) 128 && (u k && (leb (d + 1 + height v) 128 && (all_texts u v && b))))
      (admits_all-push_fields u d fs stack h)
    ∙ swap_key (leb (d + 1 + 0) 128) (leb (d + 1 + height v) 128) (u k) (all_texts u v && rest)
        (leb_key d (height v) (all_texts u v && rest))
    ∙ regroup_key (u k) (leb (d + 1 + height v) 128) (leb (d + height_fields fs) 128)
        (all_texts u v) (texts_of_fields u fs) (admits_all u stack)
    ∙ ap (λ b. b && ((u k && (all_texts u v && texts_of_fields u fs)) && admits_all u stack))
        (sym (leb-max d (height v) (height_fields fs) 128))

stack_size-push_items :
    (d : ℕ) (vs : Items) (stack : Stack)
    → stack_size (push_items d vs stack) ≡ size_items vs + stack_size stack
unfolding size_items
stack_size-push_items d nil stack = omega arith
stack_size-push_items d (cons v vs) stack = omega (arith, stack_size-push_items d vs stack)

stack_size-push_fields :
    (d : ℕ) (fs : Fields) (stack : Stack)
    → stack_size (push_fields d fs stack) ≡ size_fields fs + stack_size stack
unfolding size_fields size
stack_size-push_fields d end stack = omega arith
stack_size-push_fields d (field k v fs) stack = omega (arith, stack_size-push_fields d fs stack)

-- A round is right: what it puts on the stack is admitted exactly where the value is, and is smaller; a
-- text that cannot be encoded is not admitted.
abbrev Expands : (String → Bool) → Value → ℕ → Stack → Option Stack → Type 0
Expands u v d stack none = admits_all u ((v, d) ∷ stack) ≡ false
Expands u v d stack (some stack') =
    (admits_all u stack' ≡ admits_all u ((v, d) ∷ stack))
    × (suc (stack_size stack') ≡ stack_size ((v, d) ∷ stack))

expand-flat : (d : ℕ) (b : Bool) → d ≤ 128 → b ≡ (leb (d + 0) 128 && (true && b))
expand-flat d b h = rw (leb_shallow d h) refl

unencodable : (a b : Bool) → (a && (false && b)) ≡ false
unencodable a b = ground arith

expand-Expands :
    (u : String → Bool) (v : Value) (d : ℕ) (stack : Stack)
    → d ≤ 128
    → Expands u v d stack (expand u v d stack)
unfolding size height all_texts
expand-Expands u (str s) d stack h = elim (Bool-cases (u s)) [
  | inl encodable ↦
      rw (encodable, Expands)
        (
          expand-flat d (admits_all u stack) h
              ∙ ap (λ b. leb (d + 0) 128 && (b && admits_all u stack)) (sym encodable),
          omega arith,
        )
  | inr refused ↦
      rw (refused, Expands)
        (ap (λ b. leb (d + 0) 128 && (b && admits_all u stack)) refused
          ∙ unencodable (leb (d + 0) 128) (admits_all u stack))
]
expand-Expands u (arr vs) d stack h =
    (admits_all-push_items u d vs stack h, omega (arith, stack_size-push_items (d + 1) vs stack))
expand-Expands u (obj fs) d stack h =
    (admits_all-push_fields u d fs stack h, omega (arith, stack_size-push_fields (d + 1) fs stack))
expand-Expands u (bool b) d stack h = (expand-flat d (admits_all u stack) h, omega arith)
expand-Expands u (num n) d stack h = (expand-flat d (admits_all u stack) h, omega arith)
expand-Expands u moment d stack h = (expand-flat d (admits_all u stack) h, omega arith)
expand-Expands u null d stack h = (expand-flat d (admits_all u stack) h, omega arith)

size-positive : (v : Value) → 0 < size v
unfolding size
size-positive (obj fs) = omega arith
size-positive (arr vs) = omega arith
size-positive (str s) = omega arith
size-positive (bool b) = omega arith
size-positive (num n) = omega arith
size-positive moment = omega arith
size-positive null = omega arith

too_deep : (d a : ℕ) (b : Bool) → ltb 128 d ≡ true → false ≡ (leb (d + a) 128 && b)
too_deep d a b h = ground (arith, h)

validate_rounds-admits :
    (u : String → Bool) (fuel : ℕ) (stack : Stack)
    → stack_size stack ≤ fuel
    → is_none (validate_rounds u fuel stack) ≡ admits_all u stack
unfolding validate_rounds
validate_rounds-admits u fuel [] enough = refl
validate_rounds-admits u zero ((v, d) ∷ stack) enough =
    absurd (omega (arith, size-positive v, enough))
validate_rounds-admits u (suc fuel) ((v, d) ∷ stack) enough =
    elim (Bool-cases (ltb max_parsed_json_depth d)) [
      | inl deep ↦
          rw (deep, validate_rounds)
            (too_deep d (height v) (all_texts u v && admits_all u stack) deep)
      | inr shallow ↦
          by_round (expand u v d stack) refl shallow
            (expand-Expands u v d stack (ground (arith, shallow)))
            (λ stack' le. validate_rounds-admits u fuel stack' le)
    ]
  where
    by_round :
        (o : Option Stack)
        → expand u v d stack ≡ o
        → ltb max_parsed_json_depth d ≡ false
        → Expands u v d stack o
        → ((stack' : Stack)
            → stack_size stack' ≤ fuel
            → is_none (validate_rounds u fuel stack') ≡ admits_all u stack')
        → is_none (validate_rounds u (suc fuel) ((v, d) ∷ stack)) ≡ admits_all u ((v, d) ∷ stack)
    by_round none e shallow x later = rw (shallow, e, validate_rounds) (sym x)
    by_round (some stack') e shallow x later =
        rw (shallow, e, validate_rounds) (later stack' (omega (arith, x.1, enough)) ∙ x.0)

at_top : (a n : ℕ) (b : Bool) → (leb (0 + a) n && (b && true)) ≡ (leb a n && b)
at_top a n b = ground arith

-- The loop over the stack admits a value exactly where nothing in it is nested deeper than 128 and
-- every text in it, keys included, can be encoded as UTF-8.
pub validate_parsed_text-eq :
    (is_utf8 : String → Bool) (v : Value)
    → is_none (validate_parsed_text is_utf8 v)
      ≡ (leb (height v) max_parsed_json_depth && all_texts is_utf8 v)
unfolding validate_parsed_text
validate_parsed_text-eq is_utf8 v =
    validate_rounds-admits is_utf8 (size v) ((v, 0) ∷ []) (omega arith)
    ∙ at_top (height v) max_parsed_json_depth (all_texts is_utf8 v)
