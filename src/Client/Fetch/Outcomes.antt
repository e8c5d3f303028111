-- ===== src/Client/Fetch/Outcomes.antt =====
-- What the outcomes of fetches say.
use dragon_sniff.Prelude.{
  ℕ, ◌≤◌, String, Bool, true, false, not, ◌&&◌, Option, none, some, ltb, leb, length, is_some, ◌≡◌,
  refl, arith, ap, sym, ◌∙◌, Bool-cases, Option-cases, inl, inr, some-injective,
}
use mathlib.Core.Path.{subst}
use dragon_sniff.Json.{Value}
use dragon_sniff.Runtime.{Bytes}
use dragon_sniff.Client.Parsed.{
  Text, Codec, Loads, value, decode_error, recursion_error, value_error, ParseErrorKind, Reading,
  parse_json, parse_decoded_json, validate_parsed_text, max_parsed_json_depth,
}
use dragon_sniff.Client.Parsed.Admitted.{height, all_texts, validate_parsed_text-eq, is_none}
use dragon_sniff.Client.Fetch.{
  Answer, answered, http_error, http_error_unread, failed, FetchResult, Entry, in_2xx,
  response_result, error_result, outcome_of, result_of, with_reading,
}

-- A text that was read as JSON and admitted.
pub record Reads (c : Codec) (raw : Text) (v : Value) : Type 0 where
  pub loaded : c.loads raw ≡ value v
  pub shallow : leb (height v) max_parsed_json_depth ≡ true
  pub encodable : all_texts c.is_utf8 v ≡ true

both : (a b : Bool) → (a && b) ≡ true → (a ≡ true) × (b ≡ true)
both a b h = (ground (arith, h), ground (arith, h))

parse_json-Reads :
    (c : Codec) (raw : Text) (reading : Reading)
    → parse_json c raw ≡ some reading
    → is_some reading.parse_error_kind ≡ false
    → Reads c raw reading.parsed
unfolding parse_json
parse_json-Reads c raw reading e h = by_loads (c.loads raw) refl e h
  where
    by_value :
        (v : Value) (o : Option ParseErrorKind)
        → c.loads raw ≡ value v
        → validate_parsed_text c.is_utf8 v ≡ o
        → parse_json c raw ≡ some reading
        → is_some reading.parse_error_kind ≡ false
        → Reads c raw reading.parsed
    by_value v (some kind) e f g h = cc (
      ap (λ (r : Reading). is_some r.parse_error_kind)
          (some-injective (rw (e, f, parse_json) at g)),
      h,
    )
    by_value v none e f g h =
        let admitted = both _ _ (sym (validate_parsed_text-eq c.is_utf8 v) ∙ ap is_none f) in
        subst (λ (r : Reading). Reads c raw r.parsed) (some-injective (rw (e, f, parse_json) at g))
          (record { loaded = e; shallow = admitted.0; encodable = admitted.1 })

    by_loads :
        (l : Loads)
        → c.loads raw ≡ l
        → parse_json c raw ≡ some reading
        → is_some reading.parse_error_kind ≡ false
        → Reads c raw reading.parsed
    by_loads decode_error e g h = cc (
      ap (λ (r : Reading). is_some r.parse_error_kind) (some-injective (rw (e, parse_json) at g)),
      h,
    )
    by_loads recursion_error e g h = cc (
      ap (λ (r : Reading). is_some r.parse_error_kind) (some-injective (rw (e, parse_json) at g)),
      h,
    )
    by_loads value_error e g h = cc (rw (e, parse_json) at g)
    by_loads (value v) e g h = by_value v (validate_parsed_text c.is_utf8 v) e refl g h

-- What `ok` promises.
pub record Fetched (c : Codec) (limit : ℕ) (answer : Answer) (r : FetchResult) : Type 0 where
  pub status : ℕ
  pub body : Bytes
  pub was_answered : answer ≡ answered status body
  pub is_2xx : in_2xx status ≡ true
  pub bounded : length body ≤ limit
  pub undamaged : (c.decode body).1 ≡ none
  pub reads : Reads c (c.decode body).0 r.parsed
  pub evidence : r.raw_payload ≡ some (c.decode body).0

read_body-Reads :
    (c : Codec) (body : Bytes) (e : Option String) (reading : Reading)
    → (c.decode body).1 ≡ e
    → parse_decoded_json c (c.decode body).0 e ≡ some reading
    → not (is_some e) && not (is_some reading.parse_error_kind) ≡ true
    → (e ≡ none) × Reads c (c.decode body).0 reading.parsed
unfolding parse_decoded_json
read_body-Reads c body (some problem) reading e g h = cc
read_body-Reads c body none reading e g h =
    (refl, parse_json-Reads c (c.decode body).0 reading g (ground (arith, h)))

response_result-Fetched :
    (c : Codec) (limit id : ℕ) (path : String) (status : ℕ) (body : Bytes) (e : Entry)
    → response_result c limit id path status body ≡ some e
    → (result_of e).is_ok ≡ true
    → Fetched c limit (answered status body) (result_of e)
unfolding response_result with_reading
response_result-Fetched c limit id path status body e g h =
    elim (Bool-cases (ltb limit (length body))) [
      | inl long ↦ cc (
        ap (λ (o : Entry). (result_of o).is_ok) (some-injective (rw (long, response_result) at g)),
        h,
      )
      | inr fits ↦ elim (Option-cases (parse_decoded_json c (c.decode body).0 (c.decode body).1)) [
        | inl raises ↦ cc (rw (fits, raises, response_result, with_reading) at g)
        | inr (reading, there) ↦
            let made = some-injective (rw (fits, there, response_result, with_reading) at g) in
            subst
              (λ o.
                (result_of o).is_ok ≡ true → Fetched c limit (answered status body) (result_of o))
              made
              (λ is_ok.
                let parts = both _ _ is_ok in
                let reads = read_body-Reads c body (c.decode body).1 reading refl there parts.1 in
                record {
                  status = status;
                  body = body;
                  was_answered = refl;
                  is_2xx = parts.0;
                  bounded = ground (arith, fits);
                  undamaged = reads.0;
                  reads = reads.1;
                  evidence = refl;
                })
              h
      ]
    ]

error_result_fails :
    (c : Codec) (limit id : ℕ) (path : String) (status : ℕ) (body : Bytes) (e : Entry)
    → error_result c limit id path status body ≡ some e
    → (result_of e).is_ok ≡ false
unfolding error_result with_reading
error_result_fails c limit id path status body e g = elim (Bool-cases (ltb limit (length body))) [
  | inl long ↦
      ap (λ (o : Entry). (result_of o).is_ok) (sym (some-injective (rw (long, error_result) at g)))
  | inr fits ↦ elim (Option-cases (parse_decoded_json c (c.decode body).0 (c.decode body).1)) [
    | inl raises ↦ cc (rw (fits, raises, error_result, with_reading) at g)
    | inr (reading, there) ↦
        ap (λ (o : Entry). (result_of o).is_ok)
          (sym (some-injective (rw (fits, there, error_result, with_reading) at g)))
  ]
]

-- A fetch is recorded as ok only where the device answered with a status from 200 to 299 and a body
-- within the limit that is UTF-8 and JSON; what is recorded as parsed is the value of that body, no
-- deeper than 128 and with texts that can be encoded; and the raw payload is the whole body.
pub outcome_of-Fetched :
    (c : Codec) (limit id : ℕ) (path : String) (answer : Answer) (e : Entry)
    → outcome_of c limit id path answer ≡ some e
    → (result_of e).is_ok ≡ true
    → Fetched c limit answer (result_of e)
unfolding outcome_of
outcome_of-Fetched c limit id path (answered status body) e h is_ok =
    response_result-Fetched c limit id path status body e h is_ok
outcome_of-Fetched c limit id path (http_error status body) e h is_ok =
    cc (error_result_fails c limit id path status body e h, is_ok)
outcome_of-Fetched c limit id path (http_error_unread status) e h is_ok = cc
outcome_of-Fetched c limit id path failed e h is_ok =
    cc (ap (λ (o : Entry). (result_of o).is_ok) (some-injective h), is_ok)
