-- ===== src/Client/Fetch/Logged.antt =====
-- What a fetch records.
use dragon_sniff.Prelude.{
  ℕ, ◌+◌, ◌≤◌, String, Bool, true, false, [], ◌∷◌, Option, none, some, str_eq, ltb, length, any,
  ◌≡◌, refl, arith, Bool-cases, Option-cases, inl, inr,
}
use dragon_sniff.Json.{Value}
use dragon_sniff.Runtime.{Bytes}
use dragon_sniff.Client.Parsed.{
  Text, Codec, Loads, value, decode_error, recursion_error, value_error, ParseErrorKind, parse_json,
  parse_decoded_json, validate_parsed_text,
}
use dragon_sniff.Client.Fetch.{
  Answer, answered, http_error, http_error_unread, failed, Entry, http_request, http_response,
  http_failure, json_endpoints, response_result, error_result, outcome_of, result_of, with_reading,
  Call, record_outcome, fetch_json,
}

-- A body within the limit that is UTF-8 and on which `json.loads` raises a plain ValueError.
pub record IsUnloadable (c : Codec) (limit : ℕ) (body : Bytes) : Type 0 where
  pub bounded : length body ≤ limit
  pub undamaged : (c.decode body).1 ≡ none
  pub refused : c.loads (c.decode body).0 ≡ value_error

-- The answers behind which an exception leaves the method.
pub data Escapes (c : Codec) (limit : ℕ) : Answer → Type 0 where
  unread : {status : ℕ} → Escapes c limit (http_error_unread status)
  unloadable :
      {status : ℕ} {body : Bytes}
      → IsUnloadable c limit body
      → Escapes c limit (answered status body)
  unloadable_error :
      {status : ℕ} {body : Bytes}
      → IsUnloadable c limit body
      → Escapes c limit (http_error status body)

-- An outcome that names its request.
abbrev pub Answers : ℕ → String → Entry → Type 0
Answers id path (http_request other path') = ⊥
Answers id path (http_response r) = (r.request_id ≡ id) × (r.endpoint ≡ path)
Answers id path (http_failure r) = (r.request_id ≡ id) × (r.endpoint ≡ path)

-- A call of a client whose last request had the number `n`.
pub data Logs (can_record : Entry → Bool) (c : Codec) (limit : ℕ) (path : String) (answer : Answer)
    (n : ℕ) : Call → Type 0 where
  refuses :
      any (str_eq path) json_endpoints ≡ false
      → Logs can_record c limit path answer n
          (record { request_sequence = n; entries = []; returned = none })
  unrecorded :
      any (str_eq path) json_endpoints ≡ true
      → can_record (http_request (n + 1) path) ≡ false
      → Logs can_record c limit path answer n
          (record { request_sequence = n + 1; entries = []; returned = none })
  escapes :
      any (str_eq path) json_endpoints ≡ true
      → can_record (http_request (n + 1) path) ≡ true
      → Escapes c limit answer
      → Logs can_record c limit path answer n (record {
        request_sequence = n + 1;
        entries = http_request (n + 1) path ∷ [];
        returned = none;
      })
  loses :
      {e : Entry}
      → any (str_eq path) json_endpoints ≡ true
      → can_record (http_request (n + 1) path) ≡ true
      → Answers (n + 1) path e
      → can_record e ≡ false
      → Logs can_record c limit path answer n (record {
        request_sequence = n + 1;
        entries = http_request (n + 1) path ∷ [];
        returned = none;
      })
  answers :
      {e : Entry}
      → any (str_eq path) json_endpoints ≡ true
      → can_record (http_request (n + 1) path) ≡ true
      → Answers (n + 1) path e
      → can_record e ≡ true
      → Logs can_record c limit path answer n (record {
        request_sequence = n + 1;
        entries = http_request (n + 1) path ∷ e ∷ [];
        returned = some (result_of e);
      })

parse_json-none : (c : Codec) (raw : Text) → parse_json c raw ≡ none → c.loads raw ≡ value_error
unfolding parse_json
parse_json-none c raw h = by_loads (c.loads raw) refl h
  where
    by_value :
        (v : Value) (o : Option ParseErrorKind)
        → c.loads raw ≡ value v
        → validate_parsed_text c.is_utf8 v ≡ o
        → parse_json c raw ≡ none
        → c.loads raw ≡ value_error
    by_value v (some kind) e f h = cc (rw (e, f, parse_json) at h)
    by_value v none e f h = cc (rw (e, f, parse_json) at h)

    by_loads : (l : Loads) → c.loads raw ≡ l → parse_json c raw ≡ none → c.loads raw ≡ value_error
    by_loads decode_error e h = cc (rw (e, parse_json) at h)
    by_loads recursion_error e h = cc (rw (e, parse_json) at h)
    by_loads value_error e h = e
    by_loads (value v) e h = by_value v (validate_parsed_text c.is_utf8 v) e refl h

parse_decoded_json-none :
    (c : Codec) (raw : Text) (e : Option String)
    → parse_decoded_json c raw e ≡ none
    → (e ≡ none) × (c.loads raw ≡ value_error)
unfolding parse_decoded_json
parse_decoded_json-none c raw (some e) h = cc
parse_decoded_json-none c raw none h = (refl, parse_json-none c raw h)

body-IsUnloadable :
    (c : Codec) (limit : ℕ) (body : Bytes)
    → ltb limit (length body) ≡ false
    → parse_decoded_json c (c.decode body).0 (c.decode body).1 ≡ none
    → IsUnloadable c limit body
body-IsUnloadable c limit body fits raises =
    let both = parse_decoded_json-none c (c.decode body).0 (c.decode body).1 raises in
    record { bounded = ground (arith, fits); undamaged = both.0; refused = both.1 }

-- What is to be recorded: an outcome of the request, or nothing behind an answer that escapes.
abbrev Outcome : Codec → ℕ → ℕ → String → Answer → Option Entry → Type 0
Outcome c limit id path answer none = Escapes c limit answer
Outcome c limit id path answer (some e) = Answers id path e

outcome_of-Outcome :
    (c : Codec) (limit id : ℕ) (path : String) (answer : Answer)
    → Outcome c limit id path answer (outcome_of c limit id path answer)
unfolding outcome_of response_result error_result with_reading
outcome_of-Outcome c limit id path (answered status body) =
    elim (Bool-cases (ltb limit (length body))) [
      | inl long ↦ rw (long, outcome_of, response_result) (refl, refl)
      | inr fits ↦ elim (Option-cases (parse_decoded_json c (c.decode body).0 (c.decode body).1)) [
        | inl raises ↦
            rw (fits, raises, outcome_of, response_result, with_reading)
              (unloadable (body-IsUnloadable c limit body fits raises))
        | inr (reading, there) ↦
            rw (fits, there, outcome_of, response_result, with_reading) (refl, refl)
      ]
    ]
outcome_of-Outcome c limit id path (http_error status body) =
    elim (Bool-cases (ltb limit (length body))) [
      | inl long ↦ rw (long, outcome_of, error_result) (refl, refl)
      | inr fits ↦ elim (Option-cases (parse_decoded_json c (c.decode body).0 (c.decode body).1)) [
        | inl raises ↦
            rw (fits, raises, outcome_of, error_result, with_reading)
              (unloadable_error (body-IsUnloadable c limit body fits raises))
        | inr (reading, there) ↦
            rw (fits, there, outcome_of, error_result, with_reading) (refl, refl)
      ]
    ]
outcome_of-Outcome c limit id path (http_error_unread status) = unread
outcome_of-Outcome c limit id path failed = (refl, refl)

record_outcome-Logs :
    (can_record : Entry → Bool) (c : Codec) (limit : ℕ) (path : String) (answer : Answer) (n : ℕ)
    (o : Option Entry)
    → any (str_eq path) json_endpoints ≡ true
    → can_record (http_request (n + 1) path) ≡ true
    → Outcome c limit (n + 1) path answer o
    → Logs can_record c limit path answer n (record_outcome can_record (n + 1) path o)
unfolding record_outcome
record_outcome-Logs can_record c limit path answer n none allowed kept out =
    escapes allowed kept out
record_outcome-Logs can_record c limit path answer n (some e) allowed kept out =
    elim (Bool-cases (can_record e)) [
      | inl taken ↦ rw (taken, record_outcome) (answers allowed kept out taken)
      | inr lost ↦ rw (lost, record_outcome) (loses allowed kept out lost)
    ]

-- A fetch of a path that is not allowed leaves the counter and the records as they are. Any other takes
-- the next number, also where its request cannot be recorded, and then records nothing. Behind the
-- recorded request stands its outcome, with its number and its path, and what is returned is that
-- outcome; there is none, and nothing is returned, only where the recorder refuses it, where the body of
-- an HTTP error cannot be read, or where `json.loads` raises a ValueError of its own on the body.
pub fetch_json-Logs :
    (can_record : Entry → Bool) (c : Codec) (limit : ℕ) (path : String) (answer : Answer) (n : ℕ)
    → Logs can_record c limit path answer n (fetch_json can_record c limit path answer n)
unfolding fetch_json
fetch_json-Logs can_record c limit path answer n =
    elim (Bool-cases (any (str_eq path) json_endpoints)) [
      | inr refused ↦ rw (refused, fetch_json) (refuses refused)
      | inl allowed ↦ elim (Bool-cases (can_record (http_request (n + 1) path))) [
        | inr lost ↦ rw (allowed, lost, fetch_json) (unrecorded allowed lost)
        | inl kept ↦
            rw (allowed, kept, fetch_json)
              (record_outcome-Logs can_record c limit path answer n
                (outcome_of c limit (n + 1) path answer) allowed kept
                (outcome_of-Outcome c limit (n + 1) path answer))
      ]
    ]
