-- ===== src/Client/Tests.antt =====
-- A device whose texts are ASCII, its answers and a stream of two events.
use dragon_sniff.Prelude.{
  suc, ◌+◌, Bool, true, false, ◌&&◌, [], ◌∷◌, none, some, leb, ◌≤◌, arith, ◌≡◌, refl,
}
use dragon_sniff.Prelude.Int.{pos}
use dragon_sniff.Json.{Value, obj, arr, str, num, int, null, field, end, cons, nil}
use dragon_sniff.Client.Parsed.{
  Codec, value, value_error, max_parsed_json_depth, validate_rounds, size, validate_parsed_text,
  parse_json, parse_decoded_json,
}
use dragon_sniff.Client.Parsed.Admitted.{height, all_texts, is_none, validate_parsed_text-eq}
use dragon_sniff.Client.Budget.{new_budget, acquires, counts, Leases, fresh_budget, later}
use dragon_sniff.Client.Budget.Bounded.{Leases-bounded}
use dragon_sniff.Client.Fetch.{
  Answer, answered, outcome_of, response_result, with_reading, fetch_json, record_outcome, Entry,
  http_request, http_response, http_failure, FetchResult, blank,
}
use dragon_sniff.Client.Fetch.Outcomes.{Fetched, outcome_of-Fetched}
use dragon_sniff.Client.Fetch.Logged.{Logs, fetch_json-Logs}
use dragon_sniff.Client.Sse.{
  readline, rstrip, partition, take_line, on_line, on_read, iter_sse, event_of, with_parsed, fresh,
}
use dragon_sniff.Client.Sse.Printed.{Message, print_lines, print_stream}
use dragon_sniff.Client.Sse.Delivered.{reads_of, deliveries, iter_sse-print_stream}

abbrev boot : Value
boot = obj (field "boot_id" (num (int (pos 7))) end)

abbrev codec : Codec
codec = record { decode = λ b. (b, none); loads = λ t. value boot; is_utf8 = λ s. true }

validate_parsed_text-eq_example :
    is_none (validate_parsed_text codec.is_utf8 (arr (cons (str "a") (cons boot nil)))) ≡ (
      leb (height (arr (cons (str "a") (cons boot nil)))) max_parsed_json_depth
      && all_texts codec.is_utf8 (arr (cons (str "a") (cons boot nil))))
validate_parsed_text-eq_example =
    validate_parsed_text-eq codec.is_utf8 (arr (cons (str "a") (cons boot nil)))

abbrev health : Answer
health = answered 200 (123 ∷ 125 ∷ [])

abbrev healthy : FetchResult
healthy = record (blank 1 "/api/v2/health") {
  status = some 200;
  raw_payload = some (123 ∷ 125 ∷ []);
  parsed = boot;
  parsed_available = true;
  response_received = true;
  http_ok = true;
  is_ok = true;
}

outcome_of-Fetched_example : Fetched codec 100 health healthy
unfolding response_result outcome_of validate_rounds size validate_parsed_text parse_json
    parse_decoded_json with_reading
outcome_of-Fetched_example =
    outcome_of-Fetched codec 100 1 "/api/v2/health" health (http_response healthy) refl refl

-- A recorder that has room for requests only.
abbrev requests_only : Entry → Bool
requests_only (http_request id path) = true
requests_only (http_response r) = false
requests_only (http_failure r) = false

fetch_json-Logs_example :
    Logs requests_only codec 100 "/api/v2/health" health 6
      (fetch_json requests_only codec 100 "/api/v2/health" health 6)
fetch_json-Logs_example = fetch_json-Logs requests_only codec 100 "/api/v2/health" health 6

fetch_refused :
    fetch_json requests_only codec 100 "/api/v2/fan" health 6
    ≡ record { request_sequence = 6; entries = []; returned = none }
unfolding fetch_json
fetch_refused = refl

-- `json.loads` refuses an integer of too many digits: the request has no outcome.
fetch_unloadable :
    fetch_json (λ e. true) (record codec { loads = λ t. value_error }) 100 "/api/v2/health" health 6
    ≡ record {
      request_sequence = 7;
      entries = http_request 7 "/api/v2/health" ∷ [];
      returned = none;
    }
unfolding fetch_json outcome_of response_result with_reading parse_json parse_decoded_json
    record_outcome
fetch_unloadable = refl

abbrev first : Message
first = record { name = 115 ∷ []; id = 49 ∷ []; lines = (123 ∷ []) ∷ (125 ∷ []) ∷ [] }

abbrev second : Message
second = record { name = []; id = 50 ∷ []; lines = [] }

iter_sse-print_stream_example :
    iter_sse codec 100
      (reads_of (first ∷ second ∷ []) + suc 0)
      (print_stream (first ∷ second ∷ []))
      fresh
    ≡ deliveries codec (first ∷ second ∷ [])
unfolding print_lines
iter_sse-print_stream_example =
    iter_sse-print_stream codec 100 0 (first ∷ second ∷ []) (λ t h. refl)
      (
        record {
          name = refl;
          id = refl;
          no_nul = refl;
          lines = (refl, (refl, tt));
          bounded = omega arith;
        },
        (record { name = refl; id = refl; no_nul = refl; lines = tt; bounded = omega arith }, tt),
      )

-- A line that is longer than the limit ends the stream; the event before it has come out.
long_line :
    (iter_sse codec 8 9
      (100 ∷ 97 ∷ 116 ∷ 97 ∷ 10 ∷ 10 ∷ 1 ∷ 2 ∷ 3 ∷ 4 ∷ 5 ∷ 6 ∷ 7 ∷ 8 ∷ 9 ∷ 10 ∷ [])
      fresh).0
    ≡ with_parsed
        (record fresh { raw_lines = (100 ∷ 97 ∷ 116 ∷ 97 ∷ []) ∷ []; data_lines = [] ∷ [] })
        (record { parsed = null; parse_error_kind = none })
      ∷ []
unfolding iter_sse on_read on_line readline rstrip take_line partition event_of with_parsed
long_line = refl

-- Two connections of two.
two_active : Leases 2 (record { free = 0; acquired = 0; active = 2; returning = 0 })
unfolding new_budget
two_active = later (later (later (later (fresh_budget refl) acquires) counts) acquires) counts

Leases-bounded_example : (2 ≤ 2) × (0 + 0 + 2 + 0 ≡ 2)
Leases-bounded_example =
    Leases-bounded 2 (record { free = 0; acquired = 0; active = 2; returning = 0 }) two_active
