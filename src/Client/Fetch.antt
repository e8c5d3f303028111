-- ===== src/Client/Fetch.antt =====
-- `fetch_json` of src/dragonsniff/client.py: one request and what is recorded of its outcome. What the
-- opener gives is an argument; elapsed times, headers and the texts of errors are left out.
pub mod Logged
pub mod Outcomes
use dragon_sniff.Prelude.{
  ℕ, suc, ◌+◌, String, Bool, true, false, not, ◌&&◌, ◌||◌, List, [], ◌∷◌, ◌++◌, Option, none, some,
  str_eq, ltb, leb, if◌then◌else◌, length, take, any, is_some,
}
use dragon_sniff.Json.{Value, null}
use dragon_sniff.Runtime.{Bytes}
use dragon_sniff.Client.Parsed.{Text, Codec, ParseErrorKind, Reading, parse_decoded_json}

-- `read(limit + 1)` gives at most that many bytes of a body. An HTTPError is an answer whose status
-- urllib refuses; reading its body may raise too. `failed` stands for OSError, URLError, TimeoutError
-- and HTTPException, that of the connection budget included.
pub data Answer : Type 0 where
  answered : ℕ → Bytes → Answer
  http_error : ℕ → Bytes → Answer
  http_error_unread : ℕ → Answer
  failed : Answer

pub record FetchResult : Type 0 where
  pub request_id : ℕ
  pub endpoint : String
  pub status : Option ℕ
  pub raw_payload : Option Text
  pub parsed : Value
  pub decode_error : Option String
  pub parse_error_kind : Option ParseErrorKind
  pub parsed_available : Bool
  pub response_received : Bool
  pub http_ok : Bool
  pub response_too_large : Bool
  pub is_ok : Bool

-- The records of a fetch.
pub data Entry : Type 0 where
  http_request : ℕ → String → Entry
  http_response http_failure : FetchResult → Entry

abbrev pub json_endpoints : List String
json_endpoints = "/api/v2/info" ∷ "/api/v2/state" ∷ "/api/v2/health" ∷ []

abbrev pub in_2xx : ℕ → Bool
in_2xx status = leb 200 status && ltb status 300

abbrev pub no_error : FetchResult → Bool
no_error r = not (is_some r.decode_error) && not (is_some r.parse_error_kind)

abbrev pub blank : ℕ → String → FetchResult
blank id path = record {
  request_id = id;
  endpoint = path;
  status = none;
  raw_payload = none;
  parsed = null;
  decode_error = none;
  parse_error_kind = none;
  parsed_available = false;
  response_received = false;
  http_ok = false;
  response_too_large = false;
  is_ok = false;
}

unfoldable pub with_reading :
    Text → Option String → FetchResult → Option Reading → Option FetchResult
with_reading raw e r none = none
with_reading raw e r (some reading) = some (record r {
  raw_payload = some raw;
  decode_error = e;
  parsed = reading.parsed;
  parse_error_kind = reading.parse_error_kind;
  parsed_available = not (is_some e) && not (is_some reading.parse_error_kind);
  response_received = true;
})

-- None where parsing raises.
abbrev pub read_body : Codec → Bytes → FetchResult → Option FetchResult
read_body c body r =
    let (raw, e) = c.decode body in with_reading raw e r (parse_decoded_json c raw e)

unfoldable pub response_result : Codec → ℕ → ℕ → String → ℕ → Bytes → Option Entry
response_result c limit id path status body =
    if ltb limit (length body)
    then some (
        http_failure (record (blank id path) {
          status = some status;
          response_received = true;
          http_ok = in_2xx status;
          response_too_large = true;
        }))
    else elim (read_body c body
        (record (blank id path) { status = some status; http_ok = in_2xx status })) [
          | none ↦ none
          | some r ↦ some (http_response (record r { is_ok = r.http_ok && r.parsed_available }))
        ]

-- The body of an error is cut at the limit and then not parsed.
unfoldable pub error_result : Codec → ℕ → ℕ → String → ℕ → Bytes → Option Entry
error_result c limit id path status body =
    let base = record (blank id path) { status = some status; response_received = true } in
    if ltb limit (length body)
    then (let (raw, e) = c.decode (take limit body) in
        some (
          http_response
            (record base { raw_payload = some raw; decode_error = e; response_too_large = true })))
    else elim (read_body c body base) [ none ↦ none | some r ↦ some (http_response r) ]

-- What is to be recorded behind the request; none where an exception leaves the method before.
unfoldable pub outcome_of : Codec → ℕ → ℕ → String → Answer → Option Entry
outcome_of c limit id path (answered status body) = response_result c limit id path status body
outcome_of c limit id path (http_error status body) = error_result c limit id path status body
outcome_of c limit id path (http_error_unread status) = none
outcome_of c limit id path failed = some (http_failure (blank id path))

abbrev pub result_of : Entry → FetchResult
result_of (http_response r) = r
result_of (http_failure r) = r
result_of (http_request id path) = blank id path

-- What a call leaves: the counter of the client, what it recorded, and the result, which is none where
-- an exception leaves the method.
pub record Call : Type 0 where
  pub request_sequence : ℕ
  pub entries : List Entry
  pub returned : Option FetchResult

-- The recorder takes a record or raises a RuntimeError, which is not caught.
unfoldable pub record_outcome : (Entry → Bool) → ℕ → String → Option Entry → Call
record_outcome can_record id path none = record {
  request_sequence = id;
  entries = http_request id path ∷ [];
  returned = none;
}
record_outcome can_record id path (some e) = record {
  request_sequence = id;
  entries = http_request id path ∷ (if can_record e then e ∷ [] else []);
  returned = if can_record e then some (result_of e) else none;
}

-- The counter is that of the client, which the stream and other fetches take numbers from as well.
unfoldable pub fetch_json : (Entry → Bool) → Codec → ℕ → String → Answer → ℕ → Call
fetch_json can_record c limit path answer request_sequence =
    let id = request_sequence + 1 in
    if any (str_eq path) json_endpoints
    then (if can_record (http_request id path)
        then record_outcome can_record id path (outcome_of c limit id path answer)
        else record { request_sequence = id; entries = []; returned = none })
    else record { request_sequence = request_sequence; entries = []; returned = none }
