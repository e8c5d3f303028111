-- ===== src/Assess/Attempts.antt =====
-- Observation attempts: `_run_records`, `_dragon_attempts` and `_prusalink_attempts` of
-- src/dragonsniff/assess/engine.py. `none` is the `ValueError` that leaves `_resolve`.
pub mod Pairing
use dragon_sniff.Prelude.{
  ℕ, String, Bool, true, false, not, ◌&&◌, ◌||◌, List, [], ◌∷◌, ◌++◌, Option, none, some, str_eq,
  ltb, leb, ◌==◌, if◌then◌else◌, all, any, select, is_some, map, map_option, ◌>>=◌, min, is_empty,
}
use dragon_sniff.Prelude.Int.{ℤ, eqb_ℤ}
use dragon_sniff.Json.{
  among, Value, Fields, null, num, int, str, obj, get, text_of, fields_of, natural_of, is_true,
  is_null,
}
use dragon_sniff.Runtime.{Runtime}
use dragon_sniff.Assess.Evidence.{Record, Run, Evidence}
use dragon_sniff.Assess.Profile.{Signal, Source, dragon, prusalink}
use dragon_sniff.Assess.Pointer.{Reading, unread, extract}
use dragon_sniff.Assess.Timeline.{Attempt}

-- `value == text`, where the text may be `None`.
unfoldable pub same_text : Option String → Value → Bool
same_text none v = is_null v
same_text (some s) v = elim (text_of v) [ none ↦ false | some t ↦ str_eq t s ]

-- Only this run's records inside both its sequence and its time horizon.
unfoldable pub in_run : Option String → Record → Record → Record → Bool
in_run id started terminal r =
    leb started.sequence r.sequence
    && leb r.sequence terminal.sequence
    && leb started.monotonic_ns r.monotonic_ns
    && leb r.monotonic_ns terminal.monotonic_ns
    && same_text id (get r.fields "run_id")

abbrev pub closed_run : Run → Option (Record × Record)
closed_run run = elim run.problem [
  | some p ↦ none
  | none ↦ elim run.started [
    | none ↦ none
    | some started ↦ elim run.terminal [ none ↦ none | some terminal ↦ some (started, terminal) ]
  ]
]

unfoldable pub run_records : Evidence → List Record
run_records e = elim (closed_run e.run) [
  | none ↦ []
  | some (started, terminal) ↦ select (in_run e.run.run_id started terminal) e.records
]

unfoldable pub error_free : Fields → Bool
error_free fields =
    all (λ k. is_null (get fields k))
      ("parse_error" ∷ "decode_error" ∷ "parse_error_kind" ∷ "error" ∷ [])

-- A request id that may pair a request with its completion.
pub data RequestId : Type 0 where
  text : String → RequestId
  number : ℤ → RequestId

abbrev pub same_id : RequestId → RequestId → Bool
same_id (text a) (text b) = str_eq a b
same_id (number a) (number b) = eqb_ℤ a b
same_id _ _ = false

-- A string that is not empty, or an int that is no bool.
abbrev pub request_id_of : Value → Option RequestId
request_id_of (str s) = if str_eq s "" then none else some (text s)
request_id_of (num (int z)) = some (number z)
request_id_of _ = none

abbrev pub is_request : Record → Bool
is_request r = str_eq r.kind "http_request"

abbrev pub is_completion : Record → Bool
is_completion r = among ("http_response" ∷ "http_error" ∷ []) r.kind

-- The requests and the completions of an id, each in the order of the records.
pub record Exchange : Type 0 where
  pub id : RequestId
  pub opened : List Record
  pub closed : List Record

pub record Exchanges : Type 0 where
  pub known : List Exchange
  pub unidentified : List Record

abbrev pub add_record : Record → Exchange → Exchange
add_record r x =
    if is_request r
    then record x { opened = x.opened ++ r ∷ [] }
    else record x { closed = x.closed ++ r ∷ [] }

abbrev pub new_exchange : RequestId → Exchange
new_exchange id = record { id = id; opened = []; closed = [] }

-- `setdefault(request_id, []).append(record)`; the two dicts are one list of exchanges.
unfoldable pub file_record : RequestId → Record → List Exchange → List Exchange
file_record id r [] = add_record r (new_exchange id) ∷ []
file_record id r (x ∷ xs) =
    let rest = file_record id r xs in if same_id x.id id then add_record r x ∷ xs else x ∷ rest

-- One round of the loop over the records of the run.
unfoldable pub sort_record : Signal → Exchanges → Record → Exchanges
sort_record signal xs r =
    if same_text signal.endpoint (get r.fields "endpoint") && (is_request r || is_completion r)
    then (elim (request_id_of (get r.fields "request_id")) [
      | none ↦ record xs { unidentified = xs.unidentified ++ r ∷ [] }
      | some id ↦ record xs { known = file_record id r xs.known }
    ])
    else xs

unfoldable pub exchanges_from : Signal → Exchanges → List Record → Exchanges
exchanges_from signal xs [] = xs
exchanges_from signal xs (r ∷ rs) = exchanges_from signal (sort_record signal xs r) rs

-- An attempt with no usable value at the record's own time.
abbrev pub lone_attempt : Record → Attempt
lone_attempt r = record {
  start_ns = r.monotonic_ns;
  end_ns = r.monotonic_ns;
  first_sequence = r.sequence;
  last_sequence = r.sequence;
  value = null;
  valid = false;
}

abbrev pub is_ordered : Record → Record → Bool
is_ordered request completion =
    ltb request.sequence completion.sequence && leb request.monotonic_ns completion.monotonic_ns

-- What an orderly response says of the signal.
unfoldable pub read_response : Runtime → Signal → Bool → Record → Option Reading
read_response py signal ordered completion =
    if ordered
      && str_eq completion.kind "http_response"
      && is_true (get completion.fields "ok")
      && error_free completion.fields
    then (elim (fields_of (get completion.fields "parsed")) [
      | none ↦ some unread
      | some parsed ↦ extract py (obj parsed) signal
    ])
    else some unread

-- One request and its one completion.
unfoldable pub pair_attempt : Runtime → Signal → Record → Record → Option Attempt
pair_attempt py signal request completion = do
  let ordered = is_ordered request completion
  let earlier = min request.monotonic_ns completion.monotonic_ns
  reading ← read_response py signal ordered completion
  some (record {
    start_ns = if ordered then request.monotonic_ns else earlier;
    end_ns = if ordered then completion.monotonic_ns else earlier;
    first_sequence = request.sequence;
    last_sequence = completion.sequence;
    value = reading.1;
    valid = reading.0;
  })

-- Unpaired and duplicated records are attempts with no usable value.
unfoldable pub settle : Runtime → Signal → List Record → List Record → Option (List Attempt)
settle py signal (request ∷ []) (completion ∷ []) = do
  a ← pair_attempt py signal request completion
  some (a ∷ [])
settle py signal opened closed = some (map lone_attempt (opened ++ closed))

unfoldable pub settle_all : Runtime → Signal → List Exchange → Option (List Attempt)
settle_all py signal [] = some []
settle_all py signal (x ∷ xs) = do
  here ← settle py signal x.opened x.closed
  rest ← settle_all py signal xs
  some (here ++ rest)

-- `key=lambda a: (a.first_sequence, a.last_sequence)`.
abbrev pub attempt_le : Attempt → Attempt → Bool
attempt_le a b =
    ltb a.first_sequence b.first_sequence
    || (a.first_sequence == b.first_sequence && leb a.last_sequence b.last_sequence)

unfoldable pub insert_attempt : Attempt → List Attempt → List Attempt
insert_attempt a [] = a ∷ []
insert_attempt a (b ∷ bs) =
    let rest = insert_attempt a bs in if attempt_le a b then a ∷ b ∷ bs else b ∷ rest

unfoldable pub sort_attempts : List Attempt → List Attempt
sort_attempts [] = []
sort_attempts (a ∷ as') = insert_attempt a (sort_attempts as')

-- The ids are taken in the order in which they appear; the source takes them in the order of a set
-- and sorts the attempts.
unfoldable pub dragon_attempts : Runtime → Evidence → Signal → Option (List Attempt)
dragon_attempts py e signal = do
  let xs = exchanges_from signal (record { known = []; unidentified = [] }) (run_records e)
  settled ← settle_all py signal xs.known
  some (sort_attempts (map lone_attempt xs.unidentified ++ settled))

abbrev pub is_observation : Signal → Record → Bool
is_observation signal r =
    str_eq r.kind "source_observation"
    && same_text (some "prusalink") (get r.fields "source")
    && (elim signal.source_id [
      | none ↦ true
      | some id ↦ same_text (some id) (get r.fields "source_id")
    ])

-- `observed_monotonic_ns`, unless it is no int of [0, end].
abbrev pub observed_at : Record → Option ℕ
observed_at r = elim (natural_of (get r.fields "observed_monotonic_ns")) [
  | none ↦ none
  | some start ↦ if leb start r.monotonic_ns then some start else none
]

unfoldable pub read_observation : Runtime → Signal → Fields → Option Reading
read_observation py signal fields =
    if same_text (some "healthy") (get fields "source_state") && error_free fields
    then (elim (fields_of (get fields "data")) [
      | none ↦ some unread
      | some observed ↦ extract py (obj observed) signal
    ])
    else some unread

unfoldable pub observation_attempt : Runtime → Signal → Record → Option Attempt
observation_attempt py signal r = elim (observed_at r) [
  | none ↦ some (lone_attempt r)
  | some start ↦ (do
    reading ← read_observation py signal r.fields
    some (record {
      start_ns = start;
      end_ns = r.monotonic_ns;
      first_sequence = r.sequence;
      last_sequence = r.sequence;
      value = reading.1;
      valid = reading.0;
    }))
]

unfoldable pub prusalink_attempts : Runtime → Evidence → Signal → Option (List Attempt)
prusalink_attempts py e signal =
    map_option (observation_attempt py signal) (select (is_observation signal) (run_records e))

unfoldable pub attempts_for : Runtime → Evidence → Signal → Option (List Attempt)
attempts_for py e signal = elim signal.source [
  | dragon ↦ dragon_attempts py e signal
  | prusalink ↦ prusalink_attempts py e signal
]
