-- ===== src/Client/Sse.antt =====
-- The events of a stream: `_iter_sse` and `_event` of src/dragonsniff/client.py, over the bytes that
-- the device sends.
pub mod Lines
pub mod Printed
pub mod Delivered
use dragon_sniff.Prelude.{
  ℕ, zero, suc, ◌+◌, String, Bool, true, false, not, ◌&&◌, ◌||◌, List, [], ◌∷◌, ◌++◌, Option, none,
  some, ltb, ◌==◌, if◌then◌else◌, length, is_empty, is_some, all, any,
}
use dragon_sniff.Prelude.Result.{Result, ok, err}
use dragon_sniff.Json.{Value, null}
use dragon_sniff.Runtime.{Bytes}
use dragon_sniff.Client.Parsed.{Text, Codec, ParseErrorKind, Reading, parse_decoded_json}

-- `readline(limit)`: up to a newline, that included, or up to the limit; and what is left.
abbrev pub onto_first : ℕ → Bytes × Bytes → Bytes × Bytes
onto_first c (line, rest) = (c ∷ line, rest)

unfoldable pub readline : ℕ → Bytes → Bytes × Bytes
readline zero stream = ([], stream)
readline (suc limit) [] = ([], [])
readline (suc limit) (c ∷ cs) =
    let more = readline limit cs in if c == 10 then (c ∷ [], cs) else onto_first c more

abbrev pub is_eol : ℕ → Bool
is_eol c = c == 10 || c == 13

-- `line.rstrip(b"\r\n")`.
unfoldable pub rstrip : Bytes → Bytes
rstrip [] = []
rstrip (c ∷ cs) = let more = rstrip cs in if is_empty more && is_eol c then [] else c ∷ more

-- `line.partition(":")` as the parts before and behind the colon, the latter none where there is none.
abbrev pub before_colon : ℕ → Text × Option Text → Text × Option Text
before_colon c (field, rest) = (c ∷ field, rest)

unfoldable pub partition : Text → Text × Option Text
partition [] = ([], none)
partition (c ∷ cs) =
    let more = partition cs in if c == 58 then ([], some cs) else before_colon c more

-- The value without one space in front.
abbrev pub value_of : Option Text → Text
value_of none = []
value_of (some []) = []
value_of (some (c ∷ cs)) = if c == 32 then cs else c ∷ cs

abbrev pub equal_text : Text → Text → Bool
equal_text [] [] = true
equal_text (a ∷ xs) (b ∷ ys) = let more = equal_text xs ys in a == b && more
equal_text _ _ = false

abbrev pub message : Text
message = 109 ∷ 101 ∷ 115 ∷ 115 ∷ 97 ∷ 103 ∷ 101 ∷ []

abbrev pub data_field : Text
data_field = 100 ∷ 97 ∷ 116 ∷ 97 ∷ []

abbrev pub event_field : Text
event_field = 101 ∷ 118 ∷ 101 ∷ 110 ∷ 116 ∷ []

abbrev pub id_field : Text
id_field = 105 ∷ 100 ∷ []

-- The event so far: the local variables of the loop.
pub record Pending : Type 0 where
  pub raw_lines : List Text
  pub data_lines : List Text
  pub event_name : Text
  pub event_id : Option Text
  pub decode_error : Option String
  pub size : ℕ

abbrev pub fresh : Pending
fresh = record {
  raw_lines = [];
  data_lines = [];
  event_name = message;
  event_id = none;
  decode_error = none;
  size = 0;
}

abbrev pub or_message : Text → Text
or_message [] = message
or_message (c ∷ cs) = c ∷ cs

abbrev pub take_field : Text → Text → Pending → Pending
take_field field value p =
    if equal_text field data_field
    then record p { data_lines = p.data_lines ++ value ∷ [] }
    else (if equal_text field event_field
        then record p { event_name = or_message value }
        else (if equal_text field id_field && not (any (λ c. c == 0) value)
            then record p { event_id = some value }
            else p))

-- A line that begins with a colon is a comment.
abbrev pub is_comment : Text → Bool
is_comment [] = false
is_comment (c ∷ cs) = c == 58

unfoldable pub take_line : Text → Pending → Pending
take_line line p =
    let q = record p { raw_lines = p.raw_lines ++ line ∷ [] } in
    let (field, rest) = partition line in
    if is_comment line then q else take_field field (value_of rest) q

abbrev pub join_lines : List Text → Text
join_lines [] = []
join_lines (l ∷ []) = l
join_lines (l ∷ m ∷ ls) = l ++ 10 ∷ join_lines (m ∷ ls)

-- `payload` is the entry `data`.
pub record SseEvent : Type 0 where
  pub event : Text
  pub event_id : Option Text
  pub raw_payload : Text
  pub payload : Text
  pub parsed : Value
  pub decode_error : Option String
  pub parse_error_kind : Option ParseErrorKind
  pub parsed_available : Bool
  pub dispatch : Bool
  pub comment_only : Bool

-- None where parsing raises.
abbrev pub read_data : Codec → Text → Option String → Option Reading
read_data c [] e = some (record { parsed = null; parse_error_kind = none })
read_data c (x ∷ xs) e = parse_decoded_json c (x ∷ xs) e

unfoldable pub with_parsed : Pending → Reading → SseEvent
with_parsed p reading =
    let payload = join_lines p.data_lines in
    record {
      event = p.event_name;
      event_id = p.event_id;
      raw_payload = join_lines p.raw_lines ++ 10 ∷ 10 ∷ [];
      payload = payload;
      parsed = reading.parsed;
      decode_error = p.decode_error;
      parse_error_kind = reading.parse_error_kind;
      parsed_available =
          not (is_some p.decode_error)
          && (not (is_some reading.parse_error_kind) && not (is_empty payload));
      dispatch = not (is_empty p.data_lines);
      comment_only = not (is_empty p.raw_lines) && all is_comment p.raw_lines;
    }

unfoldable pub event_of : Codec → Pending → Option SseEvent
event_of c p = elim (read_data c (join_lines p.data_lines) p.decode_error) [
  | none ↦ none
  | some reading ↦ some (with_parsed p reading)
]

-- What is yielded of an event, nothing before its first line; none where the ValueError of parsing is
-- raised instead.
abbrev pub only : Option SseEvent → Option (List SseEvent)
only none = none
only (some e) = some (e ∷ [])

abbrev pub yielded : Codec → Pending → Option (List SseEvent)
yielded c p = if is_empty p.raw_lines then some [] else only (event_of c p)

abbrev pub first_error : Option String → Option String → Option String
first_error (some e) later = some e
first_error none later = later

-- How the generator ends: the stream does, or `stop` is set, or ResponseTooLargeError or the ValueError
-- of `json.loads` is raised.
pub data End : Type 0 where
  end_of_stream stopped too_large value_error : End

abbrev pub with_events : List SseEvent → List SseEvent × End → List SseEvent × End
with_events es (fs, e) = (es ++ fs, e)

-- One line that is not the end: the event that it completes, and the pending one.
abbrev pub then_fresh : Option (List SseEvent) → Option (List SseEvent × Pending)
then_fresh none = none
then_fresh (some events) = some (events, fresh)

unfoldable pub on_line : Codec → Bytes → Pending → Option (List SseEvent × Pending)
on_line c line_bytes p =
    let (line, e) = c.decode (rstrip line_bytes) in
    let q = record p {
      size = p.size + length line_bytes;
      decode_error = first_error p.decode_error e;
    } in
    if is_empty line then then_fresh (yielded c q) else some ([], take_line line q)

-- What is done with a line that was read; `later` is the rest of the loop.
abbrev pub deliver :
    Option (List SseEvent × Pending) → (Pending → List SseEvent × End) → List SseEvent × End
deliver none later = ([], value_error)
deliver (some (events, q)) later = with_events events (later q)

abbrev pub at_end : Option (List SseEvent) → List SseEvent × End
at_end none = ([], value_error)
at_end (some events) = (events, end_of_stream)

unfoldable pub on_read :
    Codec → ℕ → Bytes → Pending → (Pending → List SseEvent × End) → List SseEvent × End
on_read c max_event_bytes [] p later = at_end (yielded c p)
on_read c max_event_bytes (b ∷ bs) p later = elim (ltb max_event_bytes (p.size + length (b ∷ bs))) [
  | true ↦ ([], too_large)
  | false ↦ deliver (on_line c (b ∷ bs) p) later
]

-- The loop; `reads` is the number of lines that are read until `stop` is set.
unfoldable pub iter_sse : Codec → ℕ → ℕ → Bytes → Pending → List SseEvent × End
iter_sse c max_event_bytes zero stream p = ([], stopped)
iter_sse c max_event_bytes (suc reads) stream p =
    let r = readline (max_event_bytes + 1) stream in
    on_read c max_event_bytes r.0 p (λ q. iter_sse c max_event_bytes reads r.1 q)
