-- ===== src/Recording.antt =====
-- The bounded in-memory session recorder: src/dragonsniff/recording.py. The lock makes each method
-- one step; the clocks are read before it and come as arguments.
pub mod Window
mod Tests
use dragon_sniff.Prelude.{
  ℕ, zero, suc, ◌+◌, String, Bool, true, false, List, [], ◌∷◌, ◌++◌, Option, none, some, str_eq,
  ltb, ◌==◌, if◌then◌else◌, length, tail,
}
use dragon_sniff.Prelude.Int.{pos}
use dragon_sniff.Json.{Value, Fields, Number, int, num, str, field, end, put, merge}

pub record Recorder : Type 0 where
  pub max_records : ℕ
  pub records : List Fields
  pub next_sequence : ℕ
  pub dropped : ℕ

pub data RecordError : Type 0 where
  max_records_not_positive kind_required not_persisted : RecordError

-- A method that raises leaves the state that is beside the error.
pub data Outcome : Type 0 where
  recorded : Recorder → Fields → Outcome
  refused : Recorder → RecordError → Outcome

unfoldable pub init : ℕ → Option Recorder
init max_records =
    if ltb max_records 1
    then none
    else some (record { max_records = max_records; records = []; next_sequence = 1; dropped = 0 })

abbrev pub natural : ℕ → Value
natural n = num (int (pos n))

-- The record before its sequence is known; the caller's fields go over the recorder's own.
unfoldable pub draft : String → String → ℕ → Fields → Fields
draft kind timestamp monotonic_ns fields =
    merge
      (field "sequence" (natural 0) (
        field "timestamp" (str timestamp)
          (field "monotonic_ns" (natural monotonic_ns) (field "kind" (str kind) end))))
      fields

-- `deque(maxlen=n).append`: a full deque drops its first element.
unfoldable pub push : ℕ → Fields → List Fields → List Fields
push max_records r rs = if length rs == max_records then tail (rs ++ r ∷ []) else rs ++ r ∷ []

-- What `append` does under the lock once the record is persisted.
unfoldable pub store : Recorder → Fields → Recorder
store s r = record s {
  records = push s.max_records r s.records;
  next_sequence = s.next_sequence + 1;
  dropped = if length s.records == s.max_records then s.dropped + 1 else s.dropped;
}

-- `append`; `persist` is `_before_record_visible`, which may raise.
unfoldable pub append : (Fields → Bool) → String → String → ℕ → Fields → Recorder → Outcome
append persist kind timestamp monotonic_ns fields s =
    if str_eq kind ""
    then refused s kind_required
    else (let r =
          put "sequence" (natural s.next_sequence) (draft kind timestamp monotonic_ns fields) in
        if persist r then recorded (store s r) r else refused s not_persisted)

pub record Summary : Type 0 where
  pub records : ℕ
  pub max_records : ℕ
  pub dropped_records : ℕ

unfoldable pub summary : Recorder → Summary
summary s = record {
  records = length s.records;
  max_records = s.max_records;
  dropped_records = s.dropped;
}

abbrev pub snapshot : Recorder → List Fields
snapshot s = s.records

-- One call of `append`.
pub record Call : Type 0 where
  pub kind : String
  pub timestamp : String
  pub monotonic_ns : ℕ
  pub fields : Fields

abbrev pub after : Outcome → Recorder
after (recorded s r) = s
after (refused s e) = s

-- What a call adds to the full history.
abbrev pub accepted : Outcome → List Fields
accepted (recorded s r) = r ∷ []
accepted (refused s e) = []

abbrev pub call : (Fields → Bool) → Recorder → Call → Outcome
call persist s c = append persist c.kind c.timestamp c.monotonic_ns c.fields s

-- The recorder after a series of calls, and all that they recorded.
unfoldable pub replay : (Fields → Bool) → Recorder → List Call → Recorder
replay persist s [] = s
replay persist s (c ∷ cs) = replay persist (after (call persist s c)) cs

unfoldable pub history : (Fields → Bool) → Recorder → List Call → List Fields
history persist s [] = []
history persist s (c ∷ cs) =
    accepted (call persist s c) ++ history persist (after (call persist s c)) cs
