-- ===== src/Client/Sse/Delivered.antt =====
-- What is delivered of a stream that a device prints.
use dragon_sniff.Prelude.{
  Option, Option-cases, inl, inr, ℕ, zero, suc, ◌+◌, ◌≤◌, true, false, not, ◌&&◌, List, [], ◌∷◌,
  ◌++◌, none, some, ◌==◌, length, is_empty, is_some, all, any, map, length-append, All, ◌≡◌, refl,
  arith, ap, sym, ◌∙◌,
}
use mathlib.Core.List.{append_assoc, append-nil}
use dragon_sniff.Runtime.{Bytes}
use dragon_sniff.Client.Parsed.{Text, Codec, Reading}
use dragon_sniff.Client.Sse.{
  readline, partition, Pending, fresh, or_message, take_line, join_lines, SseEvent, event_of,
  with_parsed, read_data, yielded, then_fresh, deliver, End, end_of_stream, with_events, on_read,
  iter_sse,
}
use dragon_sniff.Client.Sse.Printed.{
  Message, event_line, id_line, data_line, lines_of, print_lines, print_message, print_stream,
  IsPrintable,
}
use dragon_sniff.Client.Sse.Lines.{is_clean, DecodesAscii, sized, iter_sse-line, iter_sse-blank}

-- What comes out: the parts of the message, its raw text, and what parsing its data gives.
abbrev pub with_message : Message → Reading → SseEvent
with_message m reading = record {
  event = or_message m.name;
  event_id = some m.id;
  raw_payload = join_lines (lines_of m) ++ 10 ∷ 10 ∷ [];
  payload = join_lines m.lines;
  parsed = reading.parsed;
  decode_error = none;
  parse_error_kind = reading.parse_error_kind;
  parsed_available = not (is_some reading.parse_error_kind) && not (is_empty (join_lines m.lines));
  dispatch = not (is_empty m.lines);
  comment_only = false;
}

-- An event for each message, up to the first whose data `json.loads` raises a plain ValueError on.
abbrev pub preceded : Message → Option Reading → List SseEvent × End → List SseEvent × End
preceded m none later = ([], End.value_error)
preceded m (some reading) later = with_events (with_message m reading ∷ []) later

abbrev pub deliveries : Codec → List Message → List SseEvent × End
deliveries c [] = ([], end_of_stream)
deliveries c (m ∷ ms) = preceded m (read_data c (join_lines m.lines) none) (deliveries c ms)

with_data : List Text → ℕ → Pending → Pending
with_data ls n p = record p {
  raw_lines = p.raw_lines ++ map data_line ls;
  data_lines = p.data_lines ++ ls;
  size = n;
}

take_line-data_line :
    (l : Text) (p : Pending)
    → take_line (data_line l) p ≡ record p {
      raw_lines = p.raw_lines ++ data_line l ∷ [];
      data_lines = p.data_lines ++ l ∷ [];
    }
unfolding take_line partition
take_line-data_line l p = refl

pending_eq :
    (p : Pending) {r r' ds ds' : List Text} {n n' : ℕ}
    → r ≡ r'
    → ds ≡ ds'
    → n ≡ n'
    → record p { raw_lines = r; data_lines = ds; size = n }
      ≡ record p { raw_lines = r'; data_lines = ds'; size = n' }
pending_eq p e f g = λ i. record p { raw_lines = e i; data_lines = f i; size = g i }

iter_sse-data :
    (c : Codec) (most reads : ℕ) (ls : List Text) (rest : Bytes) (p : Pending)
    → DecodesAscii c
    → All (λ l. all is_clean l ≡ true) ls
    → p.size + length (print_lines (map data_line ls)) ≤ most
    → iter_sse c most (length ls + reads) (print_lines (map data_line ls) ++ rest) p
      ≡ iter_sse c most reads rest
          (with_data ls (p.size + length (print_lines (map data_line ls))) p)
unfolding print_lines with_data
iter_sse-data c most reads [] rest p ascii h k =
    ap (λ n. iter_sse c most n rest p) (omega arith)
    ∙ ap (iter_sse c most reads rest)
        (pending_eq p (sym (append-nil p.raw_lines)) (sym (append-nil p.data_lines)) (omega arith))
iter_sse-data c most reads (l ∷ ls) rest p ascii h k =
    let more = print_lines (map data_line ls) in
    let split = length-append (data_line l) (10 ∷ more) in
    let one = length-append (data_line l) (10 ∷ []) in
    ap (λ n. iter_sse c most n ((data_line l ++ 10 ∷ more) ++ rest) p) (omega arith)
    ∙ ap (λ s. iter_sse c most (suc (length ls + reads)) s p)
        (append_assoc (data_line l) (10 ∷ more) rest)
    ∙ iter_sse-line c most (length ls + reads) 100 (97 ∷ 116 ∷ 97 ∷ 58 ∷ 32 ∷ l) (more ++ rest) p
        ascii h.0 (omega (arith, k, split))
    ∙ ap (iter_sse c most (length ls + reads) (more ++ rest))
        (take_line-data_line l (sized (length (data_line l ++ 10 ∷ [])) p))
    ∙ iter_sse-data c most reads ls rest
        (record p {
          raw_lines = p.raw_lines ++ data_line l ∷ [];
          data_lines = p.data_lines ++ l ∷ [];
          size = p.size + length (data_line l ++ 10 ∷ []);
        })
        ascii h.1 (omega (arith, k, split, one))
    ∙ ap (iter_sse c most reads rest) (
        pending_eq p (append_assoc p.raw_lines (data_line l ∷ []) (map data_line ls))
          (append_assoc p.data_lines (l ∷ []) ls) (omega (arith, split, one)))

take_line-event_line :
    (n : Text) (p : Pending)
    → take_line (event_line n) p
      ≡ record p { raw_lines = p.raw_lines ++ event_line n ∷ []; event_name = or_message n }
unfolding take_line partition
take_line-event_line n p = refl

take_line-id_line :
    (n : Text) (p : Pending)
    → any (λ b. b == 0) n ≡ false
    → take_line (id_line n) p
      ≡ record p { raw_lines = p.raw_lines ++ id_line n ∷ []; event_id = some n }
unfolding take_line partition
take_line-id_line n p h = rw h refl

-- The reads that a message takes.
abbrev pub reads_of : List Message → ℕ
reads_of [] = 0
reads_of (m ∷ ms) = suc (suc (length m.lines + suc (reads_of ms)))

flatten :
    (e i d rest : Bytes)
    → ((e ++ 10 ∷ (i ++ 10 ∷ d)) ++ 10 ∷ []) ++ rest ≡ e ++ 10 ∷ (i ++ 10 ∷ (d ++ 10 ∷ rest))
flatten e i d rest =
    append_assoc (e ++ 10 ∷ (i ++ 10 ∷ d)) (10 ∷ []) rest
    ∙ append_assoc e (10 ∷ (i ++ 10 ∷ d)) (10 ∷ rest)
    ∙ ap (λ s. e ++ 10 ∷ s) (append_assoc i (10 ∷ d) (10 ∷ rest))

length-flatten :
    (e i d : Bytes)
    → length ((e ++ 10 ∷ (i ++ 10 ∷ d)) ++ 10 ∷ []) ≡ length e + length i + length d + 3
length-flatten e i d = omega (
  arith,
  length-append (e ++ 10 ∷ (i ++ 10 ∷ d)) (10 ∷ []),
  length-append e (10 ∷ (i ++ 10 ∷ d)),
  length-append i (10 ∷ d),
)

-- The pending event behind the first two lines of a message.
abbrev after_id : Message → Pending
after_id m = record {
  raw_lines = event_line m.name ∷ id_line m.id ∷ [];
  data_lines = [];
  event_name = or_message m.name;
  event_id = some m.id;
  decode_error = none;
  size = 0 + length (event_line m.name ++ 10 ∷ []) + length (id_line m.id ++ 10 ∷ []);
}

deliver-with_data :
    (c : Codec) (m : Message) (n : ℕ) (later : Pending → List SseEvent × End)
    → deliver (then_fresh (yielded c (with_data m.lines n (after_id m)))) later
      ≡ preceded m (read_data c (join_lines m.lines) none) (later fresh)
unfolding with_data event_of with_parsed
deliver-with_data c m n later = elim (Option-cases (read_data c (join_lines m.lines) none)) [
  | inl raises ↦ rw (raises, event_of) refl
  | inr (reading, there) ↦ rw (there, event_of) refl
]

iter_sse-print_message :
    (c : Codec) (most reads : ℕ) (m : Message) (rest : Bytes)
    → DecodesAscii c
    → IsPrintable most m
    → iter_sse c most (suc (suc (length m.lines + suc reads))) (print_message m ++ rest) fresh
      ≡ preceded m (read_data c (join_lines m.lines) none) (iter_sse c most reads rest fresh)
unfolding print_lines with_data
iter_sse-print_message c most reads m rest ascii ok =
    let d = print_lines (map data_line m.lines) in
    let e = event_line m.name in
    let i = id_line m.id in
    let n = suc (length m.lines + suc reads) in
    let room = length-flatten e i d in
    let e₁ = length-append e (10 ∷ []) in
    let i₁ = length-append i (10 ∷ []) in
    ap (λ s. iter_sse c most (suc n) s fresh) (flatten e i d rest)
    ∙ iter_sse-line c most n 101 (118 ∷ 101 ∷ 110 ∷ 116 ∷ 58 ∷ 32 ∷ m.name)
        (i ++ 10 ∷ (d ++ 10 ∷ rest)) fresh ascii ok.name (omega (arith, ok.bounded, room))
    ∙ ap (iter_sse c most n (i ++ 10 ∷ (d ++ 10 ∷ rest)))
        (take_line-event_line m.name (sized (length (e ++ 10 ∷ [])) fresh))
    ∙ iter_sse-line c most (length m.lines + suc reads) 105 (100 ∷ 58 ∷ 32 ∷ m.id) (d ++ 10 ∷ rest)
        (record fresh {
          raw_lines = e ∷ [];
          event_name = or_message m.name;
          size = 0 + length (e ++ 10 ∷ []);
        })
        ascii ok.id (omega (arith, ok.bounded, room, e₁))
    ∙ ap (iter_sse c most (length m.lines + suc reads) (d ++ 10 ∷ rest)) (
        take_line-id_line m.id
          (sized (length (i ++ 10 ∷ [])) (record fresh {
            raw_lines = e ∷ [];
            event_name = or_message m.name;
            size = 0 + length (e ++ 10 ∷ []);
          }))
          ok.no_nul)
    ∙ iter_sse-data c most (suc reads) m.lines (10 ∷ rest) (after_id m) ascii ok.lines
        (omega (arith, ok.bounded, room, e₁, i₁))
    ∙ iter_sse-blank c most reads rest
        (with_data m.lines (0 + length (e ++ 10 ∷ []) + length (i ++ 10 ∷ []) + length d)
          (after_id m))
        ascii (omega (arith, ok.bounded, room, e₁, i₁))
    ∙ deliver-with_data c m (0 + length (e ++ 10 ∷ []) + length (i ++ 10 ∷ []) + length d)
        (iter_sse c most reads rest)

readline-nil : (n : ℕ) → readline n [] ≡ ([], [])
unfolding readline
readline-nil zero = refl
readline-nil (suc n) = refl

-- Messages that a device prints one after the other, each within the limit, come out as the same events
-- in the same order, with the name, the id and the data of each as they were printed, and the stream
-- ends; a stop that comes later than that many reads makes no difference. Where `json.loads` raises a
-- plain ValueError on the data of a message, the events before it come out and the error is raised.
pub iter_sse-print_stream :
    (c : Codec) (most extra : ℕ) (ms : List Message)
    → DecodesAscii c
    → All (IsPrintable most) ms
    → iter_sse c most (reads_of ms + suc extra) (print_stream ms) fresh ≡ deliveries c ms
unfolding print_stream
iter_sse-print_stream c most extra [] ascii ok =
    ap (λ n. iter_sse c most n [] fresh) (omega arith) ∙ ends
  where
    ends : iter_sse c most (suc extra) [] fresh ≡ ([], end_of_stream)
    ends =
        unfold iter_sse in
        unfold on_read in
        ap (λ (r : Bytes × Bytes). on_read c most r.0 fresh (λ q. iter_sse c most extra r.1 q))
          (readline-nil (most + 1))
iter_sse-print_stream c most extra (m ∷ ms) ascii ok =
    ap (λ n. iter_sse c most n (print_message m ++ print_stream ms) fresh) (omega arith)
    ∙ iter_sse-print_message c most (reads_of ms + suc extra) m (print_stream ms) ascii ok.0
    ∙ ap (preceded m (read_data c (join_lines m.lines) none))
        (iter_sse-print_stream c most extra ms ascii ok.1)
