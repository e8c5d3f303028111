-- ===== src/Client/Sse/Printed.antt =====
-- Messages of an event stream as a device prints them.
use dragon_sniff.Prelude.{
  ℕ, ◌≤◌, true, false, List, [], ◌∷◌, ◌++◌, ◌==◌, length, all, any, map, All, ◌≡◌,
}
use dragon_sniff.Runtime.{Bytes}
use dragon_sniff.Client.Parsed.{Text}
use dragon_sniff.Client.Sse.{data_field, event_field, id_field}
use dragon_sniff.Client.Sse.Lines.{is_clean}

-- A message as a device prints it.
pub record Message : Type 0 where
  pub name : Text
  pub id : Text
  pub lines : List Text

abbrev pub event_line : Text → Text
event_line name = event_field ++ 58 ∷ 32 ∷ name

abbrev pub id_line : Text → Text
id_line id = id_field ++ 58 ∷ 32 ∷ id

abbrev pub data_line : Text → Text
data_line line = data_field ++ 58 ∷ 32 ∷ line

abbrev pub lines_of : Message → List Text
lines_of m = event_line m.name ∷ id_line m.id ∷ map data_line m.lines

unfoldable pub print_lines : List Text → Bytes
print_lines [] = []
print_lines (l ∷ ls) = l ++ 10 ∷ print_lines ls

abbrev pub print_message : Message → Bytes
print_message m = print_lines (lines_of m) ++ 10 ∷ []

unfoldable pub print_stream : List Message → Bytes
print_stream [] = []
print_stream (m ∷ ms) = print_message m ++ print_stream ms

-- Texts of ASCII without line ends or, in an id, a NUL, and no more bytes than the limit of an event.
pub record IsPrintable (most : ℕ) (m : Message) : Type 0 where
  pub name : all is_clean m.name ≡ true
  pub id : all is_clean m.id ≡ true
  pub no_nul : any (λ b. b == 0) m.id ≡ false
  pub lines : All (λ l. all is_clean l ≡ true) m.lines
  pub bounded : length (print_message m) ≤ most
