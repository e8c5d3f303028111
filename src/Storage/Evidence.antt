-- ===== src/Storage/Evidence.antt =====
-- A session's evidence file as bytes: writing it, finding its last complete record and cutting off a
-- torn one. `_write_all`, `_last_complete_record_end`, `_repair_partial_tail_locked` and
-- `_scan_evidence_locked` of src/dragonsniff/storage.py.
pub mod Writing
pub mod Tail
pub mod Repaired
use dragon_sniff.Prelude.{
  ℕ, zero, suc, ◌+◌, ◌-◌, Bool, true, false, List, [], ◌∷◌, ◌++◌, Option, none, some, ltb, ◌==◌,
  if◌then◌else◌, length, take, last_of,
}
use dragon_sniff.Runtime.{Bytes}

abbrev pub drop : {A : Type 0} → ℕ → List A → List A
drop zero xs = xs
drop (suc n) [] = []
drop (suc n) (x ∷ xs) = drop n xs

-- The bytes that reached the file, and whether the call returned.
pub record Written : Type 0 where
  pub content : Bytes
  pub returned : Bool

-- `os_write` is one call of `os.write` on what is left: the number of bytes it took, or `none` for an
-- OSError. Taking none at all is an OSError too. Each round needs one byte or more, so the length of
-- the value is fuel enough.
abbrev pub prepend_written : Bytes → Written → Written
prepend_written part w = record w { content = part ++ w.content }

unfoldable pub write_rounds : (Bytes → Option ℕ) → ℕ → Bytes → Written
write_rounds os_write fuel [] = record { content = []; returned = true }
write_rounds os_write zero (c ∷ cs) = record { content = []; returned = false }
write_rounds os_write (suc fuel) (c ∷ cs) = elim (os_write (c ∷ cs)) [
  | none ↦ record { content = []; returned = false }
  | some zero ↦ record { content = []; returned = false }
  | some (suc n) ↦
      prepend_written (take (suc n) (c ∷ cs)) (write_rounds os_write fuel (drop (suc n) (c ∷ cs)))
]

unfoldable pub write_all : (Bytes → Option ℕ) → Bytes → Written
unfolding write_rounds
write_all os_write value = write_rounds os_write (length value) value

abbrev pub newline : ℕ
newline = 10

-- `chunk.rfind(b"\n")`.
unfoldable pub rfind : Bytes → Option ℕ
rfind [] = none
rfind (c ∷ cs) = elim (rfind cs) [
  | some i ↦ some (suc i)
  | none ↦ if c == newline then some 0 else none
]

-- The loop from `position` backwards, a chunk of `size` bytes at a time. It stops after `position`
-- rounds at most.
unfoldable pub search_back : ℕ → ℕ → Bytes → ℕ → ℕ
search_back size zero stream position = 0
search_back size (suc fuel) stream position = elim (ltb 0 position) [
  | false ↦ 0
  | true ↦
      let start = position - size in
      elim (rfind (take (position - start) (drop start stream))) [
        | some i ↦ start + i + 1
        | none ↦ search_back size fuel stream start
      ]
]

abbrev pub io_chunk_bytes : ℕ
io_chunk_bytes = 65_536

unfoldable pub last_complete_record_end : Bytes → ℕ
unfolding search_back
last_complete_record_end stream = search_back io_chunk_bytes (length stream) stream (length stream)

-- The evidence afterwards, what goes into `evidence.partial`, and its size for the metadata.
pub data Repair : Type 0 where
  unchanged : Repair
  cut : Bytes → Bytes → ℕ → Repair

unfoldable pub ends_complete : Bytes → Bool
ends_complete [] = true
ends_complete (c ∷ cs) = last_of c cs == newline

unfoldable pub repair_partial_tail : Option Bytes → Repair
repair_partial_tail none = unchanged
repair_partial_tail (some stream) =
    if ends_complete stream
    then unchanged
    else (let valid_size = last_complete_record_end stream in
        cut (take valid_size stream) (drop valid_size stream) (length stream - valid_size))

unfoldable pub count_newlines : Bytes → ℕ
count_newlines [] = 0
count_newlines (c ∷ cs) = let later = count_newlines cs in if c == newline then later + 1 else later

-- The records and the size of the file; its chunks are summed up in order, so they are left out.
unfoldable pub scan_evidence : Option Bytes → ℕ × ℕ
scan_evidence none = (0, 0)
scan_evidence (some stream) = (count_newlines stream, length stream)

-- The evidence file once it is repaired.
abbrev pub evidence_after : Repair → Option Bytes → Option Bytes
evidence_after unchanged file = file
evidence_after (cut kept torn n) file = some kept
