-- ===== src/Recording/Tests.antt =====
-- A recorder of two records after three calls, one of which has no kind.
use dragon_sniff.Prelude.{true, List, [], ◌∷◌, ◌++◌, some, ◌≡◌, refl, length}
use dragon_sniff.Json.{end, put, merge, find}
use dragon_sniff.Recording.{Recorder, Call, init, draft, push, store, append, replay, history}
use dragon_sniff.Recording.Window
use dragon_sniff.Recording.Window.{Tracks}

program : Unit {0}
unfolding init draft push store append replay history put merge find
program = tt

abbrev note : Call
note = record { kind = "note"; timestamp = "t"; monotonic_ns = 5; fields = end }

abbrev calls : List Call
calls = note ∷ note ∷ record note { kind = "" } ∷ note ∷ []

abbrev empty : Recorder
empty = record { max_records = 2; records = []; next_sequence = 1; dropped = 0 }

one_dropped :
    ((replay (λ r. true) empty calls).dropped ≡ 1)
    × (length (replay (λ r. true) empty calls).records ≡ 2)
unfolding program
one_dropped = (refl, refl)

init_two : init 2 ≡ some empty
unfolding program
init_two = refl

replay-Tracks_example :
    Tracks (replay (λ r. true) empty calls) ([] ++ history (λ r. true) empty calls)
replay-Tracks_example =
    Window.replay-Tracks (λ r. true) empty [] calls (Window.init-Tracks 2 empty init_two)
