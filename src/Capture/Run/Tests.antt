-- ===== src/Capture/Run/Tests.antt =====
-- A capture that is stopped while it fetches, and two answers of different boots.
use dragon_sniff.Prelude.{String, true, false, [], ◌∷◌, some, ◌≡◌, refl}
use dragon_sniff.Prelude.Int.{ℤ}
use dragon_sniff.Json.{obj, str, field, end, get, find}
use dragon_sniff.Client.Fetch.{FetchResult, blank}
use dragon_sniff.Capture.Annotate.{cancelled}
use dragon_sniff.Capture.Run.{
  settled, Run, new_run, health, sample, observe_boot_id, finish_if_complete, Step, Reach, started,
  completing, request_stop, sampling,
}
use dragon_sniff.Capture.Run.Tallied.{Tallied, Reach-Tallied}
use dragon_sniff.Capture.Run.Live.{Finishes, Reach-Finishes}
use dragon_sniff.Capture.Run.Ended.{HasEnded, Reach-HasEnded}

abbrev print_int : ℤ → String
print_int z = "7"

abbrev healthy : String → FetchResult
healthy boot = record (blank 1 "/api/v2/health") {
  is_ok = true;
  parsed = obj (field "boot_id" (str boot) end);
}

two_boots :
    (sample print_int health
      (healthy "b")
      (sample print_int health (healthy "a") new_run)).boot_id_changes
    ≡ record { previous = "a"; current = "b"; fetch_sequence = 2 } ∷ []
unfolding sample observe_boot_id get find
two_boots = refl

-- Started, a fetch begun and ended, a stop, the cancel, the record, and the last check.
abbrev fetched : Run
fetched =
    sample print_int health (healthy "a")
      (record (record (started false new_run) { connections = 1 }) { connections = 0 })

abbrev stopped : Run
stopped = record (request_stop fetched) { cancel = true }

abbrev ended_run : Run
ended_run = record (completing cancelled (record stopped { connections = 0 })) {
  ended = some cancelled;
}

reached_stop : Reach print_int sampling stopped
unfolding sample observe_boot_id get find
reached_stop =
    let fetching =
      Reach.then (Reach.then (Reach.then Reach.begins (Step.starts false refl)) Step.thread_starts)
        Step.fetch_begins in
    Reach.then
      (Reach.then (Reach.then fetching (Step.fetch_ends health (healthy "a"))) Step.stop_requested)
      Step.cancel_set

reached : Reach print_int settled (finish_if_complete ended_run)
unfolding sample observe_boot_id get find
reached =
    Reach.then
      (Reach.then
        (Reach.then (Reach.then reached_stop (Step.leaves true false (λ seen. refl)))
          Step.completes)
        Step.records)
      Step.worker_checks

Reach-Finishes_example : Finishes print_int sampling stopped
Reach-Finishes_example = Reach-Finishes print_int sampling stopped reached_stop refl

Reach-HasEnded_example :
    HasEnded (finish_if_complete ended_run) × ((finish_if_complete ended_run).source_alive ≡ false)
unfolding sample observe_boot_id finish_if_complete get find
Reach-HasEnded_example =
    Reach-HasEnded print_int settled (finish_if_complete ended_run) reached refl

Reach-Tallied_example : Tallied stopped
Reach-Tallied_example = Reach-Tallied print_int sampling stopped reached_stop
