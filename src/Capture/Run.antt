-- ===== src/Capture/Run.antt =====
-- The run of a capture: `start`, `stop`, `_run`, `_sample`, `_observe_boot_id`, `_complete` and
-- `_finish_if_complete` of src/dragonsniff/capture.py. Each part that runs under the lock is one step, so
-- an interleaving of the worker thread with callers is a list of steps.
pub mod Ended
pub mod Live
pub mod Tallied
mod Tests
use dragon_sniff.Prelude.{
  ℕ, ◌+◌, String, Bool, true, false, not, ◌&&◌, ◌||◌, List, [], ◌∷◌, ◌++◌, Option, none, some,
  str_eq, ◌==◌, if◌then◌else◌, ◌≡◌,
}
use dragon_sniff.Prelude.Int.{ℤ}
use dragon_sniff.Json.{Value, Fields, obj, str, num, int, bool, null, get}
use dragon_sniff.Client.Fetch.{FetchResult}
use dragon_sniff.Capture.Annotate.{Phase, idle, running, stopping, completed, cancelled, failed}

-- Where the worker thread is: not made, made and not started, made and never to be started, in the body of
-- `_run`, behind it with an outcome, in `_complete` before the terminal record, behind it, and gone.
pub data Worker : Type 0 where
  absent created lost sampling : Worker
  leaving recording : Phase → Worker
  settled exited : Worker

pub record BootChange : Type 0 where
  pub previous : String
  pub current : String
  pub fetch_sequence : ℕ

-- The entries of `_state`, the two events, and what the run waits for. `ended` is the terminal record.
pub record Run : Type 0 where
  pub phase : Phase
  pub fetches_completed : ℕ
  pub samples_completed : ℕ
  pub state_successes : ℕ
  pub state_failures : ℕ
  pub health_successes : ℕ
  pub health_failures : ℕ
  pub initial_boot_id : Option String
  pub latest_boot_id : Option String
  pub boot_id_changes : List BootChange
  pub cleanup_complete : Bool
  pub cancel : Bool
  pub finished : Bool
  pub connections : ℕ
  pub source_alive : Bool
  pub ended : Option Phase

abbrev pub new_run : Run
new_run = record {
  phase = idle;
  fetches_completed = 0;
  samples_completed = 0;
  state_successes = 0;
  state_failures = 0;
  health_successes = 0;
  health_failures = 0;
  initial_boot_id = none;
  latest_boot_id = none;
  boot_id_changes = [];
  cleanup_complete = true;
  cancel = false;
  finished = false;
  connections = 0;
  source_alive = false;
  ended = none;
}

abbrev pub is_terminal : Phase → Bool
is_terminal completed = true
is_terminal cancelled = true
is_terminal failed = true
is_terminal _ = false

-- The three endpoints.
pub data Endpoint : Type 0 where
  info state health : Endpoint

-- `str(boot_id)` of a text or an int; `str_of_int` prints an int.
abbrev pub boot_id_text : (ℤ → String) → Value → Option String
boot_id_text str_of_int (str s) = some s
boot_id_text str_of_int (num (int z)) = some (str_of_int z)
boot_id_text str_of_int (bool true) = some "True"
boot_id_text str_of_int (bool false) = some "False"
boot_id_text str_of_int _ = none

abbrev pub boot_id_of : Value → Value
boot_id_of (obj fs) = get fs "boot_id"
boot_id_of _ = null

abbrev pub changes_after : Option String → Option String → String → ℕ → List BootChange
changes_after none previous boot_id n = []
changes_after (some initial) none boot_id n = []
changes_after (some initial) (some previous) boot_id n =
    if str_eq previous boot_id
    then []
    else record { previous = previous; current = boot_id; fetch_sequence = n } ∷ []

abbrev pub or_first : Option String → String → Option String
or_first none boot_id = some boot_id
or_first (some initial) boot_id = some initial

abbrev pub see_boot_id : Option String → ℕ → Run → Run
see_boot_id none n s = s
see_boot_id (some boot_id) n s = record s {
  initial_boot_id = or_first s.initial_boot_id boot_id;
  latest_boot_id = some boot_id;
  boot_id_changes = s.boot_id_changes ++ changes_after s.initial_boot_id s.latest_boot_id boot_id n;
}

unfoldable pub observe_boot_id : (ℤ → String) → Value → ℕ → Run → Run
observe_boot_id str_of_int parsed n s =
    see_boot_id (boot_id_text str_of_int (boot_id_of parsed)) n s

abbrev pub one_if : Bool → ℕ
one_if true = 1
one_if false = 0

-- What `_sample` does under its second lock.
unfoldable pub sample : (ℤ → String) → Endpoint → FetchResult → Run → Run
sample str_of_int info r s = record s { fetches_completed = s.fetches_completed + 1 }
sample str_of_int state r s = record s {
  fetches_completed = s.fetches_completed + 1;
  state_successes = s.state_successes + one_if r.is_ok;
  state_failures = s.state_failures + one_if (not r.is_ok);
  samples_completed = s.samples_completed + 1;
}
sample str_of_int health r s =
    observe_boot_id str_of_int r.parsed (s.fetches_completed + 1) (record s {
      fetches_completed = s.fetches_completed + 1;
      health_successes = s.health_successes + one_if r.is_ok;
      health_failures = s.health_failures + one_if (not r.is_ok);
    })

abbrev pub is_stopping : Phase → Bool
is_stopping stopping = true
is_stopping _ = false

-- What `_finish_if_complete` waits for beside the thread.
abbrev pub is_held : Run → Bool
is_held s = not (s.connections == 0) || (s.source_alive || is_stopping s.phase)

-- `_finish_if_complete` where the thread is the caller's or is not alive.
unfoldable pub finish_if_complete : Run → Run
finish_if_complete s =
    if is_held s
    then s
    else record s { cleanup_complete = true; finished = s.finished || is_terminal s.phase }

abbrev pub is_alive : Worker → Bool
is_alive absent = false
is_alive created = false
is_alive lost = false
is_alive exited = false
is_alive _ = true

abbrev pub is_idle : Phase → Bool
is_idle idle = true
is_idle _ = false

-- The first lock of `stop`.
abbrev pub request_stop : Run → Run
request_stop s = if is_terminal s.phase || is_idle s.phase then s else record s { phase = stopping }

-- The outcome of the body.
abbrev pub outcome_of_body : Bool → Bool → Phase
outcome_of_body seen raised_ = if seen then cancelled else (if raised_ then failed else completed)

-- `start` under the lock; `source` is whether the printer's source has a thread.
abbrev pub started : Bool → Run → Run
started source s = record s { phase = running; cleanup_complete = false; source_alive = source }

-- `_complete` under the lock.
abbrev pub final_phase : Phase → Run → Phase
final_phase outcome s = if s.cancel then cancelled else outcome

abbrev pub completing : Phase → Run → Run
completing outcome s = record s { phase = final_phase outcome s; cleanup_complete = false }

-- The steps of the worker and of the callers.
pub data Step (str_of_int : ℤ → String) : Worker → Run → Worker → Run → Type 0 where
  starts :
      {s : Run} (source : Bool)
      → is_idle s.phase ≡ true
      → Step str_of_int absent s created (started source s)
  -- the record of the start cannot be persisted, and `start` raises
  starts_unrecorded :
      {s : Run}
      → is_idle s.phase ≡ true
      → Step str_of_int absent s absent (record s { phase = running; cleanup_complete = false })
  -- starting the printer's source raises, which may have got as far as a thread of its own
  starts_without_thread :
      {s : Run} (source : Bool)
      → is_idle s.phase ≡ true
      → Step str_of_int absent s lost (started source s)
  -- the operating system refuses the thread, and `start` raises
  thread_refused : {s : Run} → Step str_of_int created s lost s
  thread_starts : {s : Run} → Step str_of_int created s sampling s
  fetch_begins :
      {s : Run} → Step str_of_int sampling s sampling (record s { connections = s.connections + 1 })
  fetch_ends :
      {s : Run} (path : Endpoint) (r : FetchResult)
      → Step str_of_int sampling s sampling
          (sample str_of_int path r (record s { connections = 0 }))
  -- the body of `_run` ends, or is left by an exception; `seen` is whether it has seen the cancel
  leaves :
      {s : Run} (seen raised_ : Bool)
      → (seen ≡ true → s.cancel ≡ true)
      → Step str_of_int sampling s
          (leaving (outcome_of_body seen raised_))
          (record s { connections = 0 })
  completes :
      {s : Run} {outcome : Phase}
      → Step str_of_int
          (leaving outcome)
          s
          (recording (final_phase outcome s))
          (completing outcome s)
  records :
      {s : Run} {final : Phase}
      → Step str_of_int (recording final) s settled (record s { ended = some final })
  -- the terminal record cannot be persisted
  fails_to_record :
      {s : Run} {final : Phase}
      → Step str_of_int (recording final) s settled (record s { phase = failed })
  worker_checks : {s : Run} → Step str_of_int settled s settled (finish_if_complete s)
  thread_ends : {s : Run} → Step str_of_int settled s exited s
  -- the printer's source ends, in its own thread
  source_ends : {w : Worker} {s : Run} → Step str_of_int w s w (record s { source_alive = false })
  -- `stop`, in its two parts
  stop_requested : {w : Worker} {s : Run} → Step str_of_int w s w (request_stop s)
  cancel_set : {w : Worker} {s : Run} → Step str_of_int w s w (record s { cancel = true })
  -- `snapshot`, `stop` and `wait_finished` in another thread
  caller_checks :
      {w : Worker} {s : Run} → is_alive w ≡ false → Step str_of_int w s w (finish_if_complete s)

-- The states that some interleaving leads to.
pub data Reach (str_of_int : ℤ → String) : Worker → Run → Type 0 where
  begins : Reach str_of_int absent new_run
  then :
      {w w' : Worker} {s s' : Run}
      → Reach str_of_int w s
      → Step str_of_int w s w' s'
      → Reach str_of_int w' s'
