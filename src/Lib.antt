-- ===== src/Lib.antt =====
-- DragonSniff watches a heater controller over HTTP, records what it sees and assesses the records
-- offline. This library models the parts that decide what the evidence says and what gets recorded.
--
-- Parts and files:
--   Assess/Evidence      src/dragonsniff/assess/evidence.py: load_evidence, from the bytes of a file
--                        to checked records, sequence gaps, the one run and the session metadata.
--   Assess/Profile       assess/profile.py: the schema checks of load_profile (Signals, Checks, Load).
--   Assess/Pointer       assess/engine.py: _resolve and _extract, a JSON Pointer on a JSON value.
--   Assess/Attempts      assess/engine.py: _dragon_attempts and _prusalink_attempts, which pair
--                        requests with their outcomes.
--   Assess/Timeline      assess/engine.py: _pieces, which holds a value until the next attempt or the
--                        hold's end, and _integrate, the sweep over the pieces' ends.
--   Assess/Engine        assess/engine.py: _truth, _window, evaluate.
--   Assess/Report        assess/report.py: build_report.
--   Recording            recording.py: SessionRecorder, a deque with a bound.
--   Annotations          annotations.py: AnnotationRequest, its validation and matches_record.
--   Capture              capture.py: CaptureConfig (Config), the record budget of CaptureRunner
--                        (Budget) and record_annotation (Annotate), which appends to the Recorder
--                        and asks the session store through the record Durable; Run is the
--                        capture's state machine, a relation of the locked parts of start, stop,
--                        _run, _complete and _finish_if_complete, with Reach for interleavings.
--   Storage              storage.py: SessionStore and PersistentSessionRecorder. Evidence has the bytes of
--                        a file (writing, finding and cutting off a torn record), Metadata the file
--                        metadata.json, Sessions the store and the calls that change it, Recovery the
--                        start over existing files, Retention the removal of old sessions, Annotations
--                        the lookups, Recorder the step before a record is visible.
--   Client               client.py: ConnectionBudget as steps of threads (Budget), the check of parsed
--                        JSON (Parsed), fetch_json (Fetch) and the parser of the event stream (Sse).
--   Target               target.py: parse_target and DeviceTarget.endpoint.
--   Churn                churn.py: ChurnConfig.
--   PrusaLink            prusalink.py: parse_prusalink_status.
-- Prelude has the shared names, tests, lists, integers and the monad of results; Json the values that
-- json.loads and tomllib return, with Python's numbers: an int, or a finite double as a whole number
-- over a power of two. Proofs are in the child modules named for what they prove, examples in Tests.
--
-- Correspondence: a Python function is a function of the same name, its leading underscore dropped; a
-- dataclass or a dict of fixed keys is a record; an exception is a constructor of the error type beside
-- the result, or none where the caller tells no two apart. A method under a lock is one step from a
-- state to a state. A message's text and the place it names are left out of an error.
-- Functions of Python's standard library are fields of Runtime, and for the client of Codec, and nothing
-- is assumed of them but what a theorem lists: json.loads, json.dumps, tomllib.loads, sha256, isdigit,
-- int, float and its subtraction, multiplication and division, strip, lower, the UTF-8 test and
-- decoding, UUID and urlsplit. The clocks, new ids, what the file system does in a call, what the opener
-- gives and, for Recording, whether a record can be persisted come as arguments.
-- Every loop is over a list that the code has, but four: the write loop has the length of the value as
-- fuel, the backward search that of the file and the check of parsed JSON the number of values, and each
-- is proved to be enough; the event stream has the number of reads until it is stopped. All are total.
-- A directory that `rmtree` refuses to remove stays as it is.
-- Times in nanoseconds and sequences are naturals without a bound, as Python's ints are.
--
-- Not modelled: sockets, HTTP and the other threads (stream_events of client.py, observer.py, server.py,
-- the schedules of capture.py, churn.py and prusalink.py), links and the flushes of directories in
-- storage.py, export_filename, the command line, the web page and the release scripts.
pub mod Annotations
pub mod Assess
pub mod Capture
pub mod Churn
pub mod Client
pub mod Json
pub mod Prelude
pub mod PrusaLink
pub mod Recording
pub mod Runtime
pub mod Storage
pub mod Target
