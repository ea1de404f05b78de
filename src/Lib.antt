-- ===== src/Lib.antt =====
-- A model of the Python program of Mutsumi's SYNC, a chat bot with a durable memory. All paths below
-- are those of archive/v3/src/mutsumi_sync.
--
-- How the parts work together. Chat messages arrive over a WebSocket (message/receiver.py) and
-- reports of services over a loopback HTTP server (ingress.py). The ingress checks a request, stores
-- its event in the ledger (memory/store.py) and hands it to the scheduler (scheduler.py), which keeps
-- a queue and a worker for each service and runs the pipeline for one event after the other. The
-- pipeline asks a model and reads its answer in the format of output_protocol.py. What the bot
-- remembers is in the tables of the store. The prototype (prototype/) adds background jobs to them: a
-- conversation keeps one turn current, a task tool creates and changes jobs, a worker runs them one
-- after the other, and a reply tells their results.
--
-- Files, and what they model:
--   Common          Boolean tests, results, lists, texts as lists of code points, dictionaries as
--                   association lists in insertion order
--   Json            the JSON values of `json.loads`, and `dict.get`, truth and type tests on them
--   Envelope        output_protocol.py: parse_final_envelope, recover_final_envelope,
--                   extract_unambiguous_to_user, format_final_envelope; the regular expressions are
--                   written out as searches for the first closing marker
--   Archive         memory/archive.py: SlidingArchive.find_cutoff and pop_recyclable
--   Ledger          memory/store.py: the tables events and actors
--   Store           memory/store.py: messages and notes, summaries, inner journal, scheduled tasks,
--                   actions, canonical state, media. Table is a table with an AUTOINCREMENT key
--   Jobs            prototype/storage.py: the table prototype_jobs; Settling has how the runtime marks
--                   jobs as delivered
--   Message         message/receiver.py (the event record) and message/classifier.py
--   Ingress         ingress.py: Defs has the checks of a request, Process has _process_request and
--                   _retry_received
--   Scheduler       scheduler.py: Keys has the keys of conversations and the peers, Service has the
--                   service queues and their workers as a step relation, Users has the tasks of the
--                   users with debouncing, cancellation and shutdown, Schedules has the timers of
--                   scheduled tasks, Heartbeats has one heartbeat and one round of them
--   Pipeline        pipeline.py and memory/window.py: Markdown has the tests of visible text,
--                   Compaction the window and its compaction, Sanitizing what the action ledger keeps
--                   of arguments
--   Prototype       Protocol is prototype/protocol.py; the rest is prototype/runtime.py: Chat has one
--                   conversation as a step relation, Tasks the task tool and the publishing of a
--                   reply, Worker the worker of background jobs
--   Tools           tools/self_note.py and tools/priority_override.py, and the stamp of an entry from
--                   memory/timestamps.py
--   Tests           small inputs, and the theorems applied to them
--
-- How state and code correspond. A table is the list of its rows in the order of its integer key, an
-- operation takes the table and returns its result with the table after it, and an exception is an
-- error value. A statement and the commit behind it are one step: sqlite runs them for one
-- connection. Where the code awaits between a read and a write, the model has a parameter for what
-- other tasks do there (`others` in Ingress.Process, Scheduler.Heartbeats and Tools, `read` and
-- `pipeline` in Scheduler.Heartbeats, `run` in Scheduler.Schedules, `save` in Pipeline.Compaction,
-- `Outside` in Prototype.Worker), or separate steps of a step relation (Scheduler.Service,
-- Scheduler.Users, Prototype.Chat).
-- Times are natural numbers of one unit, and `now` and `fresh` are the clock and a new uuid4.
--
-- What is a parameter. `str` of a JSON value, `json.loads`, `urlparse`, pydantic's validation, uuid5
-- and SHA-256 are functions that the definitions take. Whatever holds, holds for every such function.
--
-- Bounds and fuel. All loops are structural recursion, on the text or on the list of rows, but for
-- the search for user blocks, whose fuel is the length of the text (every block takes more than one
-- character), and two loops of the worker: the one over a job recurs on `max_worker_steps`, as the
-- code does, and the wait before its report looks `waits` times for the conversation to be free and
-- is then `stuck`, which says that it would wait on. Sizes in Archive are exact natural numbers, where
-- the source adds floats.
--
-- Not modelled: sockets, HTTP clients, the model's API, images, the terminal interface, configuration
-- and logging, which are input and output; SQLite's full-text search; the Rust rewrite. Of the store,
-- episodes and the list of recent conversations are not modelled; of the scheduler, the restoring of
-- windows at startup and the status; of the pipeline, the loop of model calls and the building of its
-- context; of the prototype, its start, the context it shows to the model, and the command line; nor
-- are the projection of the context and the other tools of the pipeline.
pub mod Common
pub mod Envelope
pub mod Archive
pub mod Json
pub mod Ledger
pub mod Message
pub mod Store
pub mod Tools
pub mod Jobs
pub mod Scheduler
pub mod Ingress
pub mod Pipeline
pub mod Prototype
mod Tests
