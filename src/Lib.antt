-- ===== src/Lib.antt =====
-- The hosted replay harness starts a pinned database through the Supabase CLI behind a boundary on
-- the Docker socket, observes the containers and the network that come up, and writes down sanitized
-- receipts. This library models the decisions that the harness makes, in scripts/*.py.
--
-- Prelude: the shared names, Boolean tests, lists and byte strings. A Python `bytes` or `str` is a
-- list of numbers below 256 or of code points; `codes` gives the list of a literal.
--
-- Value: the values of `json`, with Python's equality and truth.
--
-- DockerApi: scripts/docker_api_boundary.py.
--   Path: method_class, normalize_path, classify_path.
--   Json: _closed_json, _empty, _json_type, _exact_keys, _split_env.
--   Headers: the header lookups and the media type.
--   Outcome: the exceptions of the policy, and which of them mark it as failed.
--   Library: what the code takes from json, hashlib and urllib, as a record of functions,
--     which stands for any such library.
--   Policy: DBStartPolicy. State holds its fields, Descriptor its construction, Target _target, Body
--     the checks of a container body, Authorize and Accept the two methods, and Run the exchanges
--     that PolicyBoundaryServer.handle drives, one after the other, as its lock has it. An exchange
--     is a request that was read and an answer whose head and body were read; a lost connection, a
--     malformed head or body and a second request at the same time are not among them. Halting is
--     what is left of a run behind a rejected exchange.
--   Receipt: Receipt with its counters and its classification; Sanitized holds sanitized and
--     validate_result.
--   Framing: HTTPFramingParser, RequestParser, ResponseParser and BoundaryServer.relay. A stream is
--     the list of its reads. `feed` runs on fuel of one more than the bytes in the buffer; this is
--     enough, since a turn of the loop that goes on shortens the buffer; Ending compares it with the
--     loop without fuel. `int` of a text takes 4300 digits at most, and of a longer one it raises
--     ValueError.
--
-- ContainerWatch: scripts/container_watch.py. Violations holds the codes and their order, Contracts
-- classify_and_validate and validate_network_contract on the inspected JSON; Verdicts, Roles,
-- Sockets and Confined say what an empty list of violations means.
--
-- DockerEvents: scripts/classify_docker_events.py. analyze, with the JSON lines and texts of Python as
-- a record of functions; Tallies holds what its counts say, Correlation which containers the events
-- and the observer's audit agree on.
--
-- DirectPort: scripts/direct_port_probe.py. Publication is classify_unpublished_publication_shape and
--   its summaries, Inspection validate_inspection, Groups validate_group_payload and
--   compose_group_payloads, Safe safe_inspect with its diagnostic, over Docker's answers and json as a
--   record of functions, and Safe/StateLines inspection_state_lines. Watch is the loop of main: a
--   turn has the clock readings and the answers of Docker as data, in natural units of the clock,
--   and the stable time is not negative.
--
-- Firewall: scripts/firewall_boundary.py. Rules holds parse_ruleset, _canonicalize and the two
--   snapshots, over json and hashlib as a record of functions; Owned validate_owned with Checked, the
--   results of a check that may raise BoundaryError or TypeError; Ledger the fields that read_ledger
--   accepts and _validated_current_owned; Restoration wait_for_restoration_preimage on the rule sets
--   that its reads give, for its twenty attempts; Completion the evidence of a completed restoration.
--
-- StartLog: scripts/classify_db_start_log.py. normalize, classify_normalized and classify, over the
--   codecs, str and re as a record of functions; the SGR pattern, which steers the loop of normalize,
--   is written out.
--
-- TextOrder: the order of texts and sorted on texts; Groups is a dict of lists and its sorted items.
--
-- SortedSet: Python's sorted(set(codes)), written out for the codes of ContainerWatch and of
-- DirectPort.
--
-- Options: the chain of steps that may raise, for ContainerWatch, DockerEvents and DirectPort.
--
-- Tests: runs of the theorems on sample data.
--
-- Not modelled: sockets, tasks and timeouts of asyncio, subprocesses, files and signals; an OSError
-- while a write is drained; the exceptions of json.loads other than JSONDecodeError in
-- docker_api_boundary.py, which an integer of more than 4300 digits or too deep a nesting raises; the
-- shell script scripts/run-containment-smoke.sh; and the scripts that no module here names.
pub mod Prelude
pub mod Options
pub mod SortedSet
pub mod StartLog
pub mod TextOrder
pub mod Value
pub mod DockerApi
pub mod ContainerWatch
pub mod DockerEvents
pub mod DirectPort
pub mod Firewall
pub mod Tests
