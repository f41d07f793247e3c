-- ===== src/Lib.antt =====
-- Asphallea decides whether a tool call of an agent may go ahead, records the decision, and runs
-- commands under the containment of the operating system.
--
-- The parts, and the files that model them (paths from the repository's root):
--
-- - asphallea/policy.py: Policy.antt has the data, Policy/Hosts `network_host` and `host_matches`,
--   Policy/Queries `tool_allowed`, `args_for` and `network_allowed`, Policy/CoreJson `to_core_json`,
--   Policy/Builder `PolicyBuilder`, its methods as a data type and a chain of calls as a list,
--   Policy/Documents `from_dict` and `from_yaml`, with the sections in Policy/Documents/Sections;
--   Policy/Documents/Sound and Policy/Documents/Strict are about the documents that load, with what
--   it is to have known keys in Policy/Documents/Known; Policy/Documents/Schema says what a document
--   holds, and Policy/Documents/Chain and Policy/Documents/Meaning relate it to calls of a builder.
--   Policy/Builder/Sound and Policy/Builder/Paths are about what `build` returns, Policy/Builder/Boundary
--   about the paths that lie within its prefixes, Policy/Hosts/Matches about host rules.
-- - asphallea/engine.py: Decision.antt has `Decision`, Engine.antt the `Engine`, its seven rules and
--   `check`. The rules are Engine's `check_tool`, `check_reads`, `check_writes`, `check_network`,
--   `check_calls`, `check_rate` and `check_spend`, composed in the order of the source; `commit` is what
--   an allowed call adds; Engine/Messages has the reasons of denials. Engine/Rules is about decisions,
--   Engine/Counters about one check's effect, Engine/Run and Engine/RateWindow about sequences of checks
--   by any callers, Engine/Threads about threads that share an engine: Engine/Threads/Rate about the rate
--   limit in every interleaving, Engine/Threads/Recovers about the end of a denial by it. Engine/Boundary says what `os.path` is assumed to keep, and what
--   a prefix covers in components of paths. Engine/Spec states what the engine promises over the history
--   of allowed calls, without counters, and Engine/Spec/Refine relates the two.
-- - asphallea/intercept.py: Intercept.antt maps named arguments to resources, asks the engine and writes
--   to the sink; Intercept/Record and Intercept/Governed prove what a caller can rely on,
--   and Intercept/Placed where the paths of an allowed call really lie.
-- - asphallea/audit.py: Audit.antt has the record and the interface of a sink, Audit/Json the JSON form,
--   Audit/Patterns the regular expressions as lists of pieces, Audit/Redact the redactors, Audit/Log the
--   sinks.
-- - asphallea/integrity.py: Integrity.antt, with Integrity/Digest on the loop over chunks and
--   Integrity/Trust on what is trusted.
-- - asphallea/sandbox.py: Sandbox/Capabilities, Sandbox/Probe for the detection, Sandbox/World for the
--   state that `run` reads and changes, Sandbox/Processes for `_exec` and `_kill_tree`, Sandbox/Contained
--   for `_run_contained` and `_audit`, Sandbox/Run for `run`; Sandbox/Keeps has predicates on what is done
--   and the actions that keep them, Sandbox/FailClosed is about what is started, Sandbox/Folder and
--   Sandbox/Folder/Ordered about the temporary folder with the policy file,
--   Sandbox/Denied about a denial, Sandbox/Results about what a result says.
-- - asphallea/guard.py: Guard.antt, with the decorated function as a parameter; Guard/Reach is about the
--   calls that run it.
-- - asphallea/integrations/mcp.py: Mcp.antt; Mcp/Reach is about the calls that reach the server.
-- - asphallea/integrations/langchain.py: LangChain.antt has the data and the extraction of paths,
--   LangChain/Calls the entry points of `GuardedTool`; LangChain/Outcome is about one call,
--   LangChain/Agrees about the interceptor, LangChain/Session about tools that share an engine.
-- - hatch_build.py: Packaging.antt, with the texts in Packaging/Texts; scripts/bundle_core.py:
--   Packaging/Bundle; scripts/verify_wheel.py: Packaging/Wheel the checks of one wheel, Packaging/Release
--   the run over all of them. Packaging/Released is about the wheels that pass, Packaging/Tags about the
--   tag that the build hook computes.
-- - examples/demo.py: Examples/Demo, with Examples/Demo/BuildArena; Examples/Demo/Refusals is about
--   denied calls, Examples/Demo/Blocked about the guarded run, Examples/Demo/Confined about any calls
--   through the guarded session.
-- - asphallea/errors.py: Errors.antt, with results that may raise.
--
-- Value.antt has the values of Python that arguments and records hold, Prelude the integers, lists and
-- dicts. Runtime.antt is a record of what the interpreter, the operating system and `urllib` answer
-- (`realpath`, `commonpath`, `urlsplit`, `repr`, parsing of numbers), an argument of what uses it; the
-- theorems on the boundary of paths assume what `os.path` documents, and Tests/Posix has paths that keep it.
-- Other parameters: the sink of the audit trail, `json.dumps`, the encoding of the log, `hashlib` (of which one theorem assumes
-- that updates with two pieces are one with both), the files, the host with its core binary, the
-- processes, the MCP server, the disk of the demo, the decorated function, the tool of LangChain, the YAML parser, the archive
-- of a wheel and the environment into which it is installed.
--
-- How state is modelled. An `Engine` is a record of three dicts, and `check` returns a decision, or raises,
-- and the engine that it leaves, in which a denial may have dropped expired events. A dict is a list of
-- entries in the order of insertion, a `frozenset` the list of its elements. The lock of the engine makes
-- each `check` one step, so that a schedule of calls, in the order in which they take the lock, stands for
-- any interleaving of threads. The clock is read before the lock is taken: in Engine/Threads a step relation
-- has that reading, the passage of time and the locked section as steps of their own. Seconds are
-- integers that count units of 10⁻⁹: the rounding of floats, NaN and infinities are not modelled, and a
-- document that holds one of these is no document of the model. `run` of the sandbox is a
-- state monad with exceptions, and what was done before an exception stays done; its trace holds the
-- warnings, the temporary folder and its policy file, the commands that were started, the probe of the core
-- among them, and the signals. A manifest of hashes has an object for each name.
--
-- The only fuel is that of the loop over the chunks of a file: one more than the file has bytes, while
-- each round reads a byte or more.
--
-- Not modelled: the Rust core, which is another program; flushing and creation of folders by the audit
-- log, and a device that refuses what it writes; the environment, folder and input of a command that `run` passes on to the process; attributes
-- that a guarded tool or session passes through; what the scripts print; of the examples, the quickstart,
-- and of the demo its `main` and its step with a shell command; the tests.
pub mod Prelude
pub mod Decision
pub mod Errors
pub mod Value
pub mod Runtime
pub mod Policy
pub mod Engine
pub mod Audit
pub mod Intercept
pub mod Integrity
pub mod Sandbox
pub mod Mcp
pub mod Guard
pub mod LangChain
pub mod Packaging
pub mod Examples
mod Tests
