-- ===== src/Lib.antt =====
-- The Python SDK in python/src/artzain: parts of it that keep state or decide, as total functions.
--
-- The program screens what AI agents do. Guards rate texts and tool calls; a kill switch stops runs
-- that were rated critical; an audit chain records decisions so that a later edit shows; and a
-- sidecar beside an OpenShell gateway keeps what it owes the engine in a journal. The parts meet
-- through values: a screening result trips the switch, a decision becomes a record of the chain, and
-- a report or a write that was allowed without the engine becomes an entry of the journal.
--
-- Files:
--   Common: the shared types and lemmas. Tests has the Boolean tests on numbers, Equality the keys of
--     a dict, Maps a Python dict in insertion order, Str a str as its code points with strip and
--     isspace, Int whole numbers below zero too, Optional the do blocks, Ordered and Filling the laws
--     of a dict with a bound, Sorting the stable sort, Fresh a list without repetitions.
--   KillSwitch: python/src/artzain/kill_switch.py. State holds the module's variables as one record,
--     Operations one function for each function of the source (trip, trip_global, is_killed,
--     clear_run, screen_agent_action), History a sequence of calls as its locks order them. A
--     callback is a number, and a call of one is noted with its record; what a callback raises is
--     caught in the source. The guard that screens a payload is an argument.
--   AuditChain: python/src/artzain/audit_chain.py. Append has MerkleAuditChain (append and
--     _load_state, on the lines of the log, the sidecar file and the state in memory), Verify has
--     verify_chain, with what it raises. A write to the log that raises leaves any number of the line's
--     characters in the file; what a write leaves without a newline is the tail of the log. Entry has the interface Codec: json, hashlib and hmac, with
--     what the module relies on; Sample meets it.
--   Journal: python/src/artzain/openshell/journal.py. Operations has Journal (append, settle,
--     settle_through, holds, _save, _load), Reading has _document and _verified, over the interface
--     Json of Entry, which Sample meets. A file is absent, not readable, or the value it parses to.
--   BreakGlass: python/src/artzain/openshell/breakglass.py. State holds the window, its deadline, the
--     journal (that of Journal) and the window file; Operations has open, close, record_write,
--     window, _expire, _end and _load, which append durably to the journal; History a sequence of
--     calls. A turn is what an operation reads from the two clocks and what the disk does then.
--   Decide: python/src/artzain/decide.py. Request has the lineage fields of a decision request
--     (_bounded_text, _dimension_id, _parent_ids) and _replayed; an error that the source raises is
--     a missing value. Body has the lineage of _online_body. Votes has _decide_offline, _guarded_vote
--     and the three votes, of what the detector, the screen and the evaluator say, which are
--     arguments; scores are thousandths.
--   Ledger: OperationLedger of python/src/artzain/openshell/interceptor.py (Operations) and
--     GatewayLedger of python/src/artzain/openshell/state.py: Gateway its operations and _save,
--     Views its readings, Loading _load, Tidy the pruning of hashes, History a sequence of calls and of
--     parts of learn_sandbox and forget_sandbox, which release their lock in between.
--   Guards: Screens has combine_screens of python/src/artzain/destructive_action_guard.py; Policy has
--     combine_policy_reports of python/src/artzain/tool_call_contract.py and should_block of
--     python/src/artzain/policy_enforcement.py.
--   Interceptor: python/src/artzain/openshell/interceptor.py. Values has what is read of a request
--     and _strip_secrets, Methods the tables, Subject and Facts _subject and _decision_request,
--     Deciding _decide and _refused_locally, Stamps the patches, the digest and _confirmed, Evaluate
--     evaluate over the ledger of Ledger and the window of BreakGlass. The engine and the fetch of a
--     policy, and the gateway that applies patches, are arguments; a call of theirs that raises is a missing value. The interface Python of
--     Values is json, str, bool and int, which Sample meets. A request is a dict as Python has it.
--
-- Choices: numbers are natural numbers, and times whole units of a clock that an argument gives,
-- where the source has floats. No function runs on fuel: every loop goes over a list, and
-- _strip_secrets stops at the depth where the source stops. An operation holds its lock throughout, so
-- a history is a list of calls; the two of state.py that release it in between are cut at those places. A file operation that can fail takes a Boolean that says whether it
-- does. The bounds of the source are kept as they are: 200 activations, four times the panic
-- threshold, 64 digits of a hash, 40 characters of a kind, 16777216 bytes of a journal file.
--
-- Not modelled: the HTTP call of decide.py and how its guards read a payload, the mapping of log
-- events in interceptor.py, an engine's answer whose status is no number, the kinds of value in a
-- window file and times below zero in one, log lines, the mirror of events to the cloud, file modes
-- and permissions, the threads themselves, and the modules of the package that classify text by
-- patterns, call the network, start containers or draw windows; and the TypeScript packages.
pub mod Common
pub mod KillSwitch
pub mod AuditChain
pub mod Journal
pub mod BreakGlass
pub mod Decide
pub mod Ledger
pub mod Guards
pub mod Interceptor
