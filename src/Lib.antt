-- ===== src/Lib.antt =====
-- A model of the support agent platform: a service that turns messages of chat channels into
-- support tickets, and lets agents work on them.
--
-- The parts and how they interact. A payload of a channel comes to openclaw_adapter/: the inbound
-- handler checks its source and its signature with the channel's adapter (channel_adapters/), binds
-- it to a session through the session mapper, and has the replay guard refuse a message whose key the
-- session has seen; the gateway answers, and the outbound sender delivers with retries. The ticket API
-- (core/ticket_api.py) checks the lifecycle of a ticket and calls the ticket repository
-- (storage/ticket_repository.py), which keeps the tables of tickets and of their events. Over the
-- ticket API stand the approval runtime (core/hitl/), the handoff manager, the tools
-- (core/tool_router.py, tools/), and the commands of agents (workflows/case_collab_workflow.py).
-- Beside them are the engines that decide without a state: intents, SLA, recommendations, duplicates,
-- and the search of the knowledge base (core/retriever.py, core/retrieval/).
--
--   Shared    the names that all modules use: Boolean tests, lists, text (Text, Words), signed
--             integers (Int), decimals (Number), fractions (Ratio), JSON values (Json), programs with
--             errors and state (Effects, Yields), conversions such as str and int (Str), what
--             holds of every element of a list (Elements), the stable sort (Sort) and the first of what
--             was sorted (Top), dicts whose keys are distinct (Keys), and Python's equality of JSON
--             values (Same, SameLaws)
--   Storage   storage/models.py (Models) and storage/ticket_repository.py: the tables and the clock
--             (World), the columns of an update (Columns), the operations on tickets (Repository)
--             and on events (EventLog); Literals and Rows hold lemmas on them
--   Channels  channel_adapters/: how a payload is read (Payload), signatures (Signatures), and the
--             adapters of wecom, feishu and telegram; Laws says what the rest relies on of an adapter,
--             and Authentic which payloads a check of a signature accepts
--   Openclaw  openclaw_adapter/: session_mapper.py (SessionMapper), replay_guard.py (ReplayGuard),
--             signature_validator.py (SignatureValidator), inbound_handler.py (InboundHandler) and
--             gateway.py with channel_router.py (Gateway); Bindings says what get_or_create leaves,
--             Window is the specification of the replay window (Replays is the list of replays), with
--             the deliveries of many sessions over it; RetryManager and OutboundSender are the retries
--             of a message to a channel
--   Core      core/ticket_api.py: the checks and the update (TicketApi), the other operations
--             (TicketActions), the merge decisions (TicketMerge) and the JSON view of a ticket
--             (TicketJson); Lifecycle is the relation that histories of calls keep to (Programs and
--             KeepsRules are its rules for programs), Outcomes says what each operation leaves, and
--             Typed which writes keep the table readable (Listing and Closable are about calls
--             that come after them);
--             Hitl is core/hitl/ (the approval policy, the pending actions, the contexts and the
--             approval runtime, whose timeouts are in Timeouts; Decided, Verdicts and Final are about
--             its decisions), Sla is core/sla_engine.py, IntentRouter is
--             core/intent_router.py (Best says what it chooses), and Handoff is
--             core/handoff_manager.py; Tools is tools/ and ToolRouter is core/tool_router.py;
--             Duplicates is core/duplicate_merge/detector.py; Retrieval is core/retriever.py,
--             core/retrieval/ and tools/search_kb.py; Recommendations is
--             core/recommended_actions_engine.py
--   Workflows workflows/case_collab_workflow.py: the parser of commands (Commands), the commands
--             (CaseCollab) and the push of a new ticket (CollabPush)
--   Llm       llm/providers/fallback_router.py (FallbackRouter)
--   Tests     concrete worlds and runs
--
-- How the state corresponds. `World` holds the three tables as lists of rows. A row of a ticket is
-- a ticket whose priority, status and stage are texts, as in the table: a read parses them, and
-- raises where they are not literals. Five of its times (StoredTime) are moments, or texts that a
-- caller gave with what fromisoformat reads from them, if it does; a read raises where it does not.
-- An operation is a function from a world to its result and
-- the next world; an error leaves the world as it was when it was raised, since every SQL statement
-- is a transaction of its own. The clock and the random identifiers are sequences that are read in
-- order; uuid5, isoformat and fromisoformat are functions of the world. Times are microseconds.
--
-- Parameters. What the source takes from elsewhere is an argument of the definitions that use it: the
-- digest of a signature, the renderings of a message, the answers of a language model, the ratio of
-- difflib's SequenceMatcher, and Python's float of a text. So are the scores of the vector retriever
-- in a search, and the search in a call of a tool.
--
-- Bounds. Nothing runs on fuel: the loops are structural recursion on lists, and the loop of
-- OutboundSender.send on the attempts that are left, of which the last is the source's. The limits
-- of the lists are the source's. Numbers of results that are asked for are not negative.
--
-- What is not modelled. A column of JSON or of a moment keeps its value, so the text forms that
-- SQLite holds are left out; rows of equal time come in the table's order. A float is a decimal or an exact
-- fraction, without rounding. Case changes read ASCII letters only, which is what Python's do
-- on texts without other cased letters; `strip` removes all of Python's
-- white space. The trace log, the connections, the reading of policy and seed files (their JSON is an
-- argument) and the creation of the schema are left out. So are the workflow engine, which imports
-- modules that the repository does not have, and the intake workflow over it; the vector retriever,
-- whose scores stand on hashes and square roots; the texts of replies and summaries; the HTTP clients
-- of language models; migrations, settings, the operations API server, the scripts and the web
-- console.
pub mod Shared
pub mod Storage
pub mod Openclaw
pub mod Core
pub mod Llm
pub mod Channels
pub mod Workflows
pub mod Tests
