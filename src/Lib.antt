-- ===== src/Lib.antt =====
-- Models of the core of ChatWCA, a web client and server for coding agents, and what is proved of it.
--
-- The program's parts. A server owns the live conversations, within a limit
-- (`server/conversation-registry.ts`, all paths from src/), and sends every change of one to its
-- WebSocket clients as an event with a revision. A client keeps a projection of each conversation
-- (`web/src/api/state.ts`); by the revisions (`shared/revisions.ts`) it applies an event, ignores it or
-- asks for a snapshot. Each socket has a controller that bounds what a slow client costs
-- (`server/outbound-flow.ts`). Scheduled jobs open conversations of their own: `server/job-schedule.ts`
-- says when, and `server/job-scheduler.ts` claims the runs. Saved conversations are split into chunks
-- for search (`server/search/chunk.ts`). The agents' network traffic goes through proxies that count
-- connections and bytes (`server/network/connections.ts`) and decide by the destination's name
-- (`server/network/policy.ts`) and address (`server/network/addresses.ts`).
--
-- Revisions models src/shared/revisions.ts: isRevision, decideEventRevision, decideSnapshotRevision
-- and nextRevision are is_revision, decide_event_revision, decide_snapshot_revision and
-- next_revision. A JavaScript number is `Number`: a natural number, or anything else.
--
-- Outbound models src/server/outbound-flow.ts. Outbound.Flow has the state of an
-- OutboundFlowController as the record Flow, and a function per method: send, dispose, #pump (pump,
-- pump_loop), #write (write_item), #updatePressure (update_pressure), #closeSlowClient
-- (close_slow_client), #discardDroppableUntil (discard_droppable). `step` is one event, `run` a
-- sequence of them. The socket, its state and the size of an encoded message are a parameter
-- (Platform); the clock is the number that comes with an event. The send callbacks come after the
-- call that made them, so #pumping is never true when #pump starts.
--
-- Network.Addresses models src/server/network/addresses.ts: Parse (parseIpv4, parseHextetSequence,
-- parseIpv6), Format (formatIpv4, formatIpv6, mappedIpv4), Literal (parseIpAddress), Ranges (the
-- tables) and Classify (matchesPrefix, categoryInRanges, classifyParsedAddress, classifyIpAddress).
-- Texts are lists of UTF-16 code units. The loop of formatIpv6 over eight words runs on fuel 8; each
-- turn moves the index by at least one, so that 8 turns reach the end.
--
-- Network.Policy models src/server/network/policy.ts over the addresses: Hosts
-- (normalizeDestinationHost, validateAsciiDomain, isAmbiguousNumericHost), Patterns
-- (normalizeDestinationPattern, compilePattern) and Decision (compileDestinationPolicy, matches,
-- decideDestination). domainToASCII and domainToUnicode of node:url are a parameter (Idna).
--
-- Network.Connections models ConnectionAdmission (create, acquire, release, stop) and StreamBudget
-- (open_budget, account, touch, dispose_budget) of src/server/network/connections.ts; `admit` and
-- `spend` are sequences of their operations. ConnectionSet and relayBidirectional are left out.
--
-- Jobs.Schedule models src/server/job-schedule.ts: normalizeJobScheduleInput (normalize_input),
-- establishJobSchedule (establish), intervalOccurrenceAfter (occurrence_after),
-- dailyOccurrenceAfter, firstJobOccurrenceAfter and advanceJobOccurrence. Temporal is a parameter
-- (Calendar). Division of safe integers followed by Math.floor is exact, and a product that is no
-- safe integer is none in floating point either, so that ℕ with the tests written out is the same.
--
-- Protocol has the data of src/shared/protocol.ts and src/shared/jobs.ts that a client is sent:
-- Messages, Conversations, Events and JobRuns. What the programs only carry is the text of its JSON.
--
-- Client models src/web/src/api/state.ts. State has ChatClientState and ChatClientAction; Reducer has
-- reduceChatClientState, whose cases stand in Conversations (snapshots and events, by the revisions),
-- JobRuns and Workspaces. Projection has applyConversationEvent and collectNetworkBlocked, Messages
-- what an event does to messages (replaceMessage, updateAssistant, updateToolCallStatus). An object
-- used as a map is the list of its entries (Prelude.ObjectMap). `reduce_all` is a sequence of actions.
-- Every reduces a property of all projections to the actions that make one, and Replays says how one
-- is made of the actions received; Convergence, Wellformed, Progress, Snapshots, Scoped, Transcript,
-- Streaming and Runs are the theorems.
--
-- Jobs.Scheduler models src/server/job-scheduler.ts: the state of a JobScheduler, start (its part
-- before the promise; run_start is the promise's callback), stop, beginShutdown, #wake, #claimDue,
-- #arm, refreshSchedule, runNow and runNowAccepted (run_now). An event comes with what the clock
-- reads; `none` is an error that the repository throws.
--
-- Search models src/server/search/chunk.ts, and isWellFormedText and normalizeEntryText of extract.ts
-- beside it: CodePoints has UTF-16 and UTF-8, Boundaries the patterns of preferredEnd as matchers,
-- Chunks the functions maximumEnd, preferredEnd, overlapStart and chunkMessages (chunk_messages). The
-- inner loop runs on fuel, one more than the text's units; every turn moves the start by at least one,
-- so that the fuel is enough. SHA-256 is a parameter.
--
-- Registry models the ownership of live conversations in src/server/conversation-registry.ts: Records
-- has ConversationRecord and #leastRecentlyUsedIdle, Capacity #reserveCapacity (reserve_turn is one
-- turn of its loop, release_capacity the closure it returns), #register from its last check for
-- duplicates, #replaceIdentity and the end of #disposeRecord (finish_close). Steps is the relation of
-- what happens between two awaits, in any order. Both maps of records are one list, in the order of
-- #byId; the identity of a record object is a number; localeCompare is a parameter.
--
-- Not modelled: what else the registry does (prompts, forks, leases, events), the other parts of
-- jobs, workspaces, the rest of search, the sandbox, the proxies and what only calls the operating
-- system, a database or a service.
pub mod Prelude
pub mod Revisions
pub mod Network
pub mod Outbound
pub mod Jobs
pub mod Protocol
pub mod Client
pub mod Search
pub mod Registry
