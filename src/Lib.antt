-- ===== src/Lib.antt =====
-- pi-go-coding-agent: a coding agent. A runtime sends the history of a session to the model of a
-- provider, runs the tool calls of its answers, and appends every message to the session, which is a
-- tree of entries in a file of JSON lines. Queues take messages of the user while the agent runs,
-- extensions may change what happens at several points, and a compaction replaces the older part of
-- a history by a summary.
--
-- The files, with the code that each models:
--   Base         Booleans, lists over native numbers, texts with Go's strings package, maps, int64.
--   Types        internal/types/types.go: content blocks, messages, tool calls and results; the values of
--                encoding/json.
--   Session      internal/session/manager.go. Data has the types; World the files, the clock and the
--                random source as numbered outside calls that may fail; Ids shortID and nextIDSeen;
--                Append appendEntry, the Append methods, SetLeaf and SessionName; Branch and Context
--                the methods Branch and BuildContext; Open the methods CreateNew, Open, flushAll and
--                rebuildIndexAndMigrate. The other modules are about these: Invariant, Grow,
--                Lineage, History and Operations the tree of entries; Compaction the context; Reopen
--                and Saved the file; Fresh the identifiers; Total the loop of Branch; Placed and
--                Rebuilt the index. Listing has ListSessions and OpenLatest, and
--                Listed is about it; two sessions of the same time are listed in the order of their
--                names, which sort.Slice does not promise.
--   Providers    internal/providers/transform.go: Transform has transformMessages with its two passes.
--                internal/providers/openai.go and factory.go: OpenAi has the client, with Ids for the
--                identifiers of calls, Compat for what a service supports, Endpoints for the
--                addresses, Chat and Input for the two forms of a history, Completion for a reply,
--                Stream for the events of Codex, Messages for what both forms read, and Requests and
--                Complete for Complete. Links and Events are about these. The service and the parsers
--                of its replies are the record Outer; a header's name is compared as it is written,
--                and the transformation draws one random text for an identifier. Http is what a
--                client reads of a reply. internal/providers/anthropic.go, google.go
--                and bedrock.go: Anthropic, Google and Bedrock have those clients; of Google, Clients
--                has the services that answer at once and CloudCode the one that streams. Pairs is
--                about the history of Anthropic.
--   Agent        internal/agent/runtime.go and output.go. Queues has the steering and follow-up
--                queues; Compact the choice of the first kept entry, the text that is summarised, the
--                estimate of tokens, and in Run compactContext; Fork forkSession; Run the function
--                runLoop, with Calls for the loop over tool calls and Rounds for the turns. Runtime is
--                the whole runtime around them: Models sets and cycles the model and the thinking
--                level, Active the tools, Setup changes the session, Navigate moves in its tree,
--                Actions is applySidecarActions, Prompt the entries to a run, Stats what a caller
--                reads. Entries, Moved, Cycle, Wanted and Added are about these.
--   Config       internal/config/models.go: Models has the registry with Refresh, RegisterProvider and
--                ResolveModel. internal/config/auth.go: Auth has the credentials, Refresh the refresh
--                of a token and Storage the storage with HasAuth and GetAPIKey; Tokens, Keys and
--                Expiry are about these.
--   Tools        internal/tools: Read has the read tool, Edit the edit tool, Numbers clampInt, strconv.Atoi
--                and %d, Registry the registry of tools.
--   Tests        the theorems at concrete inputs.
--
-- A method that changes the manager is a function from a session (a manager and its world) to a
-- result and the session after it, as a Go method may have changed its object before it returns an
-- error. An error of the operating system is an answer of Outside; a write that fails leaves the
-- file as it was. A line of a file stands for what json.Unmarshal makes of it, with its size, which
-- the scanner's buffer of 64 KiB is compared with.
--
-- runLoop uses a session by an append and by the messages of its context. Agent.Run.Transcript is
-- that interface with its laws, and Agent.Run.Backed fills it from the session manager and
-- compactContext. The provider, the tools, the answers of extensions and the arrivals of other
-- threads are functions of the point of the run, so that they may differ at each. An extension that
-- appends to the session during an event is not modelled; one that queues messages is.
--
-- Loops: Branch runs on fuel, one more than the number of entries, which is enough on every index;
-- runLoop has its own bound of 128 rounds; nextIDSeen its own of 100; the digits of a number run on the
-- number itself. All else is structural.
--
-- The runtime's steps are functions from its state to a result and the state after it. What lies
-- outside, the extensions included, is Environment, whose answers depend on the state; the actions
-- that an extension asks for in its answer to an event are not modelled, those of a command are.
--
-- Go's int is a natural number or ℤ here without wrap-around: the code counts entries, lines and
-- tokens, which do not reach 2^63. The times of credentials are Int64, with wrap-around. The
-- case of letters is that of ASCII. A map is an association list, whose order stands for that of
-- `range` where the code depends on it.
--
-- Not modelled: the process of the extension sidecar, the tools bash, find, grep, ls and write, the
-- directories of internal/config/paths.go, the text of commands, the command line and RPC, and HTML
-- export; and pkg/, an earlier copy of internal/.
pub mod Base
pub mod Types
pub mod Session
pub mod Providers
pub mod Agent
pub mod Config
pub mod Tools
pub mod Tests
