-- ===== src/Lib.antt =====
-- Notch, a coding agent in one Go binary.
--
-- Notch holds a conversation with a model provider, runs the tools that the model calls, and keeps
-- the conversation in a session file. The terminal interface edits the next prompt, the agent
-- trims and compacts what is sent, and the binary upgrades itself from releases.
--
-- The files and the code they model:
--   Prelude          names that all files share, Boolean tests, lists over the native numbers, ℤ
--   Go               what the code uses of Go's standard library: bytes, strings.TrimSpace and
--                    strings.Fields, utf8.ValidString, runes, int64, strconv.Itoa, json.Valid
--   Model            internal/model/types.go: blocks and messages. Normalize is
--                    NormalizeToolCallArguments and CleanMessages, Repair is repairToolCallResults.
--                    ProviderError is internal/model/provider_error.go
--   Context          internal/agent/context.go: Trim is compactToolResultText and the trimming loop of
--                    contextMessages, Estimate the token estimates, Interrupted the error results for
--                    unanswered calls, Split the boundary of a compaction, Window
--                    compactionConversationJSON, Config defaultCompactionConfig
--   Session          internal/session/session.go: Decode is decode, Append the Append methods with
--                    appendLine and rollbackAppend, Load is Load with readRecoverableSession and
--                    finalRecordStart, Light the lightweight mode of decode, Preview sessionPreview,
--                    Listing is List, Resolve and latest; Crash, Attempt, Durable, Run and Custom are
--                    proofs on these
--   Agent            internal/agent/context.go: apply_compaction, switch_provider, resume_session and
--                    the others are the operations on the conversation and its session, Append
--                    appendMessage and appendUsage of agent.go, Compact compactLocked, Steps any sequence
--                    of them
--   Agent/Queue      internal/agent/agent.go: the messages that arrive while a prompt runs, from
--                    enqueueMessage to settleOrTakeQueuedOr; Runs is every history of them, Drain and
--                    Waiting how they are served
--   Agent/Retry      internal/agent/agent.go: streamWithRetryMode and retryDelay
--   Agent/Tools      internal/agent/agent.go: executeTool; Parallel is executeTools as a step relation on
--                    its goroutines, with emitMu and the WaitGroup
--   Agent/Prompt     internal/agent/agent.go: promptWithStart; Steps the parts of a turn, Loop the turn,
--                    the loop, and what goes before it
--   Tasklist         internal/officialext/tasklist/tasklist.go: Slug is uniqueID, Tasks is normalize and
--                    decode, Panel is panelLines, render and execute
--   Semver           internal/upgrade/semver.go: Parse is parseSemVersion, Print and Identifiers the
--                    text that it accepts, Order compareSemVersion, Overflow the numeric identifiers that
--                    strconv.ParseUint refuses
--   Editor           internal/tui/editor.go: State is the editor's fields, Edits, Moves and History its
--                    operations, Step any sequence of them
--
-- How the parts meet: Context and Session work on the messages of Model; Session cleans them by
-- CleanMessages, and repairs them by RepairToolCallResults when it loads. Agent appends to its
-- session what Context makes of a compaction. A turn of Agent/Prompt asks Agent/Compact, saves the
-- answer and the results of Agent/Tools through Agent/Append, and takes messages from Agent/Queue;
-- the answer itself is what Agent/Retry returns. The rest share no state.
--
-- Correspondence. A Go slice is a list; where nil and empty differ for the code, the model says
-- so. Strings that the code looks into are lists of bytes or runes, others are whole texts. A loop
-- from the last element to the first is a recursion that handles the rest of the list first. An
-- index of -1 is `none`. A method that changes its receiver returns the new state, with the Go
-- result beside it. Sums of lengths are unbounded: an int of 64 bits holds every length of a text
-- in memory.
--
-- Files. A session's file is the list of its bytes. What the operating system answers to an append
-- is a value: the bytes that each Write takes, and whether each call fails. A crash is a Write
-- that took some bytes, with a rollback that failed.
--
-- A prompt. What the hooks, the provider, the tools and the operating system answer in one turn,
-- and the messages that arrive meanwhile, are a record; the loop runs over a list of such turns,
-- and its end is an outcome of its own. Locks make each operation of the queue one step; its
-- updates are sent behind the unlock, and their order is not modelled. The switches of the
-- provider that arrive in a turn, before its results, wait for them. The goroutines of a turn's
-- calls interleave by steps.
--
-- Bounds. The loop of streamWithRetryMode has one more than MaxAttempts as fuel. The search of
-- finalRecordStart has the size of the file as fuel, and each round brings the end of the block
-- down by at least 1. The loop of uniqueID has one more than the number of used IDs, since each
-- round meets another of them. The other loops are recursions on a list or on the number that the
-- loop counts down. Versions keep the bound of strconv.ParseUint, 2^64 - 1, and its value out of
-- range. json.Valid is read with its limit of 10000 nested values.
--
-- A time.Duration is an int64, and its sums wrap around. The sequence of the queue is a uint64.
--
-- Parameters. What encoding/json makes of a line for a record is a `Codec` of the session; where a
-- property needs that a record reads back as it is, it says so. (json.Marshal drops the spaces of
-- raw arguments and replaces invalid UTF-8, so that a message with these reads back changed.) What
-- it writes for a message, and for the excerpt of a call's arguments, is a `Marshal` of the
-- compaction's request. The cleaning of a path and the files that exist are a `Paths` of
-- Session/Listing. unicode.IsLetter, unicode.IsNumber and runewidth.RuneWidth are a `RuneTable` of
-- the editor, and strings.ToLower is a parameter of the task list and of provider errors; every
-- property holds for each. The random number of a delay, the reading of an HTTP date, and the sum
-- and the order of costs are parameters too. A text that no function looks into counts by its
-- length in UTF-8.
--
-- Not modelled: applyDelegationModelDefault, which rewrites the JSON of arguments (its result is a
-- parameter); the totals of tokens and the texts of most events; the idle timeout; network and
-- file access, the processes of tools and extensions, the drawing of the terminal, and the
-- provider's protocols.
mod Prelude
mod Go
pub mod Model
pub mod Context
pub mod Session
pub mod Agent
pub mod Tasklist
pub mod Semver
pub mod Editor
