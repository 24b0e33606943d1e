-- ===== src/Lib.antt =====
-- codex-link-clawbot: the core that turns a chat message into one execution of Codex, keeps its
-- result and delivers it.
--
-- The program takes messages from WeChat, starts an execution for each of them, keeps the request,
-- its input and its result in SQLite, and sends the result back. The request store
-- (internal/core/request) is the one record of what has run; the execution coordinator
-- (internal/core/execution) decides who may run now and asks the store; the runtime controller
-- (internal/core/runtimecontrol) reports whether the instance is ready or drained; the remote lock
-- (internal/core/access) and the preferences (internal/core/preference) are small stores of their
-- own. The targets (internal/core/target) say which conversation a message goes to, the runner
-- (internal/core/execution/runner.go) takes an admitted request through Codex to its delivery,
-- reporting its progress, and the pending notices (internal/core/delivery) wait for an owner who
-- cannot be reached.
--
-- Prelude: numbers, Boolean tests, measured lists, and Fallible for `(T, error)`. Text: a Go
-- string as a list of code points (0x110000 + b stands for a byte b of an invalid encoding), with
-- TrimSpace, lengths in bytes and runes, and the patterns of model.go. Map: a Go map as an
-- association list; the order of a range is the order of the list.
--
-- Request.Types, Request.Valid, Request.Index: internal/core/request/model.go (the records,
-- validateStartInput, validateIndex, validateTask, validateRequest, SessionKey) and the lookups of
-- store.go. Request.Storage: sqlite.go (snapshotIndex, saveLocked, its delta and cascades); a
-- Store is the index in memory, the committed baseline and the rows. Request.Lifecycle:
-- lifecycle.go (transitionLocked, updateTaskLocked, the updates, Finish). Request.Retention: the
-- budgets and the sweep (cleanupExpiredPayloadsLocked). Request.Admission: Start and Reject.
-- Request.Delivery, Request.Receipts: completion.go, result.go and recovery.go (CompleteExecution,
-- FreezeResult, BeginDelivery, recordDelivery, BeginRedelivery). Request.Release: Release,
-- Capacity, Status. Request.Recovery: recoverLocked and the start of the store. The modules below
-- each of these prove what they are named for.
--
-- Target: internal/core/target/store.go, with its revisions and its rows. Notice:
-- internal/core/delivery/pending_notice.go. Progress: internal/core/execution/progress.go and the
-- events of internal/core/codex/types.go. Runner: internal/core/execution/runner.go on the request
-- store and the targets; each of its calls has a world of its own, and what it hands to the
-- channel is a list. Workspace: internal/core/workspace/manager.go. Thread:
-- internal/core/thread/manager.go and global_catalog.go. Conversation:
-- internal/core/conversation/service.go, with the targets that others leave while Codex answers as
-- an argument. Prompt and Activity: internal/core/execution/prompt.go and activity.go.
-- Presentation.Lines, Presentation.Activity and Presentation.Numbers:
-- internal/core/presentation/text.go and the decimal numbers in its lines.
--
-- Access: internal/core/access/remote_lock.go. Preference: internal/core/preference/store.go.
-- Presentation: internal/core/presentation/mode.go and style.go. Runtime:
-- internal/core/runtimecontrol/controller.go, with its probes known by number. Execution:
-- internal/core/execution/coordinator.go, with its admissions known by number; the steps of a
-- goroutine are operations of their own.
--
-- Each call runs under its store's lock, so that a call is one step. A World holds what a call
-- takes from outside: the clock, read once, SQLite's answer to each transaction, whether files can
-- be removed or are what they were, and the JSON, UUID and URL parsers. A new id and the staged
-- payload are arguments of Start, and the frozen files of FreezeResult. Unix times and sizes are
-- natural numbers; their sums are far below 2^63, so that no operation wraps, and the tests for
-- negative ones have no case. The rows of a result in results, artifacts, result_urls and
-- delivery_receipts are one record. Every loop runs over a list; only the digits of a number are
-- read on fuel, one more than the number, which is enough since each round divides it by ten, and
-- the scan of the thread catalogue has the 100 rounds of its source.
--
-- Not modelled: files and hashes (payload.go), queries for display (catalogue.go, summary.go), the
-- import of old data, Retry, AttachInput and the loading of rows; the timers of the progress, and
-- what other goroutines do to the stores between two calls of the runner; the cache of the thread
-- catalogue, and the archiving and interrupting of conversations; the adapters (WeChat, app
-- server, management), the configuration and the command line, which are input and output around
-- this core.
pub mod Prelude
pub mod Text
pub mod Map
pub mod Presentation
pub mod Request
pub mod Access
pub mod Preference
pub mod Runtime
pub mod Execution
pub mod Target
pub mod Notice
pub mod Progress
pub mod Runner
pub mod Workspace
pub mod Thread
pub mod Prompt
pub mod Activity
pub mod Conversation
pub mod Examples
