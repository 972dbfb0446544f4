-- ===== src/Lib.antt =====
-- The durable state of omp-telegram, the bridge between Telegram topics and OMP sessions.
--
-- Telegram updates come in through polling, are stored in the inbox, handed over to an OMP session
-- and answered through the outbox, from which a sender takes one message after another. All of it
-- goes through one SQLite database, the package internal/store. Its calls are the transactions that
-- the other packages make, and a crash may fall between any two of them. This library models that
-- package whole, call by call; of the packages around it, it models the sender of internal/bridge and
-- the Markdown of internal/telegram, and all else appears as arbitrary sequences of calls.
--
-- The database is the record `Store.Schema.Db`, with one list of rows for each table, in the order
-- of its primary key. A call is a function of the database. A failing call returns `err`, and
-- `after` keeps the state before it, as the transaction is rolled back. A WHERE clause is a test on
-- a row, and SELECT, UPDATE and DELETE are `first?`, `select`, `update` and `delete` of Common/Rows.
--
-- Which file models what:
--   Common.antt and below: tests on numbers, lists, tables, signed integers and texts, error results
--   Store/Schema: tables and structs of internal/store/store.go, migration.go, final_actions.go,
--     followup.go and topic_names.go
--   Store/Inbox: Accept, AcceptIgnored, Offset, CheckBot, Pending, PendingAfter, PendingIDs, Mark,
--     FinishSubmitted, Submit, CancelPendingFollowupInbox
--   Store/Outbox: Enqueue, EnqueueAttachment, NextOutput, HasPendingOutputs, ClaimNextOutput,
--     RetryOutput, RetryServerOutput, MarkOutput, MarkOutputDelivered
--   Store/Edits: SetAssistantHeader, NextAssistantHeader, MarkAssistantHeaderDelivered,
--     ClaimFinalActionEdit, ReleaseAssistantEdit, FinishFinalActionEdit
--   Store/FinalActions: registerFinalActions, ReserveFinalAction, ConsumeFinalAction and the rest of
--     internal/store/final_actions.go
--   Store/Replies: appendInboxReplies, completeInboxWithReplies and their entry points
--   Store/PreviewChats: backfillProgressChats
--   Store/Progress: previews of answers, SetProgressMessage to ClearProgressMessage
--   Store/Migrations: internal/store/migration.go
--   Store/Bindings: Binding, Save, TouchBinding, SetRunning, SetInterrupted, DeleteClosedBinding,
--     BindingsForChat, RunningBindings, favorites, deleteSessionReferences
--   Store/SessionId: sessionIDFromPath, validSessionID
--   Store/Starts: PrepareStart, CommitStart, CancelStart, ExpireStart, PendingStarts
--   Store/Settings: the preset of OMP arguments, internal/store/language.go, Parse of
--     internal/i18n/i18n.go
--   Store/Topics: internal/store/topic_names.go
--   Store/Followups: internal/store/followup.go
--   Store/Cleanup: CleanupMessages and its batches
--   Store/HeaderSync: what the store and the sender do to a delivered message, from Edits and from
--     deliverFinalActions and deliverAssistantHeader of internal/bridge
--   Store/Recovery: the recovery at the end of initialize, Uncertain, DeliveryDiagnostics
--   Telegram/Html, Syntax, Blocks, Tables, Convert: ConvertMarkdown of internal/telegram/markdown.go and
--     what it calls; a regular expression is a recogniser of one line
--   Telegram/Literal, Split, Clip: SplitForTelegram, ClipConvertible and what they call there
--   Telegram/Failures: ClassifyError and DeliveryUncertain of internal/telegram/client.go
--   Bridge/Delivery: one round of deliver of internal/bridge/bridge.go, over the calls of Store
--   Bridge/Claims: the claims on sessions of internal/bridge/session.go and migration_claims.go
-- The other files are proofs, but for Store/Tests, Telegram/Tests and Bridge/Tests, which run the model.
--
-- Choices. Row ids, times, counters and sizes are natural numbers, where the source has an int64
-- that is never negative; guards of the form `x <= 0` on them are tests for 0. Chats, threads, bots,
-- users, message ids and generations are signed. Sums do not reach 2^63 and are not wrapped. A text
-- is a list of code points; COLLATE NOCASE and strings.ToLower are ASCII lower case, as session ids
-- are hexadecimal. The clock is an argument wherever the source reads it. encoding/json is the
-- parameter `Json`, with the laws that what was marshalled is read back and is never empty. The
-- states, kinds and phases that the source keeps as strings are data types, so a test for an unknown
-- one has no counterpart. Loops over batches run on fuel from the length of the table, one more than
-- the number of batches; the loop over topic titles takes its fuel as an argument and says when it
-- runs out.
--
-- Markdown. A position in a list of lines is the list of the lines from there on. The inline converter,
-- internal/telegram/markdown_inline.go, is the parameter `Convert.Inline`, of which no law is assumed. ConvertMarkdown's loop runs on fuel of one more than the length of the
-- text: each block takes a line and each quote a character, but for the lines that Telegram/OddQuotes is
-- about. The loops of markdownBlocks and packLines take one line or more each time and have fuel for each
-- line; halvings have fuel for the number halved.
--
-- The sender. The Bot API's answers, the texts of the two notices and the clock are the record
-- `Delivery.World`. A round starts with the claim, and its claim and its settlement are one step of the model;
-- the store's calls of `DeliveryOrder.Calls` may come between them; the edits of headers and buttons that come before it are
-- calls of the store of their own. Files, logs and cancelled contexts are left out.
--
-- Claims. A worker is a number; a map from paths or workers is the list of its entries. An operation takes the
-- pending migrations that it reads from the store, and which runtimes are live, as arguments.
--
-- Not modelled: opening the database, schema versions and the backfills at opening, PRAGMAs and indexes that are not
-- unique, failures of the driver, cancelled contexts; previews and inline Markdown; the HTTP calls of the
-- Telegram client; the rest of internal/bridge; internal/omp, internal/config, internal/media,
-- internal/logging and the command line.
mod Common
pub mod Store
pub mod Telegram
pub mod Bridge
