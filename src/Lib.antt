-- ===== src/Lib.antt =====
-- Verification of the core of walite, a terminal messaging client in Go.
--
-- The program receives messages from a source, normalizes them into bounded immutable values
-- (internal/model), passes them through bounded queues that charge a byte budget
-- (internal/service), decides with a retention policy (internal/syncpolicy), made of the
-- configuration (internal/config), which bodies to keep, and stores them (internal/store). This
-- library models the values, the configuration, the policy, the store in memory, the budget, the
-- queue, the mailbox, and the writer's batch, which joins the policy and the store.
--
-- Files and the code that they model:
--   Base                 library names, lists, results, byte strings and an insertion sort
--   Assoc                Go's maps with string keys, as association lists
--   Model/Error          internal/model/normalize.go: ValidationError
--   Model/Time           the comparisons of time.Time that the code uses
--   Model/Utf8           the parts of unicode/utf8 and unicode that the code uses
--   Model/Identifier     internal/model/normalize.go: validateIdentifier, NewChatID and the like
--   Model/Normalize      NormalizeText and, of internal/model/store.go, normalizeBoundedUTF8
--   Model/Media          internal/model/media.go
--   Model/Quote          internal/model/text_quote.go
--   Model/Message        internal/model/model.go; NewMessage, NewEvent and their charges of
--                        normalize.go; WithoutBody of store.go
--   Model/Anchor         internal/model/store.go: Cursor, MessageAnchor, WriteOrigin
--   Model/Chat           internal/model/store.go: Contact and Chat
--   Model/Batch          internal/model/store.go: WriteBatch; internal/model/history.go: HistoryJob
--                        and HistoryChunk
--   Model/Retention      internal/model/retention.go
--   Model/Display        internal/model/display.go
--   Model/LiveEvent      internal/model/live_event.go
--   Model/Update         internal/model/update.go
--   Model/ReadReceipt    internal/model/read_receipt.go
--   Model/Order          the order of time and identifier that pages and pruning share
--   Config               internal/config/values.go
--   SyncPolicy           internal/syncpolicy/policy.go
--   Store/Memory         internal/store/memory.go: the state, EnsureChat, MarkChatLocallyRead;
--                        memory_display.go; the half of chat_list.go on this store
--   Store/Merge, Stage,  memory.go: writeBatch, in three parts: the merge of a message with the one
--     Write              that is there, the staging of a batch, and its commit
--   Store/Page           memory.go: Page
--   Store/Prune          memory.go: RetentionSnapshot and ApplyPrune
--   Store/Usage          memory.go: Usage
--   Store/Steps          the operations as a step relation, and what they reach
--   Service/Failure      the errors of internal/service/budget.go
--   Service/Budget       internal/service/budget.go
--   Service/Queue        internal/service/queue.go
--   Service/Mailbox      internal/service/mailbox.go
--   Service/Writer       internal/service/writer.go: applyBoundedBatch; internal/service/history.go:
--                        countNewerBodies
--   Tests                concrete runs
--
-- A definition has the name of the Go function or type in snake case or camel case; a method is
-- a function of its receiver. A pair of a value and an error is a `Result`, with `ok tt` for a
-- nil error alone. Modules below a component hold its invariants and proofs.
--
-- Strings are lists of bytes. A time is an integer number of nanoseconds without a bound, where
-- the zero time is 0. A count is a natural number where the code only counts up from 0, and an
-- integer where a caller may pass a negative one. `int` is taken to have 64 bits, and
-- checkedByteSum keeps its test against the largest one. The `int64` arithmetic of the budget
-- stays between 0 and the capacity, by the invariant of Service/Budget/Invariant, so that it
-- needs no wrap-around.
--
-- A mutex makes each operation of the budget, the queue, the mailbox and the store one step from
-- state to state, and the queue and the mailbox hold their budget. Two operations that the code
-- does not do under one lock are one step here too: TryPut, which unlocks between its test for a
-- stopped queue, its reservation and its write, and Release of a permit, which sets the flag
-- before it locks the budget. A permit is its place in the list of all permits of the budget, so
-- that its flag is shared by all who name it. A channel of capacity 1 is a Boolean. sort.Slice
-- is an insertion sort; the order that it is given is total on time and identifier.
--
-- A map is an association list whose keys differ, and a `range` over it goes by the order of the
-- list; what the store computes by one does not depend on that order, but for the sum in Usage,
-- where a sum that saturates is the same in each. An operation of the store that may fail
-- half-way gives the store beside its result; the write of a batch gives a new store only where
-- it succeeds. A context is absent, running or ended whenever it is read (an absent one is an
-- error, also where the writer reads it outside the store and the code would panic), and a round
-- of the writer's loops brings what it reads of the contexts and of the clock.
--
-- Fuel: the loops over the bytes of a string are given its length, since a round consumes at
-- least a byte (Model/Utf8/Laws.decode_rune_pos); draining a queue is given one more than its
-- count, since a round takes an entry; a reader of pages, which is not in the code, is given one
-- more than the messages that a chat can have, since each page but the last has a message.
--
-- Not modelled: what waits in a `select` (acquire, Put, Take and the loops of the writers and of
-- the coordinator), reactions and stickers, the SQLite store, configuration files and the user
-- interface, which need models of waiting, of a database, of files and of a terminal; aliasing
-- between copies of Go strings and slices, since the values are immutable.
pub mod Base
pub mod Assoc
pub mod Model
pub mod Config
pub mod SyncPolicy
pub mod Store
pub mod Service
pub mod Tests
