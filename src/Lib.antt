-- ===== src/Lib.antt =====
-- Greenline, a WhatsApp client: the Python side of the program, in src/, between the Go daemon
-- that speaks the protocol and the QML pages that show the chats.
--
-- The program keeps everything in one SQLite table of keys and JSON values. The parts and the
-- files that model them:
--
-- * Kv (src/ut_components/kv.py): the table, `Kv`, with an entry's time of expiry. A method is a
--   function that returns the new state; the clock is an argument, and the JSON encoding is a
--   record of parameters, `Json`, with the round trip as the hypothesis `IsLawful`; the number of
--   variables that SQLite allows in a statement is an argument of `commit_cached`. Kv/Like is
--   SQLite's LIKE, Kv/Paging the loop that callers write around `get_partial_page`; its fuel is
--   one page more than there are rows, since each page but the last takes a row at least.
-- * Contracts (src/greenline/contracts/kv.py): the typed store; each family of keys has a record
--   type. Errors are values of `Result`. Contracts/Families is about which contract a key has.
--   Contracts/Refinement relates it to a plain table of records, `Store`, over which the parts
--   below are written.
-- * Models, Dyn, Events, Keys, State (src/models.py, src/greenline/store/records.py,
--   src/whatsmeow_types.py): the records, JSON values, the fields of events, the keys, and the
--   state: the store and the variables of the module of identities.
-- * Identity (src/greenline/store/identity.py): identifiers, names, the cache of chats, the
--   choice of photos to fetch. The daemon's `ensure_jid` is a parameter.
-- * Unread (src/unread_counter.py), Repository (src/greenline/store/repository.py), Receipts
--   (src/receipt_store.py), Messages (src/greenline/store/messages.py): the unread total, the
--   index of messages, receipts, and the chat that a message updates. Unread/Sums defines the
--   invariant of the store, `IsSound`: one row for each key, and the stored total is the sum of
--   the chats' unread counts. Unread/Quiet says which writes cannot disturb it.
-- * Reactions (src/greenline/store/reactions.py): the reactions of a message and its flag.
-- * Outbox (src/pending_outbox.py): messages that wait to be sent. Outbox/Outside holds what is
--   asked of files, the clock and the daemon, and the interface of the modules that render texts
--   and read links. Outbox/Transport builds the requests; Outbox/Backoff is about delays,
--   Outbox/Settled, Outbox/Replaced and Outbox/Settles about what the writes leave in the store,
--   Outbox/Once and Outbox/Retries about attempts and passes; Outbox/Interrupted models an attempt
--   that an exception leaves, and its `finally`. One attempt is one step: the lock is held only
--   for the set of messages in flight, which is part of the state.
-- * Memoize (src/ut_components/memoize.py): results of a function that are kept in the store;
--   what is hashed and how is a parameter.
-- * Dispatcher (src/ut_components/event.py): the queue of events and the loop that triggers
--   them. `heapq` is a list in the order of its entries; the clock is a function of the number of
--   the reading; a trigger is a function from its metadata to the calls of `schedule` it makes and
--   its result. Fuel is the number of rounds.
-- * Mentions (src/greenline/store/mentions.py): mentions as spans in units of UTF-16, the spans
--   that are kept, and the text that is sent, of which Outbox makes its requests.
-- * Migrations (src/greenline/storage_migrations.py): the versions of the schema. Fuel is the
--   number of pages of 50 rows; one more than there are rows is enough, since each page but the
--   last has rows.
-- * ChatSync (src/greenline/events/chat_sync.py, src/greenline/events/handlers.py,
--   daemon/eventstore/eventstore.go): the events of the daemon on their way to the handlers. The
--   handlers are the interface `Handlers`; each can fail, and so can each call of the daemon. Fuel
--   is the number of replies. ChatSync/Reached puts inserts of the daemon and runs of the sync in
--   any order.
-- * ContactSync (src/greenline/events/chat_sync.py, src/greenline/events/handlers.py): the
--   refresh of contacts and groups, which changes the chats that it read at its beginning, and the
--   handlers of new names, from the fields of their events on.
-- * Chats (src/greenline/api/chats.py): the drafts of chats, with their mentions, and the flags
--   of a chat.
-- * Examples holds small concrete inputs.
--
-- Texts are lists of code points and numbers are natural numbers: times and counts are never
-- negative in the modelled code, except the amounts of the unread counter, which are integers.
-- Each operation is one step: what two operations do to the store at the same time is not
-- modelled. Exceptions of the modelled calls are values, others are not modelled.
--
-- Not modelled: the daemon but for its store of events, the plugins and the pages (other
-- languages), HTTP, D-Bus and notification calls, the payload declarations for QML, and copies
-- of CPython modules. Nor are the translation of daemon events to messages, the handlers other
-- than those of receipts and names, history, rendered texts, and threads: the modelled
-- operations start from the event, the message, the receipt or the record that these give.
pub mod Base
pub mod Dyn
pub mod Models
pub mod Kv
pub mod Contracts
pub mod Keys
pub mod State
pub mod Identity
pub mod Unread
pub mod Repository
pub mod Events
pub mod Receipts
pub mod Messages
pub mod Outbox
pub mod Reactions
pub mod Memoize
pub mod Dispatcher
pub mod Mentions
pub mod Migrations
pub mod ChatSync
pub mod ContactSync
pub mod Chats
pub mod Examples
