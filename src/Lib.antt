-- ===== src/Lib.antt =====
-- Toolsite hosts small apps on one server, or on several runners over one Postgres database. This
-- library models the parts that decide who may do what, who goes first, and what is remembered of
-- it, and proves what they promise. A part is modelled from its Rust source, function by function,
-- under the same names; paths are from the repository's root.
--
-- The parts:
-- - Leases (src/state/leases.rs): one holder at a time of a named lease, in a group with a ceiling. The
--   jobs of src/platform/schedule.rs take their slots so. Leases is the memory store, Leases/Postgres
--   the table; Steps, Epochs, Exclusion and Ceiling are histories of the memory store.
-- - Rate (src/state/rate.rs): so many spends under a key in a window. Rate is the memory store, with
--   every time of a spend; Rate/Postgres the table, with sixty slices of the window.
-- - Tickets (src/state/tickets.rs): capabilities that are minted once and taken once. Tickets is the
--   memory store, Tickets/Handle what callers use, with the payload sealed, and Tickets/Postgres the
--   table.
-- - Access: paths and slugs (Access/Paths: src/content/slug.rs, src/accounts/users.rs), what an account
--   holds where (Access/Scopes: src/accounts/users.rs), what opens an app (Access/Gates:
--   src/content/store.rs, src/content/serve.rs) and the tree of projects (Access/Folders:
--   src/content/store.rs). A gate asks for a scope, a scope is read under the locks of the tree, and
--   the tree keeps links to where its projects were.
-- - Hub (src/runtime/connections.rs): every open connection, the ceilings on them, the topics and the
--   state of each, and the order in which it is sent things.
-- - Jobs (src/platform/schedule.rs, src/platform/records/postgres.rs): when a job is due, for which
--   turn, and who fires it. Jobs/Site is the leases, rates and records as a start uses them, Starts
--   and Queue the starts and the runs behind a run, Ticks the scheduler's round. Between any two calls
--   of theirs others may change the stores in any way: a list of gaps says how, and when.
-- - Limits (src/runtime/limits.rs): what one call of an app may use, of what the app asks and the site
--   allows.
-- - Ports (src/platform/ports.rs): which app has which TCP or UDP port.
-- - Views (src/runtime/access.rs): what an app may declare of views over its tables, and how the
--   platform reads and rewrites them. Views/Scanner reads a statement, Views/Scripts writes scripts.
-- - Uploads (src/platform/inline_upload.rs): an upload that comes in chunks. It is a ticket, changed in
--   place by each chunk, and pieces in the file store.
-- - Runners (src/state/runners.rs, src/state/mod.rs): the registry of the processes on one database,
--   and when one of them refuses the apps' SQLite files.
-- Common holds what these share: texts as lists of bytes, maps as association lists with distinct
-- keys, the Boolean tests and the list functions on native numbers.
--
-- How state corresponds: a struct is a record and an enum a data type with the source's names. What a
-- lock, a transaction or a statement makes one step is one function from the state to the answer and
-- the state; interleavings are lists of such steps, at any times. The clock, random ids and nonces are
-- arguments. Machine integers wrap or saturate where the source lets them: an epoch of a lease is
-- counted modulo 2 ^ 64, and times saturate, or are an error on Postgres. All recursion is on
-- lists, texts and numbers of tries; the loop over queued runs has fuel, for which the number of gaps
-- and two is enough; the scanner's loop over comments has the length of its text for fuel, and ends before
-- that is used up.
--
-- Parameters, with what is relied on: the hash and the cipher of tickets (CipherLaws), the encoding of
-- their payloads (CodecLaws), the bounded queue of a connection (ChannelLaws), cron expressions
-- (CronLaws), the chunks of the file store (FilesLaws, which asks nothing of clearing: both stores only
-- try) and SQLite running a script (SqliteLaws). The collation of the database is any order. Each has
-- an instance in the tests of its part, or in Tickets/Plain.
--
-- Not modelled: lost connections to Postgres, poisoned locks, logging, and what a lookup costs; pages,
-- forms and protocols; the WebAssembly engine; archives, files and outside services; the triggers of a
-- policy, and accounts and their sessions.
pub mod Common
pub mod Leases
pub mod Rate
pub mod Tickets
pub mod Access
pub mod Hub
pub mod Jobs
pub mod Limits
pub mod Ports
pub mod Views
pub mod Uploads
pub mod Runners
