-- ===== src/Lib.antt =====
-- CXDB: an append-only store of conversation turns. A server keeps turns, contexts (branches of
-- turns), blobs and snapshots of file systems in files, and talks to its clients in binary frames.
-- This library models the server's storage, its binary protocol, its queries over contexts and its
-- registry of types, the Rust client's messages and its following of contexts, and the delivery of
-- turns by the proxy cxtx.
--
-- The parts, and the files that model them:
-- - Prelude: shared names, Boolean tests, lists, dictionaries, and the results of fallible code
--   (server/src/error.rs).
-- - Wire: the crates that the code reads and writes bytes with (byteorder, crc32fast, zstd, blake3),
--   as an interface `Crates` with their documented laws, which every section takes as an instance;
--   readers as functions from bytes to a value and the rest.
-- - Turns: server/src/turn_store/mod.rs. Turns/Codec has the records of the four files, Turns/Store
--   `open` with its loads, Turns/Ops the operations. A `TurnStore` holds the contents of the files,
--   the tables and the counters; an operation returns its result and the new store.
-- - BlobStore: server/src/blob_store/mod.rs, with blobs.pack, blobs.idx and the table of the index.
-- - FsRoots: the table of snapshots in server/src/fs_store/mod.rs.
-- - Store: server/src/store.rs over these three, and the answer to GET_LAST.
-- - Protocol: server/src/protocol/mod.rs, its frames, parsers of requests and encoders of responses.
-- - Server: the match of `handle_client` in server/src/main.rs, from a message to the store and the
--   answer.
-- - Client: clients/rust/src/turn.rs, context.rs, fs.rs and client.rs, what they write and read.
-- - Client/Follow: clients/rust/src/follow.rs, what the client remembers of a context that it follows
--   and how it brings itself up to date.
-- - Cql: server/src/cql. Ast has the queries and `QueryCrates`, the interface for what the code takes
--   from floats, Unicode tables, regex and chrono; Order the order of texts and the sort; Metadata the
--   cache of contexts' metadata; Indexes the secondary indexes with their build, their upkeep and their
--   lookups; Executor what a query finds, with Executor/Reference as the meaning of a query on one
--   context with no index; Lexer and Parser; Search the searches of server/src/store.rs over these.
-- - Delivery: the worker of cxtx/src/delivery.rs, with the notes that cxtx/src/session.rs makes for it.
-- - Registry: server/src/registry/mod.rs. Registry has the types, Registry/Ingest `put_bundle` with its
--   merges, where an operation gives its result and the new registry also if it fails, and Registry/Open
--   `open`; serde_json and the parsing of numbers are the interface `RegistryCrates`.
-- - Tests: concrete crates, stores, queries, runs and bundles.
--
-- A byte sequence is a list of numbers. Machine integers are native numbers: an addition or a cast
-- that can wrap has its `% 2 ^ w`, and where a theorem needs a range it says so. The clock's value is
-- an argument. A loop that the code bounds by the bytes that are left or by nothing takes fuel: the
-- loads take one round more than the file has bytes, and a round reads at least one byte; the walks
-- of `get_first_turn` and `get_inherited` take one round more than the turn's id, and a parent's id
-- is smaller; the lexer takes one round more than the text has characters, and the parser one level more
-- than there are tokens. Running out of fuel gives `stuck`, which is no value of the code.
--
-- Not modelled: I/O errors other than a short read, seeks, syncs, locks and threads; messages of
-- errors beyond their literals; how the store fills the metadata cache from payloads; the HTTP side
-- (server/src/http), projection, metrics, events and S3 sync; the writing of the registry's files, its
-- lists of renderers and its statistics; the client's connections, subscriptions and queues; the proxy,
-- providers, session history and ledger of cxtx; the Go client.
pub mod Prelude
pub mod Wire
pub mod Turns
pub mod Protocol
pub mod Client
pub mod BlobStore
pub mod FsRoots
pub mod Store
pub mod Server
pub mod Tests
pub mod Cql
pub mod Delivery
pub mod Registry
