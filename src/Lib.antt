-- ===== src/Lib.antt =====
-- Boardwalk: a hypermedia runtime for devices and jobs. Resources publish events on streams, and
-- clients subscribe to topics with patterns, filters and policies for slow consumers. This library
-- models the event system, the query language, the in-memory store and the peers of crates/boardwalk/src.
--
-- The parts and their files:
--   Query     query/ast.rs and query/eval.rs. `Query/Ast` has the types and the parser of field
--             paths, `Query/Eval` the evaluator (`matches`, `project`), `Query/Glob` the globs of
--             `like`, `Query/Meaning` a meaning of predicates that the evaluator is compared with.
--   Caql      caql/lex.rs and caql/parse.rs: `Caql/Lex` the lexer (`tokenize`), `Caql/Parser` the
--             parser's cursor, paths and values, `Caql/Parse` predicates and queries; `Caql` itself
--             is `parse` of caql/mod.rs.
--   Events    `Envelope` (events/envelope.rs), `Sequencer` (events/sequencer.rs, `allocate`,
--             `stream_for`, `evict`), `Policy` (events/policy.rs), `Topic` (events/topic.rs, `parse`,
--             `matches_at`), `Coalesce` (events/coalesce.rs, `push`, `try_recv`, `close`), `Replay`
--             (events/replay.rs, `record`, here `record_envelope`, and `events_after`), and `Bus`
--             (events/bus.rs, `subscribe`, `unsubscribe`, `try_publish`). `Bus/Claims` and
--             `Bus/Async` are the asynchronous `publish` and its `ClaimGuard`.
--   Http      `PeerStreams`: the hub of http/peer_streams.rs (`subscribe`, `unsubscribe`). `Admission`:
--             `admit_peer_connection` of http/routes.rs.
--   Runtime   `Directory`: runtime/directory.rs (`insert`, `get_by_id`). `Executor`:
--             runtime/executor.rs, an actor's mailbox and its task (`try_transition`, the loop of
--             `spawn_with_task`); `Executor/Sequential` compares it with the actor alone.
--   Peer      peer.rs: `Capabilities`, `Names`, `Tokens` (`constant_time_eq`), `Backoff`
--             (`backoff_ms`), `Admitted`, and `Acceptors` (`on_upgraded`, `drive_acceptor`,
--             `write_peer`): the task that serves an accepted connection and its clean-up task.
--   Persistence persistence/mod.rs: `Records`, `Memory` (what each operation does with the state of
--             the in-memory store), `Stores` (the operations with their lock); `Identities`, `Laws`
--             and `Lookups` are about the index of identity keys, `Nodes` about the local node.
--   Common    shared types and lemmas; Samples: concrete parameters and data for the tests.
--
-- How they interact: `try_publish` measures an envelope, records it in the replay cache, which drops
-- the id of what it evicts from the registry, and offers it to each subscription; a subscription's
-- pattern matches the envelope's topic and, with a filter, its payload (`Query.Eval.matches`). A
-- subscription sends over a channel or a coalescing queue. The accepting task of a peer writes its
-- configuration and its status to the repositories, which it sees as an interface (`Repositories`);
-- `Peer/Acceptors/Stores` fills that with the store in memory.
--
-- Text is a list of code points (`Str`); the lexer works on the UTF-8 bytes, as the source does. A
-- map is an association list; the order of a `HashMap` is any order, and no result here depends on
-- it but the order of the ids and notices that a publish lists. Counters of 64 bits wrap around
-- (`% 2 ^ 64`). State behind a lock is passed explicitly, an operation that holds the lock is one
-- step. The asynchronous publishes are a step relation (`Bus/Async/Step`): each step is one hold of
-- the lock or one send, the steps of several publishes interleave in any order, and what a channel
-- answers is chosen by the environment. A backpressure send that the channel never answers has no step.
-- In `Peer/Acceptors` a step ends where the task awaits the network or a lock that others need; the
-- steps of the task, of its clean-up and of the rest of `on_upgraded` interleave. They are those of
-- one connection, since the route refuses a peer whose name is active. `unreachable!` is a value of
-- its own, `Outcome.unreachable`.
--
-- Fuel: the parser recurses on fuel, 6 for each token and 6 more. The lexer's loop has one unit for
-- each byte. An answer for want of fuel, `out_of_fuel`, is no error of the source.
--
-- Parameters: `f64` and the `Number` of serde_json (`Numbers`), regular expressions, the query-string
-- parser and timestamps (`Crates`), the equality of JSON values and the JSON view of an envelope
-- (`Values`), the bounded channel and the size of a serialized envelope (`Channels`), connection ids
-- (`Uuids`), handles of tasks and senders of HTTP/2 connections, the actor of a mailbox (`Actor`), and
-- the lookup of a header (`Headers`).
--
-- Not modelled: the asynchronous `recv`, which waits on tokio; log output; the
-- rest of the HTTP and runtime layers; the network side of peers (tunnel, HTTP/2); the redb back end. The
-- steps of `Bus/Async` leave out `try_publish`, which does not look at the claims of the publishes
-- that are under way.
pub mod Common
pub mod Query
pub mod Caql
pub mod Events
pub mod Http
pub mod Peer
pub mod Persistence
pub mod Runtime
pub mod Samples
