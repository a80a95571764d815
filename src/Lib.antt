-- ===== src/Lib.antt =====
-- Tunnel Weaver: the sans-IO multiplexer that the relay server and the client both run over one transport
-- connection (crates/weaver-mux), the safety middleware of the relay's web surface (crates/weaver-abuse),
-- and of the relay itself (crates/weaver-server) the registry of tunnels, the reading of a request's host,
-- the names, the rows of its machines and the scheduler of its periodic tasks.
--
-- The multiplexer. A `Connection` (crates/weaver-mux/src/connection.rs) is fed frames (`recv`), time
-- (`handle_timeout`) and calls of its application (`open`, `send`, `finish`, `reset`, `recv_msg`,
-- `set_class`, `close`), and gives frames (`poll_transmit`) and events (`poll_event`). It authenticates
-- its peer (handshake.rs, auth.rs), keeps a credit window for each direction of a stream (flow.rs,
-- stream.rs), watches its deadlines (timers.rs), and asks a tree of fair queueing schedulers
-- (sched/mod.rs over sched/qfq.rs) which frame goes next.
--
-- The safety middleware. A `Pipeline` (pass.rs) asks its passes in order: the scanner firewall
-- (scanner.rs), and the budget (passes.rs), which charges the limiters (gcra.rs) of the caller's keys
-- (key.rs) under a policy (policy.rs) through a gate (gate.rs) over a store (store.rs; the relay's is
-- store/abuse.rs of crates/weaver-server). Some routes are exempt from both (surface.rs). Beside it stands
-- the proof of work (altcha): a client of the relay gets a signed challenge, a solver finds a counter for
-- it, and the proof is verified and spent over two tables of the relay's database (store/altcha.rs of
-- crates/weaver-server), which housekeeping.rs sweeps.
--
-- The relay. The key that the multiplexer authenticates names a machine; the registry
-- (tunnel/registry.rs) knows the machine's connection, the services that it holds and the route of each
-- hostname, and the edge (edge/host.rs) reads the hostname that a request is routed by. A service is asked
-- for by the first message of the control protocol (crates/weaver-proto), and its hostname is made of three
-- names (store/names.rs). The database (store/mod.rs) holds the persons, their machines with the keys, the
-- services and their hostnames; the sweeps of it run by a scheduler (scheduler.rs, housekeeping.rs).
--
-- Files, each against the source file of its name in crates/weaver-mux/src:
--   Base           shared types, Boolean tests, lists, maps, machine words, texts, bits, and the rows of a
--     table with queries and updates on them
--   Mux/FrameType, Mux/Frame              frame.rs: `Frame::parse`, `Frame::encode_into`
--   Mux/Flow                              flow.rs: both windows; Link is a direction of a stream
--   Mux/Wire                              wire.rs: payloads, and the text form of a `KeyId`
--   Mux/Handshake, Mux/Auth, Mux/Config   handshake.rs, auth.rs, config.rs
--   Mux/Compress, Mux/Timers, Mux/Stream  compress.rs, timers.rs, stream.rs
--   Mux/Error, Mux/Event, Mux/Class       error.rs, event.rs, `Class` of sched/mod.rs
--   Mux/Sched/Flow, Group, Qfq            sched/qfq.rs, from the flow to the scheduler
--   Mux/Sched/Tree                        sched/mod.rs: `SchedTree`
--   Mux/Connection                        connection.rs: the state, and what its methods share;
--     Close, Handshake, Receive, Api, Transmit and Time hold the methods in the order of the source
--   Mux/Env                               the libraries and callbacks, as one record of functions
--   Mux/Fixtures, Mux/Tests               concrete states, and the theorems at them
-- in crates/weaver-abuse/src:
--   Abuse/Gcra, Abuse/Key, Abuse/Policy   gcra.rs, key.rs, policy.rs
--   Abuse/Store, Abuse/Gate               store.rs with `abuse_check_all` and `DbStore`, gate.rs
--   Abuse/Surface, Abuse/Pass             surface.rs; context.rs, pass.rs and passes.rs
--   Abuse/Scanner                         scanner.rs: `inspect`; Decode, Words and Rules are its
--     decoding, `classify` on words of eight bytes, and its tables
--   Abuse/Altcha                          altcha/types.rs, and the libraries of the proof of work
--   Abuse/Altcha/Pow, Consume             altcha/pow.rs, altcha/consume.rs with `DbProofStore`
--   Abuse/Altcha/Proofs, Clients          the two tables: store/altcha.rs of crates/weaver-server
--   Abuse/Altcha/Events                   what happens to the tables, one call after another
--   Abuse/Tests, Abuse/Altcha/Tests       the theorems at concrete requests
-- and in crates/weaver-server/src:
--   Relay/Registry, Relay/Services        tunnel/registry.rs: connections, and their services
--   Relay/Rename                          `rename_machine` of tunnel/registry.rs
--   Relay/Host                            edge/host.rs
--   Relay/Names                           store/names.rs
--   Relay/Machines                        store/mod.rs: persons, machines and keys; Hostnames links them
--     to services, Moved and Owned follow them through a rename, Log is the log of keys, and Commands
--     is one operation after another
--   Relay/Scheduler                       scheduler.rs, and the schedule of housekeeping.rs
--   Relay/Control                         src/control.rs and src/lib.rs of crates/weaver-proto
--   Relay/Tests, and Tests in Names,      the theorems at a concrete relay
--     Machines and Scheduler
--
-- Correspondence. A struct is a record and an enum a data type. A method on `&mut self` returns the new
-- state, beside its result where it has one; `Err(e)` is a value and the state beside it is the one that
-- the method leaves. Methods keep their names, but for `open`, which is `open_stream`, and for
-- `SchedTree::has_backlog`, which is `is_backlogged`. A hash map is an association list, and the
-- transmit buffer is the list of bytes that `poll_transmit` returns. In the middleware and the relay a
-- text is the list of its UTF-8 bytes. A database transaction takes effect as a whole or not at all, which
-- `Db` says. A registration of a service waits twice, for the database and for a certificate: what the
-- registry has become by then is an argument of `register_service`, and so is what other tasks do between
-- its sections, for each place at which it holds no lock (`Gap`); likewise for the two sections of
-- `rename_machine`. Services/Leases/Sections has the sections as steps in any order; a lock that is taken
-- while another is held belongs to the section of the first. `connect` is the section of
-- `register_connection`, whose number is drawn before it.
--
-- Numbers are natural numbers. Where the source can wrap or saturate (`u32`, `u64` arithmetic, `as u32`,
-- `saturating_add`), the model writes it out; a debug assertion is no part of the model. Instants and
-- durations of the multiplexer are nanoseconds without a bound; those of the middleware are Unix
-- milliseconds from 1970 on, below `i64::MAX`. The 64-bit counter of connections is taken not to wrap.
--
-- Fuel. The loop of `handle_timeout` runs on fuel: four rounds are enough, but for the case that
-- Mux/Connection/Time/Termination tells apart. `chunks_from` has the length of the message as its fuel,
-- which is enough since each chunk takes at least one byte. The solver counts down the counters that its
-- limits leave, and `decimal` the ten digits that a `u32` may have. No other loop needs fuel.
--
-- Not modelled. The libraries (postcard, zstd, the signature crates), the signer, the verifier and the
-- random generator are parameters, the fields of `Env`; floating point stands behind `below_cutoff`.
-- An `await` of the multiplexer is a call, since `&mut self` keeps other calls out. Test doubles and
-- accessors are left out. Of the middleware, the default of a trait method that the relay overrides is
-- left out. Of the proof of work, the hashes, hex, the JSON values and their canonical text are
-- parameters (`Libraries`), the comparison of two texts in constant time is an equality, the test of
-- the expected work in floating point is exact in the numbers that reach it, a time is not negative, a
-- read of the database that fails is left out, and a request stands where it inserts its proof, while the
-- table that it has counted before is any (`counted`); the lookup of its client is taken to be as recent
-- as the insertion. Of the names, the lower case of Unicode text is a parameter. Of the
-- database, what the schema says (unique indexes, cascades, and the service of a client of the proof of
-- work that is set to null) is in the operations that it touches, a
-- query that fails for another reason is left out, and so are certificates, challenges and the
-- configuration. Of the scheduler, what a run does, but for the sweep of proofs, is up to the world
-- that the next pass meets. Of the registry, the announcements to the console and the copy of the
-- active flag in the database are left out. The rest of the server and of the control protocol, the
-- client, the asynchronous drivers and the frontend are not modelled.
pub mod Base
pub mod Mux
pub mod Abuse
pub mod Relay
