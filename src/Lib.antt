-- ===== src/Lib.antt =====
-- A verification library of bevy_simplenet, a crate that joins a Bevy app's clients and server by
-- websockets. It models the crate's own logic; ezsockets, tokio, crossbeam, bincode, ed25519 and
-- the URL parser are arguments of the definitions that use them.
--
-- The parts, and where they are:
--   Common           names of the libraries, tests, lists, maps as association lists, bytes, results
--   RateLimiter      src/rate_limiter.rs: the tracker; Bounds has what it lets through
--   Authentication   src/authentication: tokens, their payload, the authenticators (Verdict), the
--                    payload's bytes (Payload), the making of tokens by lifetime (Expiry)
--   Protocol         src/common.rs and src/common_internal.rs: what goes over the wire
--   Client.Signal    src/client/request_signal.rs: request signals, as cells of a store
--   Client.Tracker   src/client/pending_request_tracker.rs
--   Client.State     the state that client and handler share, and src/client/client_event.rs
--   Client.Handler   src/client/client_handler.rs: the callbacks of the socket
--   Client.Api       src/client/client.rs: the public operations
--   Client.Text, Client.Factory
--                    the texts of src/client/client_handler.rs, and ClientFactory of
--                    src/client/client.rs
--   Client.Run       runs of a client; Settle, Drain, Effect, Callbacks, Operations and Calls have
--                    what one step does, Invariant and Death what holds in every run; Cells, Told,
--                    Agreement and Replies have what a step does to the cells of the signals, and
--                    Status what a signal says in every run; Responded has a request that is
--                    answered
--   Server.Counter, Server.Validation, Server.Admission
--                    src/server/connection_validation.rs, and which requests it lets through
--   Server.Token     src/server/request_token.rs, src/server/session_utils.rs and the events
--   Server.Session   src/server/session_handler.rs; Sessions has what holds in every run of it
--   Server.Connection
--                    src/server/connection_handler.rs; Inverse, Registry and Upkeep have what one
--                    call does to its maps and counters, Runs what holds in every run
--   Server.Api       src/server/server.rs: the public operations; Replies has what becomes of tokens
--   Server.Delivery  runs of the handler of connections with the public operations; Order and Stamps
--                    have what one step does, Arrival what holds in every run
--   Server.System    runs of that handler with the sessions and the public operations; Clients,
--                    Handled and Routing have what one step does, Answers what holds in every run,
--                    Logs and Persistence what a run keeps, Served a request that is answered, and
--                    Duplicate what becomes of a second session of one client
--   Server.Text, Server.Factory, Server.Handshake
--                    the texts of src/server/session_handler.rs, ServerFactory and the handler of
--                    upgrade requests of src/server/server.rs, and who is let in by it; Texts has
--                    what a text can come to for a session
--   TextPingPong     src/text_ping_pong.rs; Decimal has numbers as texts, Exchange and Volley what a
--                    client and a session make of each other's texts
--   Conversation     a request and its response, through all of these parts
--   Demo             examples/common/src/lib.rs, examples/server/src/main.rs (Server; Owner has who
--                    owns the button and Told what the clients hear) and examples/client/src/main.rs
--                    (Client; Select has what becomes of a selection)
--
-- How the state corresponds: a component's state is a record with the fields of the struct, in the
-- words of the source. In place of a channel or a socket there is a log of what it has accepted, in
-- order; whether it accepts a value is a field of a record Outside that each operation takes, as
-- are the clock and the statuses of messages in the socket. A panic, where the code has one, is
-- the value none. A callback of the client, its send and its request run within the lock of the
-- pending requests, so each is one step; a poisoned lock is a flag of the state. The close of the
-- client takes no lock: its test of is_closed, its call of the socket, its report and its flag are a
-- step each, of any number of threads, with other steps between them. Where such a step falls within
-- a callback it is put before or after it, so the place of the report of a close among the events of
-- one callback is not modelled; a test that passes between the two ends of a drop of the handler
-- passes before it too. A session of ezsockets is its id, and an atomic
-- that several objects share is a cell or a function of an address.
--
-- Machine integers are native natural numbers with the wrap-around written out (% 2 ^ w). The one
-- definition on fuel writes the digits of a number of 128 bits, with fuel for 39 digits: all that
-- are written are read back as the number. Every other loop is a recursion on a list. The order of
-- a hash map's entries stands for the order of iteration, so a theorem holds for each such order.
--
-- Assumptions that the theorems name: in a run of a client, the event channel accepts events while
-- the client lives, the socket's signals are at an end when a connection is lost, and the counter of
-- request ids does not wrap; in a run of the connection handler, a session is added once and ends
-- once; in a run with the sessions, ezsockets drops the handler of a session before it reports the
-- session's end; in a run of the server with it, the event channel accepts the reports of
-- connections and their counter does not wrap; a signature that was made verifies; what bincode
-- serializes, it deserializes to the same.
--
-- Not modelled: the tasks and listeners that the factories start and the making of URLs, which are
-- calls of tokio, axum and url; the generation of keys; the formatting of dates for the log; the
-- user interfaces of the examples.
pub mod Common
pub mod RateLimiter
pub mod Authentication
pub mod Protocol
pub mod Client
pub mod Server
pub mod TextPingPong
pub mod Demo
pub mod Conversation
