-- ===== src/Lib.antt =====
-- A verification library for clandestine, an IRC server in Rust with TS6 server links.
--
-- The program reads lines from clients, parses them, and handles each command with the state that the
-- connections share. Each part has its module here, in the order in which they build on each other:
--
--   Prelude       the names that the other modules share; texts, finite maps and sets as lists
--   Error         src/error.rs
--   Ircv3         src/ircv3/mod.rs: capabilities and their names
--   Ts6           src/ts6/mod.rs: messages and how they are written; Parser is src/ts6/parser.rs,
--                 and RoundTrip goes from one to the other
--   Channel       src/channel/: a channel and its methods
--   Config        src/config.rs: the configuration records; Load reads them from a file
--   Database      src/database/mod.rs: the file of persisted lines
--   Link          src/link/mod.rs: the link to another server; Replies is what it answers
--   World         the state: the structs Client (src/client/mod.rs) and Server (src/server/mod.rs),
--                 and the locks
--   Act           how a handler runs: it ends with a value or an error, panics, or waits for a lock
--   Server        src/server/: the tables of clients, channels and nicknames, delivery, statistics,
--                 masks and access lines, messages of other servers, and a connection's life;
--                 Run interleaves the connections of a server, from the accept loop of
--                 src/server/mod.rs on; Links and Task are its links and its server task
--   Client        src/client/: sending, registration, and the handlers of all commands; Dispatch goes
--                 from a line to its handler
--   Ping, Writer  the two background tasks of a client, from src/client/ping.rs and Client::new of
--                 src/client/mod.rs, as a state machine and as a step relation
--   Cli, Main     src/cli.rs and src/main.rs: the command line, and the program as a whole
--   Invariant     properties of the state that all lines of a client keep; Upkeep, Tasks, Events and
--                 the others are about all connections together
--   Delivery      how a message reaches the members of a channel, and when a task waits for ever
--   Tests         examples
--
-- A child that is named for a subject, such as Channel/Modes, Client/ChannelMode/Replay or
-- Server/Clients/InSync, has the proofs on it.
--
-- A handler is a function of the world, with the name that it has in the source. The world has the
-- client whose task runs the handler, the server that all connections share, the other clients, and
-- the locks that are held beyond one statement. A lock that is held makes the handler `blocked`, and so
-- does, for a read, another task that waits to write, since tokio's locks are fair; a task
-- holds the mutex of its own client while it handles the connection, as handle_connection does, so a
-- handler that locks its own client is blocked as well.
--
-- Server.Run has a process with all clients, whose tasks wait for a line or for a lock, and a step for
-- each event: a new connection, a line, the end of a connection, its 60 seconds, a time. A handler runs
-- in one step, in the world in which the mutexes of all other running clients are held; a task that
-- waits for a lock stays there, also when the lock is released later, and no write to the socket of a
-- client fails. The theorems on a process hold for every sequence of such steps.
--
-- Maps and sets are lists without an order that the source promises; a map is an association list, a
-- set a list of distinct entries. Bytes of UTF-8 are texts. Times are numbers, and the clock's reading is
-- part of the world. Loops are recursions on lists; the only fuel is in `chunks`, where a list has at
-- most as many chunks as entries, and in printing a number, which has at most as many digits as its
-- value and one more. The counter of ids wraps around at 2^32, as it does in the source, and the
-- theorems that need distinct ids say so.
--
-- Parameters stand for what the program takes from elsewhere: the lower case of texts, the `regex`
-- crate, the printing of dates, the `toml` crate, the `serde_json` crate with the law that a text is
-- read back from what is written, whether an address can be bound or reached, and how many messages the
-- socket of a link takes.
--
-- Not modelled: how clap reads the command line, what is logged, the bytes of the sockets, a writer task
-- that fails while a server runs, what a task does that gets a lock it had to wait for, the handlers of
-- two clients interleaved within one line, the two background tasks of a client interleaved with its
-- connection, and the tests.
mod Prelude
pub mod Error
pub mod Ircv3
pub mod Ts6
pub mod Channel
pub mod Config
pub mod Database
pub mod Link
pub mod World
pub mod Act
pub mod Server
pub mod Client
pub mod Invariant
pub mod Delivery
pub mod Ping
pub mod Writer
pub mod Cli
pub mod Main
pub mod Tests
