-- ===== src/World.antt =====
-- The state that the connection tasks share: src/client/mod.rs (the client), src/server/mod.rs and
-- src/server/client.rs (the server), and the locks.
--
-- A client object is an `Arc<Mutex<Client>>`, and its connection task holds the mutex for as long
-- as it handles the connection. A handler runs in that task, so the world has the task's own client
-- in `self`, and every other client object in `peers`, by its id. A map from ids to objects is
-- therefore a list of ids. Ids come from a 32-bit counter.
use clandestine.Prelude.{ℕ, String, Char, Bool, List, Option, if◌then◌else◌}
use clandestine.Prelude.Assoc.{Assoc}
use clandestine.Prelude.Eq.{◌==◌, nat_eq}
use clandestine.Ircv3.{Capability}
use clandestine.Channel.{Channel, ClientId, DateTime}
use clandestine.Config.{ServerConfig}
use clandestine.Database.{Database}
use clandestine.Link.{ServerLink}

pub record Client : Type 0 where
  pub id : ClientId
  pub nickname : Option String
  pub username : Option String
  pub hostname : String
  pub ip_addr : String
  pub registered : Bool
  pub cap_negotiating : Bool
  pub enabled_capabilities : List Capability
  pub available_capabilities : List Capability
  pub account : Option String
  pub realname : Option String
  pub server_name : String
  pub last_ping : Option ℕ
  pub last_pong : Option ℕ
  pub recvq : List String
  -- whether a ping task runs, which is also whether anyone receives from `pong_tx`
  pub ping_timer : Bool
  -- the texts sent to the writer task, oldest first: for immediate writes, and queued messages
  pub tx : List String
  pub sendq_tx : List String
  -- whether the writer task runs, and so both receivers exist
  pub writer_open : Bool
  -- the notifications that the ping task has been sent
  pub pong_tx : ℕ
  pub modes : List Char
  pub ping_interval : ℕ
  pub ping_timeout : ℕ

pub record WhoisInfo : Type 0 where
  pub nickname : String
  pub username : String
  pub hostname : String
  pub realname : String

-- `tx` is the table of the server task, or `none` if its receiver is gone.
pub record Server : Type 0 where
  pub config : ServerConfig
  pub clients : List ClientId
  pub client_map : List ClientId
  pub channels : Assoc String Channel
  pub database : Option Database
  pub nicknames : Assoc String ClientId
  pub registration_timeouts : Assoc ClientId ℕ
  pub nickname_map : Assoc String ClientId
  pub tx : Option (Assoc String WhoisInfo)
  pub linked_servers : Assoc String ServerLink

-- What the program takes from elsewhere: the lower case of the Unicode tables, the `regex` crate
-- (`none` for a pattern that does not compile), and the date that `chrono` prints for a time.
pub record Env : Type 0 where
  pub to_lowercase : String → String
  pub regex : String → Option (String → Bool)
  pub date : DateTime → String

-- The locks that are held beyond one statement, by other tasks and by the handler itself, and those
-- that a task waits for in order to write. tokio's `RwLock` is fair: while a task waits to write, a
-- task that wants to read waits behind it.
pub record Locks : Type 0 where
  -- the clients whose mutex another connection task holds
  pub busy : List ClientId
  -- the channels whose write lock is held, and those whose read lock is
  pub writing : List String
  pub reading : List String
  -- how many tasks hold the read lock of the map of channels
  pub map_readers : ℕ
  -- the channels whose write lock a task waits for, and whether one waits for that of the map
  pub queued : List String
  pub map_queued : Bool

pub record World : Type 0 where
  pub env : Env
  pub now : DateTime
  pub self : Client
  pub server : Server
  pub peers : ClientId → Client
  pub locks : Locks

-- The object of one id replaced.
abbrev pub update : (ClientId → Client) → ClientId → Client → ClientId → Client
update peers id c j = if j == id then c else peers j
