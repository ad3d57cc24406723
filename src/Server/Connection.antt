-- ===== src/Server/Connection.antt =====
-- src/server/mod.rs: a new server, and the life of one connection without its registration timeout,
-- which Run adds.
use clandestine.Prelude.{String, true, false, List, [], Option, none, some, if◌then◌else◌}
use clandestine.Error.{Result, ok, err}
use clandestine.Config.{ServerConfig, DatabaseConfig}
use clandestine.Database.{Json, Disk, Database, open_database}
use clandestine.Channel.{ClientId}
use clandestine.World.{Server, Client}
use clandestine.Act.{Act, from_result, gets, ◌>>=◌, ◌>>◌, attempt}
use clandestine.Server.Clients.{add_client, remove_client}
use clandestine.Client.Dispatch.{handle_connection_with_reader, cleanup}

abbrev some_database : Result Database String → Result (Option Database) String
some_database (ok db) = ok (some db)
some_database (err e) = err e

abbrev pub configured_database :
    Json → Disk → Option DatabaseConfig → Result (Option Database) String
configured_database json disk none = ok none
configured_database json disk (some db_config) =
    if db_config.persist_lines
    then some_database (open_database json disk db_config.path)
    else ok none

-- `std::thread::spawn(move || { server_task(rx); })` makes the future of `server_task` and drops it
-- with the receiver, since nothing awaits it: `tx` has no receiver.
abbrev pub fresh : ServerConfig → Option Database → Server
fresh config database = record {
  config = config;
  clients = [];
  client_map = [];
  channels = [];
  database = database;
  nicknames = [];
  registration_timeouts = [];
  nickname_map = [];
  tx = none;
  linked_servers = [];
}

abbrev pub with_database : ServerConfig → Result (Option Database) String → Result Server String
with_database config (err e) = err e
with_database config (ok database) = ok (fresh config database)

-- `Server::new`; `load_persisted_lines` changes nothing
unfoldable pub new : Json → Disk → ServerConfig → Result Server String
new json disk config = with_database config (configured_database json disk config.database)

-- `Client::new`, with the id that the counter gives
unfoldable pub new_client : ClientId → String → ServerConfig → Client
new_client id ip config = record {
  id = id;
  nickname = none;
  username = none;
  hostname = ip;
  ip_addr = ip;
  registered = false;
  cap_negotiating = false;
  enabled_capabilities = [];
  available_capabilities = [];
  account = none;
  realname = none;
  server_name = config.server.name;
  last_ping = none;
  last_pong = none;
  recvq = [];
  ping_timer = false;
  tx = [];
  sendq_tx = [];
  writer_open = true;
  pong_tx = 0;
  modes = [];
  ping_interval = config.timeouts.ping_interval;
  ping_timeout = config.timeouts.ping_timeout;
}

-- `connection_future` of `handle_connection`, on the lines that the client sends before it leaves
unfoldable pub connection_future : List String → Act (Unit {0})
connection_future lines = do
  client_id ← gets (λ w. w.self.id)
  add_client client_id
  result ← attempt (handle_connection_with_reader lines)
  cleanup
  remove_client client_id
  from_result result
