-- ===== src/Server/Run.antt =====
-- src/server/mod.rs: the accept loop `run` and `handle_connection`, with the connections interleaved,
-- and the counter of ids of src/client/mod.rs. A step is what one event does: a connection's task runs
-- until it waits for its next line. A task that waits for a lock stays there.
use clandestine.Prelude.{ℕ, ◌+◌, ◌%◌, ◌^◌, String, false, not, List, [], ◌∷◌, ◌++◌, if◌then◌else◌}
use clandestine.Prelude.Set
use clandestine.Prelude.Eq.{nat_eq}
use clandestine.Error.{protocol}
use clandestine.Channel.{ClientId, DateTime}
use clandestine.World.{World, Client, Server, Env, Locks, update}
use clandestine.Act.{Act, Outcome, done, fail, panic, blocked, pure, raise, gets, ◌>>=◌, ◌>>◌}
use clandestine.Server.Clients.{lock, add_client, remove_client}
use clandestine.Server.Connection.{new_client}
use clandestine.Client.Send.{send_error}
use clandestine.Client.Registration.{is_registered}
use clandestine.Client.Dispatch.{handle_line, cleanup}

pub data Event : Type 0 where
  -- `accept` gives a socket with its address, or an error
  accepted : String → Event
  accept_failed : Event
  -- a socket whose address or option cannot be had
  socket_failed : Event
  -- `next_line` of a connection gives a line, the end, or an error
  line : ClientId → String → Event
  closed : ClientId → Event
  read_failed : ClientId → Event
  -- the 60 seconds since a connection's start are over
  elapsed : ClientId → Event
  clock : DateTime → Event

pub record Process : Type 0 where
  pub env : Env
  pub now : DateTime
  pub server : Server
  -- the client objects; one that was not made yet is a blank one
  pub objects : ClientId → Client
  -- the clients whose task waits for a line, and those whose task waits for a lock
  pub reading : List ClientId
  pub waiting : List ClientId
  -- what the tasks that wait hold, beside the mutexes of their own clients
  pub held : Locks
  pub next_client_id : ℕ

-- `fetch_add` on an `AtomicU32`: the id, and the next value of the counter
unfoldable pub generate_client_id : ℕ → ClientId × ℕ
generate_client_id next = (next, (next + 1) % 2 ^ 32)

-- The world that the task of a client meets.
abbrev pub world_for : ClientId → Process → World
world_for id p = record {
  env = p.env;
  now = p.now;
  self = p.objects id;
  server = p.server;
  peers = p.objects;
  locks = record p.held { busy = Set.remove id (p.reading ++ p.waiting) };
}

-- What the task leaves.
abbrev pub store : ClientId → World → Process → Process
store id w p = record p {
  server = w.server;
  objects = update w.peers id w.self;
  held = record w.locks { busy = [] };
}

abbrev pub gone : ClientId → Process → Process
gone id p = record p { reading = Set.remove id p.reading }

abbrev pub waits : ClientId → Process → Process
waits id p = record p { reading = Set.remove id p.reading; waiting = Set.insert id p.waiting }

-- A task that ends, by an error or a panic too, gives its mutex back.
abbrev pub end_of : ClientId → Outcome (Unit {0}) × World → Process → Process
end_of id (blocked, w) p = waits id (store id w p)
end_of id (done u, w) p = gone id (store id w p)
end_of id (fail e, w) p = gone id (store id w p)
end_of id (panic, w) p = gone id (store id w p)

-- the end of `connection_future`
unfoldable pub finish : ClientId → Act (Unit {0})
finish client_id = do cleanup; remove_client client_id

unfoldable pub end_connection : ClientId → Process → Process
unfolding finish
end_connection id p = end_of id (finish id (world_for id p)) p

-- After a line: the loop goes on, or an error ends it, or the task panics or waits.
abbrev pub after_line : ClientId → Outcome (Unit {0}) × World → Process → Process
after_line id (done u, w) p = store id w p
after_line id (fail e, w) p = end_connection id (store id w p)
after_line id (panic, w) p = gone id (store id w p)
after_line id (blocked, w) p = waits id (store id w p)

unfoldable pub read_line : ClientId → String → Process → Process
unfolding end_connection handle_line
read_line id text p = after_line id (handle_line text (world_for id p)) p

-- The branch of `select!` for the timeout. The connection's future is not polled then, and still
-- holds the mutex; `pure tt` stands for waiting for it.
unfoldable pub registration_timeout : ClientId → Act (Unit {0})
unfolding lock send_error
registration_timeout client_id = do
  lock client_id
  registered ← gets (λ w. is_registered w.self)
  if not registered
      then (do
        lock client_id
        send_error "Registration timeout"
        raise (protocol "Registration timeout"))
      else pure tt

-- Waiting for the connection's future is what the task did before; an error ends the task without
-- the cleanup.
abbrev pub after_timeout : ClientId → Outcome (Unit {0}) × World → Process → Process
after_timeout id (done u, w) p = store id w p
after_timeout id (fail e, w) p = gone id (store id w p)
after_timeout id (panic, w) p = gone id (store id w p)
after_timeout id (blocked, w) p = waits id (store id w p)

unfoldable pub time_out : ClientId → Process → Process
unfolding registration_timeout
time_out id p = after_timeout id (registration_timeout id (world_for id p)) p

-- the start of `handle_connection`, up to the loop over the lines
abbrev pub connected : ClientId → ℕ → String → Process → Process
connected id next ip p = record p {
  server = (add_client id (world_for id p)).1.server;
  objects = update p.objects id (new_client id ip p.server.config);
  reading = id ∷ p.reading;
  next_client_id = next;
}

unfoldable pub connect : String → Process → Process
unfolding generate_client_id add_client new_client
connect ip p = let (id, next) = generate_client_id p.next_client_id in connected id next ip p

-- An event of a connection whose task does not wait for a line does not happen.
abbrev pub if_reading : ClientId → (Process → Process) → Process → Process
if_reading id f p = if Set.contains id p.reading then f p else p

unfoldable pub step : Event → Process → Process
unfolding connect read_line end_connection time_out
step (accepted ip) p = connect ip p
step accept_failed p = p
step socket_failed p = p
step (line id text) p = if_reading id (read_line id text) p
step (closed id) p = if_reading id (end_connection id) p
step (read_failed id) p = if_reading id (end_connection id) p
step (elapsed id) p = if_reading id (time_out id) p
step (clock now) p = record p { now = now }

-- The loop has no end of its own: it has come as far as the events that there were.
unfoldable pub run : List Event → Process → Process
unfolding step
run [] p = p
run (e ∷ es) p = run es (step e p)

abbrev blank_client : Server → ClientId → Client
blank_client s id = new_client id "" s.config

-- the server when `run` begins
abbrev pub start : Env → DateTime → Server → Process
start env now server = record {
  env = env;
  now = now;
  server = server;
  objects = blank_client server;
  reading = [];
  waiting = [];
  held = record {
    busy = [];
    writing = [];
    reading = [];
    map_readers = 0;
    queued = [];
    map_queued = false;
  };
  next_client_id = 1;
}
