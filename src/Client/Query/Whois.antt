-- ===== src/Client/Query/Whois.antt =====
-- WHOIS on a server as it is made.
use clandestine.Prelude.{String, List, ◌∷◌, none, ◌≡◌, refl, arith}
use clandestine.Error.{Result, ok, err}
use clandestine.Config.{ServerConfig}
use clandestine.Database.{Json, Disk}
use clandestine.World.{World, Server}
use clandestine.Act.{panic, ◌>>=◌}
use clandestine.Server.Clients.{find_client_info}
use clandestine.Server.Connection.{new, with_database, configured_database}
use clandestine.Client.Query.{handle_whois}
use clandestine.Client.Dispatch.{handle_connection_with_reader}
use clandestine.Invariant.{Stable}
use clandestine.Invariant.Lines.{Keeps-handle_connection_with_reader}

NoTask-Stable : Stable (λ w. w.server.tx ≡ none)
NoTask-Stable = record {
  sends = record {
    quiet = record { locks = λ l w h. h; peer_queue = λ id q w h. h };
    self_queue = λ q w h. h;
    self_tx = λ q w h. h;
    channels = λ m w h. h;
    timer = λ b n w h. h;
  };
  modes = λ m w h. h;
  negotiating = λ b w h. h;
  registers = λ w r h. h;
  names_user = λ u r w h. h;
  claims = λ nick w t h. h;
}

with_database-tx :
    (config : ServerConfig) (r : Result _ String) (s : Server)
    → with_database config r ≡ ok s
    → s.tx ≡ none
with_database-tx config (err e) s h = ground arith
with_database-tx config (ok database) s h = ground arith

-- On a server that `Server::new` has made, after any lines of any client, a WHOIS with a target panics.
pub handle_whois-panic :
    (json : Json) (disk : Disk) (config : ServerConfig) (w : World) (lines : List String)
    (target : String) (more : List String)
    → new json disk config ≡ ok w.server
    → (handle_whois (target ∷ more) (handle_connection_with_reader lines w).1).0 ≡ panic
unfolding new handle_whois find_client_info ◌>>=◌
handle_whois-panic json disk config w lines target more h =
    rw
      ((Keeps-handle_connection_with_reader NoTask-Stable lines).at w
        (with_database-tx config (configured_database json disk config.database) w.server h))
      refl
