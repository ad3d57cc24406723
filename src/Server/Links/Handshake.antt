-- ===== src/Server/Links/Handshake.antt =====
-- What a server that has been connected to is sent.
use clandestine.Prelude.{ℕ, take, String, List, some, ◌≡◌, refl, if◌then◌else◌}
use clandestine.Prelude.Assoc
use clandestine.Prelude.Assoc.{get-insert}
use clandestine.Prelude.Eq.{◌==◌, string_eq}
use clandestine.Config.{ServerLinkConfig}
use clandestine.Error.{Result, ok, err, io}
use clandestine.Link
use clandestine.Link.{ServerLink}
use clandestine.Link.Replies.{pongs, until_squit, readings, handle_connection_lem}
use clandestine.World.{World}
use clandestine.Act.{Outcome, done, fail}
use clandestine.Server.Links.{connect_to_server, link_task}

unfoldable pub link_of : ℕ → ServerLinkConfig → ServerLink
unfolding Link.new
link_of writable config =
    Link.new writable config.name config.sid config.description config.password

-- The world is left as it is if the address cannot be reached, and else has the link in its table.
abbrev pub Linked : ServerLinkConfig → World → Result ℕ String → Outcome (Unit {0}) × World → Type 0
Linked config w (err e) r = r ≡ (fail (io e), w)
Linked config w (ok writable) r =
    (r.0 ≡ done tt)
    × ((name : String)
        → Assoc.get name r.1.server.linked_servers ≡ (
            if config.name == name
            then some (link_of writable config)
            else Assoc.get name w.server.linked_servers))

connect_to_server-Linked :
    (stream : Result ℕ String) (config : ServerLinkConfig) (w : World)
    → Linked config w stream (connect_to_server stream config w)
unfolding connect_to_server link_of
connect_to_server-Linked (err e) config w = refl
connect_to_server-Linked (ok writable) config w =
    (refl, λ name. get-insert config.name name (link_of writable config) w.server.linked_servers)

-- A connection to another server fails and changes nothing if the address cannot be reached, and
-- otherwise puts the link in the table under its name and leaves the others. Whatever lines come over
-- the link then, its task sends only PONGs, one for each PING before the first SQUIT, as far as the
-- socket takes them: PASS, CAPAB and SERVER, with which the other server is to be greeted, are never
-- sent.
pub connect_to_server_lem :
    (stream : Result ℕ String) (config : ServerLinkConfig) (lines : List String) (writable : ℕ)
    (w : World)
    → Linked config w stream (connect_to_server stream config w)
      × ((link_task lines (link_of writable config)).written
          ≡ take writable (pongs (until_squit (readings lines))))
unfolding link_task link_of
connect_to_server_lem stream config lines writable w = (
  connect_to_server-Linked stream config w,
  (handle_connection_lem lines (link_of writable config)).0,
)
