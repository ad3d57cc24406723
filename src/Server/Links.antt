-- ===== src/Server/Links.antt =====
-- src/server/mod.rs: a connection to another server. The socket layer says whether the address can be
-- reached, and how many messages its socket takes.
pub mod Handshake
use clandestine.Prelude.{ℕ, String, List}
use clandestine.Prelude.Assoc
use clandestine.Prelude.Eq.{string_eq}
use clandestine.Config.{ServerLinkConfig}
use clandestine.Error.{io, Result, ok, err}
use clandestine.Link
use clandestine.Link.{ServerLink}
use clandestine.Act.{Act, raise, set_server, modify}

unfoldable pub connect_to_server : Result ℕ String → ServerLinkConfig → Act (Unit {0})
unfolding modify raise Link.new
connect_to_server (err e) config = raise (io e)
connect_to_server (ok writable) config = set_server (λ s. record s {
  linked_servers =
      Assoc.insert config.name
        (Link.new writable config.name config.sid config.description config.password)
        s.linked_servers;
})

-- The task that is spawned for the link: an error is logged.
unfoldable pub link_task : List String → ServerLink → ServerLink
link_task lines link = (Link.handle_connection lines link).1
