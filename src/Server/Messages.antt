-- ===== src/Server/Messages.antt =====
-- src/server/mod.rs (`handle_server_message`), pass.rs, link.rs, ping.rs and registration.rs: the
-- messages of other servers. They check their parameters, and otherwise do nothing yet.
pub mod Accepts
use clandestine.Prelude.{String, not, List, [], ◌∷◌, if◌then◌else◌}
use clandestine.Prelude.Eq.{◌==◌, string_eq}
use clandestine.Error.{protocol}
use clandestine.Ts6.{Ts6Message}
use clandestine.Act.{Act, pure, raise}

unfoldable pub handle_server_pass : List String → Act (Unit {0})
handle_server_pass (password ∷ ts ∷ ts_version ∷ sid ∷ more) =
    if not (ts_version == "6") then raise (protocol "Unsupported TS version") else pure tt
handle_server_pass _ = raise (protocol "Invalid PASS parameters")

unfoldable pub handle_server_capab : List String → Act (Unit {0})
handle_server_capab [] = raise (protocol "No capabilities specified")
handle_server_capab (capability ∷ more) = pure tt

unfoldable pub handle_server_intro : List String → Act (Unit {0})
handle_server_intro (name ∷ hopcount ∷ description ∷ more) = pure tt
handle_server_intro _ = raise (protocol "Invalid SERVER parameters")

unfoldable pub handle_server_join : List String → Act (Unit {0})
handle_server_join (timestamp ∷ channel ∷ modes ∷ members ∷ more) = pure tt
handle_server_join _ = raise (protocol "Invalid SJOIN parameters")

unfoldable pub handle_server_sid : List String → Act (Unit {0})
handle_server_sid (name ∷ hopcount ∷ sid ∷ description ∷ more) = pure tt
handle_server_sid _ = raise (protocol "Invalid SID parameters")

-- The answer is built and not sent.
unfoldable pub handle_server_ping : List String → Act (Unit {0})
handle_server_ping [] = raise (protocol "No PING source")
handle_server_ping (source ∷ more) = pure tt

unfoldable pub handle_server_pong : List String → Act (Unit {0})
handle_server_pong params = pure tt

unfoldable pub handle_server_quit : List String → Act (Unit {0})
handle_server_quit (server ∷ reason ∷ more) = pure tt
handle_server_quit _ = raise (protocol "Invalid SQUIT parameters")

unfoldable pub handle_server_message : Ts6Message → Act (Unit {0})
unfolding handle_server_pass handle_server_capab handle_server_intro handle_server_join
    handle_server_sid handle_server_ping handle_server_pong handle_server_quit
handle_server_message msg =
    if msg.command == "PASS"
    then handle_server_pass msg.params
    else if msg.command == "CAPAB"
    then handle_server_capab msg.params
    else if msg.command == "SERVER"
    then handle_server_intro msg.params
    else if msg.command == "SJOIN"
    then handle_server_join msg.params
    else if msg.command == "SID"
    then handle_server_sid msg.params
    else if msg.command == "PING"
    then handle_server_ping msg.params
    else if msg.command == "PONG"
    then handle_server_pong msg.params
    else if msg.command == "SQUIT"
    then handle_server_quit msg.params
    else pure tt
