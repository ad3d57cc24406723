-- ===== src/Client/Info.antt =====
-- src/client/server.rs: PING, PONG and the commands that report on the server.
use clandestine.Prelude.{String, List, [], ◌∷◌, if◌then◌else◌}
use clandestine.Prelude.Text.{◌<>◌, decimal}
use clandestine.Error.{protocol}
use clandestine.Prelude.{◌+◌}
use clandestine.Act.{Act, raise, gets, set_self, modify, ◌>>=◌, ◌>>◌}
use clandestine.Server.Stats.{get_stats}
use clandestine.Client.Send.{write_raw, send_numeric}
use clandestine.Client.Registration.{send_motd}

unfoldable pub handle_ping : List String → Act (Unit {0})
handle_ping [] = raise (protocol "No ping parameter")
handle_ping (cookie ∷ more) = do
  server_name ← gets (λ w. w.self.server_name)
  write_raw (":" <> server_name <> " PONG :" <> cookie <> "\r\n")

-- With no ping task nobody receives the notification, and the failure is logged.
unfoldable pub handle_pong : List String → Act (Unit {0})
unfolding modify
handle_pong params =
    set_self (λ c. record c { pong_tx = if c.ping_timer then c.pong_tx + 1 else c.pong_tx })

unfoldable pub handle_motd : List String → Act (Unit {0})
handle_motd params = send_motd

unfoldable pub handle_version : List String → Act (Unit {0})
handle_version params = do
  server_name ← gets (λ w. w.self.server_name)
  send_numeric 351 ("ircd-rs-0.1.0" ∷ server_name ∷ "Available on GitHub" ∷ [])

unfoldable pub handle_admin : List String → Act (Unit {0})
handle_admin params = do
  server_name ← gets (λ w. w.self.server_name)
  send_numeric 256 (server_name ∷ "Administrative info" ∷ [])
  send_numeric 257 ("Location: Earth" ∷ [])
  send_numeric 258 ("Server Info" ∷ [])
  send_numeric 259 ("admin@example.com" ∷ [])

unfoldable pub handle_info : List String → Act (Unit {0})
handle_info params = do
  send_numeric 371 ("IRCd-rs Server" ∷ [])
  send_numeric 371 ("Written in Rust" ∷ [])
  send_numeric 374 ("End of /INFO list" ∷ [])

unfoldable pub handle_lusers : List String → Act (Unit {0})
handle_lusers params = do
  stats ← get_stats
  send_numeric 251 (
      ("There are "
        <> decimal stats.visible_users
        <> " users and "
        <> decimal stats.invisible_users
        <> " invisible on 1 server")
      ∷ [])
  send_numeric 252 (decimal stats.oper_count ∷ "operator(s) online" ∷ [])
  send_numeric 254 (decimal stats.channel_count ∷ "channels formed" ∷ [])
  send_numeric 255 (
      ("I have "
        <> decimal stats.local_users
        <> " clients and "
        <> decimal stats.local_servers
        <> " servers")
      ∷ [])
