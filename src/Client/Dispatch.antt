-- ===== src/Client/Dispatch.antt =====
-- src/client/message.rs and src/client/mod.rs: from a line to its handler, and the end of a
-- connection.
pub mod Negotiation
pub mod Termination
pub mod Session
use clandestine.Prelude.{String, false, List, [], ◌∷◌, Option, none, some, if◌then◌else◌}
use clandestine.Prelude.Eq.{◌==◌, string_eq}
use clandestine.Prelude.Text.{starts_with_char}
use clandestine.Error.{Result, ok, err, protocol}
use clandestine.Ts6
use clandestine.Ts6.{Ts6Message}
use clandestine.Ts6.Parser.{parse_message}
use clandestine.Act.{
  Act, pure, raise, gets, set_self, modify, from_result, ◌>>=◌, ◌>>◌, attempt, for_each,
}
use clandestine.Server.Channels.{get_client_channels, broadcast_to_channel, remove_from_channel}
use clandestine.Client.Send.{write_raw, send_numeric, get_prefix}
use clandestine.Client.Capability.{handle_cap_command}
use clandestine.Client.User.{handle_nick, handle_user, handle_user_mode, handle_quit}
use clandestine.Client.Membership.{handle_join, handle_part}
use clandestine.Client.ChannelMode.{handle_channel_mode}
use clandestine.Client.Query.{handle_whois, handle_who, handle_privmsg, handle_notice}
use clandestine.Client.Info.{
  handle_ping, handle_pong, handle_motd, handle_version, handle_admin, handle_info, handle_lusers,
}

unfoldable pub handle_mode : List String → Act (Unit {0})
handle_mode [] = raise (protocol "No mode target")
handle_mode (target ∷ more) =
    if starts_with_char "#" target
    then handle_channel_mode (target ∷ more)
    else handle_user_mode (target ∷ more)

unfoldable pub handle_cap : List String → Act (Unit {0})
handle_cap params = do
  result ← attempt (handle_cap_command params)
  write_raw ""
  from_result result

-- During negotiation: the command is not kept, though the source calls this buffering.
unfoldable pub while_negotiating : String → List String → Act (Unit {0})
while_negotiating cmd params = if cmd == "QUIT" then handle_quit params else pure tt

-- The queries that a client makes about the server.
unfoldable pub handle_query : String → List String → Act (Unit {0})
handle_query cmd params =
    if cmd == "MOTD"
    then handle_motd params
    else if cmd == "LUSERS"
    then handle_lusers params
    else if cmd == "VERSION"
    then handle_version params
    else if cmd == "ADMIN"
    then handle_admin params
    else if cmd == "INFO"
    then handle_info params
    else if cmd == "WHO"
    then handle_who params
    else send_numeric 421 (cmd ∷ "Unknown command" ∷ [])

unfoldable pub handle_command : String → List String → Act (Unit {0})
unfolding handle_query handle_mode
handle_command cmd params =
    if cmd == "NICK"
    then handle_nick params
    else if cmd == "USER"
    then handle_user params
    else if cmd == "QUIT"
    then handle_quit params
    else if cmd == "JOIN"
    then handle_join params
    else if cmd == "PART"
    then handle_part params
    else if cmd == "WHOIS"
    then handle_whois params
    else if cmd == "PING"
    then handle_ping params
    else if cmd == "PONG"
    then handle_pong params
    else if cmd == "MODE"
    then handle_mode params
    else if cmd == "PRIVMSG"
    then handle_privmsg params
    else if cmd == "NOTICE"
    then handle_notice params
    else handle_query cmd params

unfoldable pub handle_message : Ts6Message → Act (Unit {0})
unfolding handle_command while_negotiating handle_cap
handle_message message = if message.command == "CAP" then handle_cap message.params else do
  negotiating ← gets (λ w. w.self.cap_negotiating)
  if negotiating
      then while_negotiating message.command message.params
      else handle_command message.command message.params

unfoldable pub handle_parsed : Result Ts6Message String → Act (Unit {0})
handle_parsed (ok message) = handle_message message
handle_parsed (err e) = send_numeric 421 ("Unknown command" ∷ [])

unfoldable pub handle_line : String → Act (Unit {0})
unfolding handle_parsed
handle_line line = handle_parsed (parse_message line)

-- The lines that the reader gives, without their line ends. An error of a handler ends the loop.
unfoldable pub handle_connection_with_reader : List String → Act (Unit {0})
handle_connection_with_reader lines = for_each lines handle_line

unfoldable pub leave_channel : String → Act (Unit {0})
leave_channel channel = do
  id ← gets (λ w. w.self.id)
  prefix ← gets (λ w. get_prefix w.self)
  attempt (
      broadcast_to_channel channel (Ts6.with_source prefix "QUIT" ("Connection closed" ∷ []))
        (some id))
  attempt (remove_from_channel channel id)
  pure tt

unfoldable pub leave_all : Option String → Act (Unit {0})
unfolding leave_channel
leave_all none = pure tt
leave_all (some nick) = do
  id ← gets (λ w. w.self.id)
  channels ← get_client_channels id
  for_each channels leave_channel

-- Dropping a clone of `tx` closes nothing.
unfoldable pub cleanup : Act (Unit {0})
unfolding leave_all modify
cleanup = do
  set_self (λ c. record c { ping_timer = false })
  nickname ← gets (λ w. w.self.nickname)
  leave_all nickname
  set_self (λ c. record c { recvq = [] })
