-- ===== src/Invariant/Lines.antt =====
-- The handlers that change the client itself, and whole lines.
use clandestine.Prelude.{String, Bool, true, ◌≡◌, List, [], ◌∷◌, arith}
use clandestine.Prelude.Eq.{string_eq}
use clandestine.Error.{Result, ok, err}
use clandestine.Ts6.{Ts6Message}
use clandestine.World.{World}
use clandestine.Act.{◌>>=◌}
use clandestine.Act.Keeps.{Keeps, Keeps-modify, Keeps-bind, Keeps-for_each}
use clandestine.Invariant.{Sends, Stable, with_self, claimed}
use clandestine.Invariant.Sending.{sending_rules}
use clandestine.Invariant.Handlers.{
  Keeps-handle_join, Keeps-handle_part, Keeps-query_or_change, Keeps-handle_whois, Keeps-handle_who,
  Keeps-handle_privmsg, Keeps-handle_notice, Keeps-send_motd, Keeps-handle_ping, Keeps-handle_motd,
  Keeps-handle_version, Keeps-handle_admin, Keeps-handle_info, Keeps-handle_lusers,
}
use clandestine.Server.Registration.{register_nickname, unregister_nickname}
use clandestine.Client.Registration.{
  start_ping_timer, send_welcome, send_lusers, send_registration, mark_registered, is_ready,
  complete_registration, check_registration,
}
use clandestine.Client.Capability.{set_negotiating, handle_cap_command}
use clandestine.Client.User.{
  unregister_old, take_nick, nick_params, handle_nick, user_params, handle_user, user_modes,
  own_modes, handle_user_mode, broadcast_global, handle_quit,
}
use clandestine.Client.ChannelMode.{handle_channel_mode}
use clandestine.Client.Info.{handle_pong}
use clandestine.Client.Dispatch.{
  handle_mode, handle_cap, while_negotiating, handle_query, handle_command, handle_message,
  handle_parsed, handle_line, handle_connection_with_reader,
}

module _ {P : World → Type 0} (s : Sends P) where
  Keeps-start_ping_timer : Keeps P start_ping_timer
  unfolding start_ping_timer
  Keeps-start_ping_timer = Keeps-modify _ (λ w h. s.timer true 0 w h)

  pub Keeps-send_registration : Keeps P send_registration
  unfolding send_registration send_welcome send_lusers
  Keeps-send_registration = search (sending_rules, Keeps-send_motd, Keeps-start_ping_timer) depth 12

module _ {P : World → Type 0} (s : Stable P) where
  complete_registration-keeps :
      (w : World) → is_ready w.self ≡ true → P w → P (complete_registration w).1
  unfolding complete_registration ◌>>=◌
  complete_registration-keeps w r h = ground (
    arith,
    (Keeps-send_registration s.sends).at (with_self w (mark_registered w.self)) (s.registers w r h),
  )

  Keeps-check_registration : Keeps P check_registration
  unfolding check_registration ◌>>=◌
  Keeps-check_registration = record { at = λ w h. ground (arith, complete_registration-keeps w) }

  -- NICK: the name is taken already, or the client takes it and registration is checked.
  Keeps-take_nick : (nick : String) → Keeps P (take_nick nick)
  unfolding take_nick unregister_old register_nickname unregister_nickname ◌>>=◌
  Keeps-take_nick nick = record {
    at = λ w h. ground (arith, (Keeps-check_registration).at (claimed w nick), s.claims nick w);
  }

  Keeps-handle_nick : (params : List String) → Keeps P (handle_nick params)
  unfolding handle_nick nick_params
  Keeps-handle_nick [] = search sending_rules
  Keeps-handle_nick (nick ∷ more) = search (sending_rules, Keeps-take_nick)

  Keeps-user_params : (params : List String) → Keeps P (user_params params)
  unfolding user_params
  Keeps-user_params (username ∷ mode ∷ unused ∷ realname ∷ more) =
      Keeps-bind _ _ (Keeps-modify _ (s.names_user username realname))
        (λ u. Keeps-check_registration)
  Keeps-user_params _ = search sending_rules

  Keeps-handle_user : (params : List String) → Keeps P (handle_user params)
  unfolding handle_user
  Keeps-handle_user params = search (sending_rules, Keeps-user_params)

  Keeps-own_modes : (params : List String) → Keeps P (own_modes params)
  unfolding own_modes
  Keeps-own_modes [] = search sending_rules
  Keeps-own_modes (modes ∷ more) =
      Keeps-modify _ (λ w h. s.modes (user_modes true modes w.self.modes) w h)

  Keeps-handle_user_mode : (params : List String) → Keeps P (handle_user_mode params)
  unfolding handle_user_mode
  Keeps-handle_user_mode [] = search sending_rules
  Keeps-handle_user_mode (target ∷ more) = search (sending_rules, Keeps-own_modes) depth 8

  Keeps-handle_quit : (params : List String) → Keeps P (handle_quit params)
  unfolding handle_quit broadcast_global
  Keeps-handle_quit params = search sending_rules

  Keeps-handle_channel_mode : (params : List String) → Keeps P (handle_channel_mode params)
  unfolding handle_channel_mode
  Keeps-handle_channel_mode [] = search sending_rules
  Keeps-handle_channel_mode (target ∷ more) =
      search (sending_rules, Keeps-query_or_change s.sends, Keeps-handle_user_mode) depth 8

  Keeps-handle_mode : (params : List String) → Keeps P (handle_mode params)
  unfolding handle_mode
  Keeps-handle_mode [] = search sending_rules
  Keeps-handle_mode (target ∷ more) =
      search (sending_rules, Keeps-handle_channel_mode, Keeps-handle_user_mode)

  Keeps-set_negotiating : (b : Bool) → Keeps P (set_negotiating b)
  unfolding set_negotiating
  Keeps-set_negotiating b = Keeps-modify _ (s.negotiating b)

  Keeps-handle_cap_command : (params : List String) → Keeps P (handle_cap_command params)
  unfolding handle_cap_command
  Keeps-handle_cap_command [] = search sending_rules
  Keeps-handle_cap_command (subcommand ∷ []) = search (sending_rules, Keeps-set_negotiating) depth 9
  Keeps-handle_cap_command (subcommand ∷ requested ∷ more) =
      search (sending_rules, Keeps-set_negotiating) depth 9

  Keeps-handle_cap : (params : List String) → Keeps P (handle_cap params)
  unfolding handle_cap
  Keeps-handle_cap params = search (sending_rules, Keeps-handle_cap_command)

  Keeps-handle_pong : (params : List String) → Keeps P (handle_pong params)
  unfolding handle_pong
  Keeps-handle_pong params = Keeps-modify _ (λ w h. s.timer w.self.ping_timer _ w h)

  Keeps-handle_query : (cmd : String) (params : List String) → Keeps P (handle_query cmd params)
  unfolding handle_query
  Keeps-handle_query cmd params =
      search
        (
          sending_rules, Keeps-handle_motd, Keeps-handle_lusers, Keeps-handle_version,
          Keeps-handle_admin, Keeps-handle_info, Keeps-handle_who,
        )
        depth 9

  Keeps-handle_command : (cmd : String) (params : List String) → Keeps P (handle_command cmd params)
  unfolding handle_command
  Keeps-handle_command cmd params =
      search
        (
          sending_rules, Keeps-handle_nick, Keeps-handle_user, Keeps-handle_quit, Keeps-handle_join,
          Keeps-handle_part, Keeps-handle_whois, Keeps-handle_ping, Keeps-handle_pong,
          Keeps-handle_mode, Keeps-handle_privmsg, Keeps-handle_notice, Keeps-handle_query,
        )
        depth 14

  Keeps-while_negotiating :
      (cmd : String) (params : List String) → Keeps P (while_negotiating cmd params)
  unfolding while_negotiating
  Keeps-while_negotiating cmd params = search (sending_rules, Keeps-handle_quit)

  pub Keeps-handle_message : (m : Ts6Message) → Keeps P (handle_message m)
  unfolding handle_message
  Keeps-handle_message m =
      search (sending_rules, Keeps-handle_cap, Keeps-while_negotiating, Keeps-handle_command) depth
        8

  Keeps-handle_parsed : (r : Result Ts6Message String) → Keeps P (handle_parsed r)
  unfolding handle_parsed
  Keeps-handle_parsed (ok m) = Keeps-handle_message m
  Keeps-handle_parsed (err e) = search sending_rules

  pub Keeps-handle_line : (line : String) → Keeps P (handle_line line)
  unfolding handle_line
  Keeps-handle_line line = Keeps-handle_parsed _

  pub Keeps-handle_connection_with_reader :
      (lines : List String) → Keeps P (handle_connection_with_reader lines)
  unfolding handle_connection_with_reader
  Keeps-handle_connection_with_reader lines = Keeps-for_each lines _ Keeps-handle_line
