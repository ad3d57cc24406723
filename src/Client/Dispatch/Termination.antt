-- ===== src/Client/Dispatch/Termination.antt =====
-- Which commands come to an end whatever locks other tasks hold.
use clandestine.Prelude.{
  ℕ, String, Bool, true, false, List, [], ◌∷◌, ◌||◌, ◌&&◌, ◌≡◌, Option, none, some, arith, if_elim,
  if◌then◌else◌,
}
use clandestine.Prelude.Eq.{◌==◌, string_eq}
use clandestine.Prelude.Assoc.{Assoc}
use clandestine.Prelude.Text.{starts_with_char}
use clandestine.Ts6.{Ts6Message}
use clandestine.World.{World, WhoisInfo}
use clandestine.Act.{Act}
use clandestine.Act.Ends.{Ends, has_ended, ends_rules, Ends-bind, Ends-gets, Ends-if, Ends-panics}
use clandestine.Server.Clients.{find_client_info, answer}
use clandestine.Server.Registration.{register_nickname, unregister_nickname}
use clandestine.Client.Send.{write_raw, send_message, send_numeric}
use clandestine.Client.Registration.{
  start_ping_timer, send_motd, send_welcome, send_lusers, send_registration, complete_registration,
  check_registration,
}
use clandestine.Client.Capability.{set_negotiating, handle_cap_command}
use clandestine.Client.User.{
  unregister_old, take_nick, nick_params, handle_nick, user_params, handle_user, own_modes,
  handle_user_mode, broadcast_global, handle_quit,
}
use clandestine.Client.Membership.{handle_join, handle_part}
use clandestine.Client.Query.{show_whois, handle_whois, handle_privmsg, handle_notice}
use clandestine.Client.Info.{
  handle_ping, handle_pong, handle_motd, handle_version, handle_admin, handle_info,
}
use clandestine.Client.Dispatch.{
  handle_mode, handle_cap, while_negotiating, handle_query, handle_command, handle_message,
}

Ends-send_message : (m : Ts6Message) → Ends (send_message m)
unfolding send_message
Ends-send_message m = record { at = λ w. ground arith }

Ends-write_raw : (text : String) → Ends (write_raw text)
unfolding write_raw
Ends-write_raw text = record { at = λ w. ground arith }

Ends-send_numeric : (n : ℕ) (params : List String) → Ends (send_numeric n params)
unfolding send_numeric
Ends-send_numeric n params = search (ends_rules, Ends-send_message)

ruleset sends = (ends_rules, Ends-send_message, Ends-write_raw, Ends-send_numeric)

Ends-register_nickname : (nick : String) (id : ℕ) → Ends (register_nickname nick id)
unfolding register_nickname
Ends-register_nickname nick id = search ends_rules depth 8

Ends-unregister_nickname : (nick : String) → Ends (unregister_nickname nick)
unfolding unregister_nickname
Ends-unregister_nickname nick = search ends_rules

Ends-send_motd : Ends send_motd
unfolding send_motd
Ends-send_motd = search sends

Ends-start_ping_timer : Ends start_ping_timer
unfolding start_ping_timer
Ends-start_ping_timer = search ends_rules

Ends-send_registration : Ends send_registration
unfolding send_registration send_welcome send_lusers
Ends-send_registration = search (sends, Ends-send_motd, Ends-start_ping_timer) depth 12

Ends-check_registration : Ends check_registration
unfolding check_registration complete_registration
Ends-check_registration = search (sends, Ends-send_registration) depth 12

Ends-unregister_old : (o : Option String) → Ends (unregister_old o)
unfolding unregister_old
Ends-unregister_old none = search ends_rules
Ends-unregister_old (some nick) = Ends-unregister_nickname nick

Ends-handle_nick : (params : List String) → Ends (handle_nick params)
unfolding handle_nick nick_params take_nick
Ends-handle_nick [] = search sends
Ends-handle_nick (nick ∷ more) =
    search (sends, Ends-register_nickname, Ends-unregister_old, Ends-check_registration) depth 12

Ends-user_params : (params : List String) → Ends (user_params params)
unfolding user_params
Ends-user_params (username ∷ mode ∷ unused ∷ realname ∷ more) =
    search (sends, Ends-check_registration)
Ends-user_params _ = search sends

Ends-handle_user : (params : List String) → Ends (handle_user params)
unfolding handle_user
Ends-handle_user params = search (sends, Ends-user_params) depth 9

Ends-own_modes : (params : List String) → Ends (own_modes params)
unfolding own_modes
Ends-own_modes [] = search sends
Ends-own_modes (modes ∷ more) = search sends

Ends-handle_user_mode : (params : List String) → Ends (handle_user_mode params)
unfolding handle_user_mode
Ends-handle_user_mode [] = search sends
Ends-handle_user_mode (target ∷ more) = search (sends, Ends-own_modes) depth 8

Ends-handle_quit : (params : List String) → Ends (handle_quit params)
unfolding handle_quit broadcast_global
Ends-handle_quit params = search sends

Ends-show_whois : (target : String) (o : Option WhoisInfo) → Ends (show_whois target o)
unfolding show_whois
Ends-show_whois target none = search sends
Ends-show_whois target (some i) = search sends

Ends-find_client_info : (nickname : String) → Ends (find_client_info nickname)
unfolding find_client_info
Ends-find_client_info nickname = Ends-bind _ _ (Ends-gets _) ended
  where
    ended : (tx : Option (Assoc String WhoisInfo)) → Ends (answer tx nickname)
    ended none = Ends-panics
    ended (some table) = Ends-gets _

Ends-handle_whois : (params : List String) → Ends (handle_whois params)
unfolding handle_whois
Ends-handle_whois [] = search sends
Ends-handle_whois (target ∷ more) = search (sends, Ends-show_whois, Ends-find_client_info)

Ends-handle_cap_command : (params : List String) → Ends (handle_cap_command params)
unfolding handle_cap_command set_negotiating
Ends-handle_cap_command [] = search sends
Ends-handle_cap_command (subcommand ∷ []) = search sends depth 9
Ends-handle_cap_command (subcommand ∷ requested ∷ more) = search sends depth 9

Ends-handle_cap : (params : List String) → Ends (handle_cap params)
unfolding handle_cap
Ends-handle_cap params = search (sends, Ends-handle_cap_command)

Ends-handle_ping : (params : List String) → Ends (handle_ping params)
unfolding handle_ping
Ends-handle_ping [] = search sends
Ends-handle_ping (cookie ∷ more) = search sends

Ends-handle_pong : (params : List String) → Ends (handle_pong params)
unfolding handle_pong
Ends-handle_pong params = search sends

Ends-while_negotiating : (cmd : String) (params : List String) → Ends (while_negotiating cmd params)
unfolding while_negotiating
Ends-while_negotiating cmd params = search (sends, Ends-handle_quit)

-- The commands that look at other clients, at a channel, or at the map of channels.
abbrev pub names_channel : List String → Bool
names_channel [] = false
names_channel (target ∷ more) = starts_with_char "#" target

abbrev pub may_wait : Ts6Message → Bool
may_wait m =
    (m.command == "JOIN")
    || (m.command == "PART")
    || (m.command == "WHO")
    || (m.command == "PRIVMSG")
    || (m.command == "NOTICE")
    || (m.command == "LUSERS")
    || ((m.command == "MODE") && names_channel m.params)

Ends-skipped {ℓ} :
    {A : Type ℓ} (b : Bool) (m n : Act A) → b ≡ false → Ends n → Ends (if b then m else n)
Ends-skipped true m n e en = ground arith
Ends-skipped false m n e en = en

Ends-handle_mode : (params : List String) → names_channel params ≡ false → Ends (handle_mode params)
unfolding handle_mode
Ends-handle_mode [] h = search sends
Ends-handle_mode (target ∷ more) h = Ends-skipped _ _ _ h (Ends-handle_user_mode _)

Ends-handle_query :
    (cmd : String) (params : List String)
    → (cmd == "WHO") ≡ false
    → (cmd == "LUSERS") ≡ false
    → Ends (handle_query cmd params)
unfolding handle_query handle_motd handle_version handle_admin handle_info
Ends-handle_query cmd params h l = search (sends, Ends-send_motd, Ends-skipped) depth 16

Ends-handle_command :
    (m : Ts6Message) → may_wait m ≡ false → Ends (handle_command m.command m.params)
unfolding handle_command
Ends-handle_command m h =
    let q = Ends-handle_query m.command m.params (ground arith) (ground arith) in
    let texts =
      Ends-skipped (m.command == "PRIVMSG") (handle_privmsg m.params) _ (ground arith)
        (Ends-skipped (m.command == "NOTICE") (handle_notice m.params) _ (ground arith) q) in
    let modes =
      if_elim Ends (m.command == "MODE") (handle_mode m.params) _
        (λ e. Ends-handle_mode m.params (ground arith)) (λ e. texts) in
    let pong = Ends-if (m.command == "PONG") _ _ (Ends-handle_pong m.params) modes in
    let ping = Ends-if (m.command == "PING") _ _ (Ends-handle_ping m.params) pong in
    let whois = Ends-if (m.command == "WHOIS") _ _ (Ends-handle_whois m.params) ping in
    let part = Ends-skipped (m.command == "PART") (handle_part m.params) _ (ground arith) whois in
    let join = Ends-skipped (m.command == "JOIN") (handle_join m.params) _ (ground arith) part in
    let quit = Ends-if (m.command == "QUIT") _ _ (Ends-handle_quit m.params) join in
    let user = Ends-if (m.command == "USER") _ _ (Ends-handle_user m.params) quit in
    Ends-if (m.command == "NICK") _ _ (Ends-handle_nick m.params) user

-- A message with any command but JOIN, PART, WHO, PRIVMSG, NOTICE, LUSERS, and MODE on a channel: its
-- handler comes to an end in every world, whatever locks the other tasks hold, and also if this client's
-- connection is negotiating capabilities.
pub handle_message-ends :
    (m : Ts6Message) (w : World) → may_wait m ≡ false → has_ended (handle_message m w).0 ≡ true
unfolding handle_message
handle_message-ends m w h = Ends.at ended w
  where
    ended : Ends (handle_message m)
    ended = Ends-if _ _ _ (Ends-handle_cap _) (
        Ends-bind _ _ (Ends-gets _) (λ negotiating.
          Ends-if negotiating _ _ (Ends-while_negotiating _ _) (Ends-handle_command m h)))
