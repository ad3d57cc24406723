-- ===== src/Client/Query.antt =====
-- src/client/query.rs: WHOIS, WHO, PRIVMSG and NOTICE.
pub mod Whois
use clandestine.Prelude.{String, List, [], ◌∷◌, Option, none, some, if◌then◌else◌}
use clandestine.Prelude.Text.{◌<>◌, starts_with_char}
use clandestine.Error.{protocol}
use clandestine.Ts6
use clandestine.Channel
use clandestine.Channel.{Channel, ClientId}
use clandestine.World.{Client, WhoisInfo}
use clandestine.Act.{Act, pure, raise, gets, unwrap, ok_or, ◌>>=◌, ◌>>◌, for_each}
use clandestine.Server.Clients.{lock, get_client, find_client_info, find_client_by_nick}
use clandestine.Server.Channels.{
  get_channel, await_read, reading, broadcast_to_channel, check_channel_membership,
}
use clandestine.Client.Send.{send_message_to, send_numeric, get_prefix}
use clandestine.Client.Membership.{locked_client}

unfoldable pub show_whois : String → Option WhoisInfo → Act (Unit {0})
show_whois target none = send_numeric 401 (target ∷ "No such nick/channel" ∷ [])
show_whois target (some info) = do
  send_numeric 311 (target ∷ info.username ∷ info.hostname ∷ "*" ∷ info.realname ∷ [])
  send_numeric 318 (target ∷ "End of /WHOIS list" ∷ [])

unfoldable pub handle_whois : List String → Act (Unit {0})
unfolding show_whois
handle_whois [] = raise (protocol "No nickname given")
handle_whois (target ∷ more) = do info ← find_client_info target; show_whois target info

abbrev pub or_empty : Option String → String
or_empty none = ""
or_empty (some s) = s

-- RPL_WHOREPLY for one client, with the status text for its nickname
unfoldable pub who_reply : String → (String → String) → Client → Act (Unit {0})
who_reply shown status member = do
  nick ← unwrap member.nickname
  user ← unwrap member.username
  server_name ← gets (λ w. w.self.server_name)
  send_numeric 352 (
      shown
      ∷ user
      ∷ member.hostname
      ∷ server_name
      ∷ nick
      ∷ status nick
      ∷ "0"
      ∷ or_empty member.realname
      ∷ [])

abbrev pub member_status : Channel → String → String
member_status channel nick = "H" <> (if Channel.has_mode "o" (some nick) channel then "@" else "")

unfoldable pub who_found : String → (String → String) → Option ClientId → Act (Unit {0})
unfolding who_reply
who_found shown status none = pure tt
who_found shown status (some id) = do member ← locked_client id; who_reply shown status member

-- The channel's read lock is held over the loop.
unfoldable pub who_channel : String → Act (Unit {0})
unfolding who_found
who_channel target = do
  found ← get_channel target
  channel ← ok_or found (protocol "No such channel")
  await_read target
  reading target (
      for_each (Channel.get_members channel) (λ member_id. do
        member ← get_client member_id
        who_found target (member_status channel) member))

unfoldable pub who_user : String → Act (Unit {0})
unfolding who_found
who_user target = do client ← find_client_by_nick target; who_found "*" (λ nick. "H") client

unfoldable pub handle_who : List String → Act (Unit {0})
unfolding who_channel who_user
handle_who [] = raise (protocol "No WHO target")
handle_who (target ∷ more) = do
  if starts_with_char "#" target then who_channel target else who_user target
  send_numeric 315 (target ∷ "End of WHO list" ∷ [])

abbrev pub text_message : String → String → String → Client → Ts6.Ts6Message
text_message command target text c = Ts6.with_source (get_prefix c) command (target ∷ text ∷ [])

unfoldable pub privmsg_user : String → String → Option ClientId → Act (Unit {0})
privmsg_user target text none = send_numeric 401 (target ∷ "No such nick/channel" ∷ [])
privmsg_user target text (some id) = do
  msg ← gets (λ w. text_message "PRIVMSG" target text w.self)
  lock id
  send_message_to id msg

unfoldable pub privmsg_to : String → String → Act (Unit {0})
unfolding privmsg_user
privmsg_to target text =
    if starts_with_char "#" target
    then (do
      id ← gets (λ w. w.self.id)
      member ← check_channel_membership target id
      msg ← gets (λ w. text_message "PRIVMSG" target text w.self)
      if member
          then broadcast_to_channel target msg (some id)
          else send_numeric 442 (target ∷ "You're not on that channel" ∷ []))
    else (do client ← find_client_by_nick target; privmsg_user target text client)

unfoldable pub privmsg_params : List String → Act (Unit {0})
unfolding privmsg_to
privmsg_params (target ∷ text ∷ more) = privmsg_to target text
privmsg_params _ = raise (protocol "Not enough parameters")

unfoldable pub handle_privmsg : List String → Act (Unit {0})
unfolding privmsg_params
handle_privmsg params = do
  registered ← gets (λ w. w.self.registered)
  if registered then privmsg_params params else raise (protocol "You must register first")

unfoldable pub notice_user : String → String → Option ClientId → Act (Unit {0})
notice_user target text none = pure tt
notice_user target text (some id) = do
  msg ← gets (λ w. text_message "NOTICE" target text w.self)
  lock id
  send_message_to id msg

unfoldable pub notice_to : String → String → Act (Unit {0})
unfolding notice_user
notice_to target text =
    if starts_with_char "#" target
    then (do
      id ← gets (λ w. w.self.id)
      member ← check_channel_membership target id
      msg ← gets (λ w. text_message "NOTICE" target text w.self)
      if member then broadcast_to_channel target msg (some id) else pure tt)
    else (do client ← find_client_by_nick target; notice_user target text client)

unfoldable pub notice_params : List String → Act (Unit {0})
unfolding notice_to
notice_params (target ∷ text ∷ more) = notice_to target text
notice_params _ = pure tt

unfoldable pub handle_notice : List String → Act (Unit {0})
unfolding notice_params
handle_notice params = do
  registered ← gets (λ w. w.self.registered)
  if registered then notice_params params else pure tt
