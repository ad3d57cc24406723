-- ===== src/Client/Registration.antt =====
-- src/client/registration.rs, and the start of the ping task of src/client/ping.rs.
pub mod Order
pub mod Burst
use clandestine.Prelude.{String, Bool, true, not, ◌&&◌, [], ◌∷◌, if◌then◌else◌}
use clandestine.Prelude.Assoc.{is_some}
use clandestine.Prelude.Text.{◌<>◌}
use clandestine.World.{Client}
use clandestine.Act.{Act, pure, gets, unwrap, set_self, modify, ◌>>=◌, ◌>>◌}
use clandestine.Client.Send.{get_mask, send_numeric}

-- The task is a state machine of its own (Ping); here it is noted that it runs. It begins with no
-- notification: it subscribes to those that come after.
unfoldable pub start_ping_timer : Act (Unit {0})
unfolding modify
start_ping_timer = set_self (λ c. record c { ping_timer = true; pong_tx = 0 })

abbrev pub isupport : String
isupport =
    "CHANTYPES=# EXCEPTS INVEX CHANMODES=eIbq,k,flj,CFLMPQScgimnprstuz CHANLIMIT=#:100 PREFIX=(ov)@+ MAXLIST=bqeI:100 MODES=4 NETWORK=ExampleNet STATUSMSG=@+ CALLERID=g CASEMAPPING=rfc1459 :are supported by this server"

unfoldable pub send_motd : Act (Unit {0})
send_motd = do
  send_numeric 375 ("- Message of the day" ∷ [])
  send_numeric 372 ("- Welcome to IRCd-rs!" ∷ [])
  send_numeric 376 ("End of /MOTD command." ∷ [])

unfoldable pub send_welcome : Act (Unit {0})
send_welcome = do
  c ← gets (λ w. w.self)
  date ← gets (λ w. w.env.date w.now)
  send_numeric 1 (("Welcome to " <> c.server_name <> " " <> get_mask c) ∷ [])
  send_numeric 2 (("Your host is " <> c.server_name <> ", running ircd-rs v0.1.0") ∷ [])
  send_numeric 3 (("This server was created " <> date) ∷ [])
  send_numeric 4 (
      c.server_name ∷ "ircd-rs-0.1.0" ∷ "iowghraAsORTVSxNCWqBzvdHtGp" ∷ "bkloveqjfI" ∷ "bklov" ∷ [])
  send_numeric 5 (isupport ∷ [])

unfoldable pub send_lusers : Act (Unit {0})
send_lusers = do
  send_numeric 251 ("There are 0 users and 0 invisible on 1 server" ∷ [])
  send_numeric 252 ("0" ∷ "operator(s) online" ∷ [])
  send_numeric 254 ("0" ∷ "channels formed" ∷ [])
  send_numeric 255 ("I have 1 clients and 0 servers" ∷ [])
  send_numeric 265 ("Current local users: 1, Max: 1" ∷ [])
  send_numeric 266 ("Current global users: 1, Max: 1" ∷ [])

unfoldable pub send_registration : Act (Unit {0})
send_registration = do send_welcome; send_lusers; send_motd; start_ping_timer

abbrev pub mark_registered : Client → Client
mark_registered c = record c { registered = true }

unfoldable pub complete_registration : Act (Unit {0})
complete_registration = do
  nickname ← gets (λ w. w.self.nickname)
  unwrap nickname
  set_self mark_registered
  send_registration

-- The condition under which `check_registration` completes the registration.
abbrev pub is_ready : Client → Bool
is_ready c = not c.registered && is_some c.nickname && is_some c.username && not c.cap_negotiating

unfoldable pub check_registration : Act (Unit {0})
check_registration = do
  ready ← gets (λ w. is_ready w.self)
  if ready then complete_registration else pure tt

abbrev pub is_registered : Client → Bool
is_registered c = c.registered
