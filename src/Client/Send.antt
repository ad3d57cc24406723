-- ===== src/Client/Send.antt =====
-- src/client/mod.rs, message.rs, numeric.rs and error.rs: how texts reach the writer task.
use clandestine.Prelude.{
  ℕ, String, Bool, false, List, [], ◌∷◌, ◌++◌, Option, none, some, if◌then◌else◌, ◌&&◌, ◌≡◌, refl,
  same,
}
use clandestine.Prelude.Text.{◌<>◌, decimal3}
use clandestine.Error.{IrcError, io}
use clandestine.Ts6.{Ts6Message, to_string}
use clandestine.Ts6
use clandestine.Channel.{ClientId}
use clandestine.World.{Client, update}
use clandestine.Act.{Act, done, fail, gets, ◌>>=◌}

abbrev pub channel_closed : IrcError
channel_closed = io "Channel closed"

-- `data.ends_with(b"\r\n")`
ends_with_crlf : String → Bool
ends_with_crlf String.[] = false
ends_with_crlf (String.◌∷◌ c String.[]) = false
ends_with_crlf (String.◌∷◌ c (String.◌∷◌ d String.[])) = same c "\r" && same d "\n"
ends_with_crlf (String.◌∷◌ c (String.◌∷◌ d (String.◌∷◌ e s))) =
    ends_with_crlf (String.◌∷◌ d (String.◌∷◌ e s))

pub with_crlf : String → String
unfolding ends_with_crlf
with_crlf data_text = if ends_with_crlf data_text then data_text else data_text <> "\r\n"

unfoldable pub write_raw : String → Act (Unit {0})
unfolding with_crlf
write_raw text w =
    if w.self.writer_open
    then (done tt, record w { self = record w.self { tx = w.self.tx ++ with_crlf text ∷ [] } })
    else (fail channel_closed, w)

-- the queue of a client after `sendq_tx.send`
abbrev pub queued : String → Client → Client
queued text c = record c { sendq_tx = c.sendq_tx ++ text ∷ [] }

abbrev pub wire : Ts6Message → String
wire m = to_string m <> "\r\n"

unfoldable pub send_message : Ts6Message → Act (Unit {0})
send_message m w =
    if w.self.writer_open
    then (done tt, record w { self = queued (wire m) w.self })
    else (fail channel_closed, w)

-- `send_message` of another client, whose mutex the task has taken
unfoldable pub send_message_to : ClientId → Ts6Message → Act (Unit {0})
send_message_to id m w =
    if (w.peers id).writer_open
    then (done tt, record w { peers = update w.peers id (queued (wire m) (w.peers id)) })
    else (fail channel_closed, w)

abbrev pub or_star : Option String → String
or_star none = "*"
or_star (some s) = s

unfoldable pub numeric_message : ℕ → List String → Client → Ts6Message
numeric_message numeric params c =
    Ts6.with_source c.server_name (decimal3 numeric) (or_star c.nickname ∷ params)

unfoldable pub send_numeric : ℕ → List String → Act (Unit {0})
unfolding numeric_message
send_numeric numeric params = do
  message ← gets (λ w. numeric_message numeric params w.self)
  send_message message

unfoldable pub send_error : String → Act (Unit {0})
send_error msg = write_raw ("ERROR :" <> msg <> "\r\n")

-- src/client/mod.rs
unfoldable pub get_mask : Client → String
get_mask c = or_star c.nickname <> "!" <> or_star c.username <> "@" <> c.hostname

abbrev pub prefix_of : Option String → Option String → String → String
prefix_of (some nick) (some user) host = nick <> "!" <> user <> "@" <> host
prefix_of _ _ host = "unknown@" <> host

unfoldable pub get_prefix : Client → String
get_prefix c = prefix_of c.nickname c.username c.hostname

crlf_kept : with_crlf "ERROR :x\r\n" ≡ "ERROR :x\r\n"
unfolding with_crlf
crlf_kept = refl

crlf_added : with_crlf "" ≡ "\r\n"
unfolding with_crlf
crlf_added = refl
