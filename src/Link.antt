-- ===== src/Link.antt =====
-- src/link/mod.rs: the link to another server. A method returns its result and the changed link.
pub mod Replies
use clandestine.Prelude.{
  ℕ, zero, suc, String, Bool, true, false, List, [], ◌∷◌, ◌++◌, if◌then◌else◌,
}
use clandestine.Prelude.Eq.{◌==◌, string_eq}
use clandestine.Prelude.Text.{◌<>◌, join}
use clandestine.Error.{IrcError, io, protocol, Result, ok, err}
use clandestine.Ts6
use clandestine.Ts6.{Ts6Message, to_string}
use clandestine.Ts6.Parser.{parse_message}

pub record ServerLink : Type 0 where
  pub name : String
  pub sid : String
  pub description : String
  pub password : String
  pub incoming : Bool
  pub capabilities : List String
  -- what has been written to the socket, oldest first, and how many more messages it takes before a
  -- write fails
  pub written : List String
  pub writable : ℕ

-- `ServerLink::new`, over a connected socket
unfoldable pub new : ℕ → String → String → String → String → ServerLink
new writable name sid description password = record {
  name = name;
  sid = sid;
  description = description;
  password = password;
  incoming = false;
  capabilities = "QS" ∷ "ENCAP" ∷ "TB" ∷ "SAVE" ∷ "SERVICES" ∷ [];
  written = [];
  writable = writable;
}

abbrev pub Method : Type 0
Method = ServerLink → Result (Unit {0}) IrcError × ServerLink

-- `m?; n`
abbrev pub then_if_ok :
    Method → Result (Unit {0}) IrcError × ServerLink → Result (Unit {0}) IrcError × ServerLink
then_if_ok n (ok u, l) = n l
then_if_ok n (err e, l) = (err e, l)

infixl 10 ◌>>◌
abbrev pub ◌>>◌ : Method → Method → Method
◌>>◌ m n l = then_if_ok n (m l)

abbrev finish : Method
finish l = (ok tt, l)

abbrev pub write_all : ℕ → String → Method
write_all zero text l = (err (io "Broken pipe"), l)
write_all (suc n) text l = (ok tt, record l { written = l.written ++ text ∷ []; writable = n })

unfoldable pub send_message : Ts6Message → Method
send_message message l = write_all l.writable (to_string message <> "\r\n") l

unfoldable pub send_pass : Method
unfolding send_message
send_pass l = send_message (Ts6.new "PASS" (l.password ∷ "TS" ∷ "6" ∷ l.sid ∷ [])) l

unfoldable pub send_capab : Method
unfolding send_message
send_capab l = send_message (Ts6.new "CAPAB" (join " " l.capabilities ∷ [])) l

unfoldable pub send_server : Method
unfolding send_message
send_server l = send_message (Ts6.new "SERVER" (l.name ∷ "1" ∷ l.description ∷ [])) l

-- Both bursts are still empty.
abbrev send_users_burst : Method
send_users_burst = finish

abbrev send_channels_burst : Method
send_channels_burst = finish

unfoldable pub send_burst : Method
unfolding send_message
send_burst = send_users_burst >> (send_channels_burst >> send_message (Ts6.new "EOB" []))

unfoldable pub handle_message : Ts6Message → Method
unfolding send_message
handle_message message =
    if message.command == "PING"
    then send_message (Ts6.new "PONG" message.params)
    else if message.command == "SQUIT"
    then (λ l. (err (protocol "Server quit"), l))
    else finish

handle_parsed : Result Ts6Message String → Method
handle_parsed (ok msg) = handle_message msg
handle_parsed (err e) = finish

-- The lines as `read_line` gives them, each with its line end.
unfoldable pub handle_connection : List String → Method
unfolding handle_parsed
handle_connection [] = finish
handle_connection (line ∷ lines) = handle_parsed (parse_message line) >> handle_connection lines
