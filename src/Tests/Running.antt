-- ===== src/Tests/Running.antt =====
-- Examples with two registered clients whose connections run.
use clandestine.Prelude.{true, false, List, [], ◌∷◌, ◌≡◌, refl, arith}
use clandestine.Prelude.Assoc
use clandestine.Prelude.Set
use clandestine.Prelude.Eq.{nat_eq, string_eq}
use clandestine.World.{Server}
use clandestine.Server.Run.{Event, accepted, line, Process, step, run, start}
use clandestine.Invariant.Events.{accepts, run-Sound, start-Sound}
use clandestine.Invariant.Tasks.{Sound}
use clandestine.Invariant.Listed.{Listed}
use clandestine.Invariant.Tables.{run-Listed}
use clandestine.Ts6
use clandestine.Ts6.{Ts6Message}
use clandestine.Ts6.Parser.{parse_message}
use clandestine.Act.{◌>>=◌}
use clandestine.Server.Registration.{register_nickname}
use clandestine.Client.Send.{send_message, send_numeric}
use clandestine.Client.Registration.{
  start_ping_timer, send_motd, send_welcome, send_lusers, send_registration, complete_registration,
  check_registration,
}
use clandestine.Client.User.{handle_nick, handle_user}
use clandestine.Client.Dispatch.{handle_message}
use clandestine.Act.{done, for_each}
use clandestine.Delivery.Joining.{join-waits}
use clandestine.Channel.{Channel}
use clandestine.Prelude.{Option, none, some}
use clandestine.Client.Dispatch.Session.{cap, negotiated, negotiation_lem}
use clandestine.Tests.{newcomer, world_of, env, server, room}

-- a server that has a channel already
abbrev quiet_server : Server
quiet_server = record server { clients = []; client_map = [] }

abbrev events : List Event
events =
    accepted "10.0.0.1"
    ∷ accepted "10.0.0.2"
    ∷ line 1 "NICK alice"
    ∷ line 1 "USER a 0 * :Alice"
    ∷ line 2 "NICK bob"
    ∷ line 2 "USER b 0 * :Bob"
    ∷ []

abbrev process : Process
process = run events (start env 5 quiet_server)

process-Sound : Sound 3 process
unfolding accepts
process-Sound = run-Sound events (start-Sound env 5 quiet_server) refl (omega arith)

process-Listed : Listed 3 process
unfolding accepts
process-Listed = run-Listed events env 5 quiet_server refl refl (omega arith)

abbrev to_bob : Ts6Message
to_bob = Ts6.new "PRIVMSG" ("bob" ∷ "hi" ∷ [])

abbrev later : List Event
later = line 2 "PING x" ∷ accepted "10.0.0.3" ∷ []

abbrev sent : Process
sent = step (line 1 "PRIVMSG bob :hi") process

join-waits_example :
    (Set.contains 1 (step (line 1 "JOIN #b") process).waiting ≡ true)
    × (Set.contains 1 (step (line 1 "JOIN #b") process).reading ≡ false)
unfolding run parse_message Set.contains handle_message ◌>>=◌ handle_nick register_nickname
    Assoc.get check_registration handle_user complete_registration send_registration send_welcome
    send_numeric send_message send_lusers send_motd start_ping_timer Assoc.insert
join-waits_example =
    join-waits process 1 "JOIN #b" "#b" "alice" [] (Ts6.new "JOIN" ("#b" ∷ [])) process-Sound
      process-Listed refl refl refl refl refl refl refl

negotiation_lem_example :
    for_each
      (cap "LS"
        ∷ Ts6.new "NICK" ("carol" ∷ [])
        ∷ Ts6.new "USER" ("c" ∷ "0" ∷ "*" ∷ "Carol" ∷ [])
        ∷ cap "END"
        ∷ [])
      handle_message
      (world_of newcomer)
    ≡ (done tt, negotiated (world_of newcomer))
unfolding newcomer
negotiation_lem_example =
    negotiation_lem
      (Ts6.new "NICK" ("carol" ∷ []) ∷ Ts6.new "USER" ("c" ∷ "0" ∷ "*" ∷ "Carol" ∷ []) ∷ [])
      (world_of newcomer) (refl, (refl, tt)) refl

-- a channel that a client has made, whose JOIN waits, and three more clients
abbrev arrivals : List Event
arrivals =
    accepted "10.0.0.1"
    ∷ accepted "10.0.0.2"
    ∷ accepted "10.0.0.3"
    ∷ accepted "10.0.0.4"
    ∷ line 4 "NICK dave"
    ∷ line 4 "JOIN #a"
    ∷ []

abbrev joined : Process
joined = run arrivals (start env 5 (record quiet_server { channels = [] }))

abbrev or_room : Option Channel → Channel
or_room none = room
or_room (some ch) = ch
