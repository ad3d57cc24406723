-- ===== src/Tests/Connections.antt =====
-- Examples over several connections, and from the start of the program.
use clandestine.Prelude.{ℕ, String, true, false, List, [], ◌∷◌, some, ◌≡◌, refl, arith}
use clandestine.Prelude.Assoc
use clandestine.Prelude.Set
use clandestine.Prelude.Eq.{nat_eq, string_eq}
use clandestine.World.{Server}
use clandestine.Server.Run.{Event, accepted, line, closed, elapsed, Process, step, run, start}
use clandestine.Invariant.Registered.{IsNamed}
use clandestine.Invariant.Events.{accepts}
use clandestine.Invariant.Connections.{run-names_unique}
use clandestine.Invariant.Idle.{Idle, without_queue, names_never_freed}
use clandestine.Invariant.Timeout.{elapsed-Idle}
use clandestine.Invariant.Listed.{Listed}
use clandestine.Invariant.Tables.{run-Listed}
use clandestine.Ts6.Parser.{parse_message}
use clandestine.Act.{◌>>=◌, with_locks, for_each}
use clandestine.Server.Channels.{get_client_channels}
use clandestine.Server.Clients.{remove_client}
use clandestine.Server.Registration.{register_nickname}
use clandestine.Client.Registration.{check_registration}
use clandestine.Client.User.{handle_nick}
use clandestine.Client.Dispatch.{handle_message, cleanup}
use clandestine.Tests.{env, server}

abbrev new_server : Server
new_server = record server { clients = []; client_map = []; channels = [] }

-- two clients, of which one takes a name, and tries to take another
abbrev events : List Event
events = accepted "10.0.0.1" ∷ accepted "10.0.0.2" ∷ line 1 "NICK alice" ∷ line 2 "NICK alice" ∷ []

abbrev process : Process
process = run events (start env 5 new_server)

run-names_unique_example :
    IsNamed (process.objects 1)
    × ((a b : String)
        → (process.objects 1).nickname ≡ some a
        → (process.objects 2).nickname ≡ some b
        → process.env.to_lowercase a ≡ process.env.to_lowercase b
        → ◌≡◌ {A = ℕ} 1 2)
unfolding accepts
run-names_unique_example = run-names_unique events env 5 new_server (omega arith) 1 2

run-Listed_example : Listed 3 process
unfolding accepts
run-Listed_example = run-Listed events env 5 new_server refl refl (omega arith)

one_reads : Set.contains 1 process.reading ≡ true
unfolding run Set.contains parse_message handle_message ◌>>=◌ handle_nick register_nickname
    Assoc.get check_registration Assoc.insert cleanup remove_client Set.remove get_client_channels
    with_locks for_each
one_reads = refl

elapsed-Idle_example :
    Idle 1 true (without_queue (process.objects 1)) (run events (step (elapsed 1) process))
unfolding accepts
elapsed-Idle_example = elapsed-Idle events events env 5 new_server 1 (omega arith) one_reads

-- a client that takes a name and leaves
abbrev left_early : List Event
left_early = accepted "10.0.0.1" ∷ line 1 "NICK alice" ∷ closed 1 ∷ []

abbrev left : Process
left = run left_early (start env 5 new_server)

left_reads_nothing : Set.contains 1 left.reading ≡ false
unfolding run Set.contains parse_message handle_message ◌>>=◌ handle_nick register_nickname
    Assoc.get check_registration Assoc.insert cleanup remove_client Set.remove get_client_channels
    with_locks for_each
left_reads_nothing = refl

left_waits_not : Set.contains 1 left.waiting ≡ false
unfolding run Set.contains parse_message handle_message ◌>>=◌ handle_nick register_nickname
    Assoc.get check_registration Assoc.insert cleanup remove_client Set.remove get_client_channels
    with_locks for_each
left_waits_not = refl

left_named : (left.objects 1).nickname ≡ some "alice"
unfolding run Set.contains parse_message handle_message ◌>>=◌ handle_nick register_nickname
    Assoc.get check_registration Assoc.insert cleanup remove_client Set.remove get_client_channels
    with_locks for_each
left_named = refl

names_never_freed_example :
    (((run events left).objects 1).nickname ≡ some "alice")
    × (Assoc.get ((run events left).env.to_lowercase "alice") (run events left).server.nickname_map
        ≡ some 1)
unfolding accepts
names_never_freed_example =
    names_never_freed left_early events env 5 new_server 1 "alice" (omega arith) (omega arith)
      left_reads_nothing left_waits_not left_named
