-- ===== src/Delivery/Joining.antt =====
-- JOIN in a process of src/server/mod.rs.
use clandestine.Prelude.{ℕ, String, true, false, List, ◌∷◌, some, ◌≡◌, ◌∙◌, ap, sym, subst, arith}
use clandestine.Prelude.Set
use clandestine.Prelude.Eq.{nat_eq, string_eq}
use clandestine.Error.{ok}
use clandestine.Ts6.{Ts6Message}
use clandestine.Ts6.Parser.{parse_message}
use clandestine.Channel.{ClientId}
use clandestine.World.{World}
use clandestine.Act.{Outcome, ◌>>=◌}
use clandestine.Server.Run.{line, Process, world_for, read_line, step}
use clandestine.Client.Membership.{handle_join}
use clandestine.Client.Membership.Blocked.{handle_join-blocked}
use clandestine.Client.Dispatch.{handle_command, handle_message, handle_parsed, handle_line}
use clandestine.Invariant.Tasks.{Sound}
use clandestine.Invariant.Listed.{Listed}
use clandestine.Delivery.Running.{after-blocked}

-- From a line to the handler.
pub handle_line-join :
    (text : String) (m : Ts6Message) (params : List String) (w : World)
    → parse_message text ≡ ok m
    → m.command ≡ "JOIN"
    → m.params ≡ params
    → w.self.cap_negotiating ≡ false
    → handle_line text w ≡ handle_join params w
unfolding handle_line handle_parsed handle_message handle_command ◌>>=◌
handle_line-join text m params w e c q n = rw e (rw c (ground (arith, n, q)))

-- In a sound process whose tables list the clients that run: a client that has a nickname, does not
-- negotiate capabilities, and whose writer task runs, sends JOIN with a channel, whichever it is and
-- whoever is there, in it or on the server. Then its task waits for a lock and reads no line any more.
pub join-waits :
    {n : ℕ} (p : Process) (i : ClientId) (text channel nick : String) (more : List String)
    (m : Ts6Message)
    → Sound n p
    → Listed n p
    → Set.contains i p.reading ≡ true
    → (p.objects i).nickname ≡ some nick
    → (p.objects i).cap_negotiating ≡ false
    → (p.objects i).writer_open ≡ true
    → parse_message text ≡ ok m
    → m.command ≡ "JOIN"
    → m.params ≡ channel ∷ more
    → (Set.contains i (step (line i text) p).waiting ≡ true)
      × (Set.contains i (step (line i text) p).reading ≡ false)
unfolding step read_line
join-waits p i text channel nick more m s l reads named ng open_queue e c q = rw reads (
    after-blocked i p (handle_line text (world_for i p)) (
      ap (λ (o : Outcome (Unit {0}) × World). o.0)
        (handle_line-join text m (channel ∷ more) (world_for i p) e c q ng)
      ∙ handle_join-blocked channel nick more (world_for i p) named open_queue (
          subst (λ k. Set.contains k p.server.client_map ≡ true) (sym (s.objects_ok i).0)
            (l.reading_listed i reads).0)))
