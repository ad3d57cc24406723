-- ===== src/Invariant/Connections.antt =====
-- Nicknames over all connections of src/server/mod.rs.
use clandestine.Prelude.{ℕ, ◌+◌, ◌^◌, ◌<◌, String, List, some, ◌≡◌, refl, sym, ap, ◌∙◌, subst}
use clandestine.Prelude.Assoc
use clandestine.Prelude.Eq.{string_eq}
use mathlib.Core.Option.{some-injective}
use clandestine.Channel.{ClientId, DateTime}
use clandestine.World.{Env, Server}
use clandestine.Invariant.Registered.{IsNamed}
use clandestine.Invariant.Nicknames.{Leads}
use clandestine.Invariant.Tasks.{Sound}
use clandestine.Invariant.Events.{accepts, run-Sound, start-Sound}
use clandestine.Server.Run.{Event, Process, world_for, run, start}

pub led_to :
    {n : ℕ} {p : Process} (j : ClientId) (nick : String)
    → Sound n p
    → (p.objects j).nickname ≡ some nick
    → Assoc.get (p.env.to_lowercase nick) p.server.nickname_map ≡ some j
led_to {p = p} j nick h q = subst (λ o. Leads (world_for j p) o j) q (h.leads j)

Sound-names_unique :
    {n : ℕ} {p : Process} (i j : ClientId) (a b : String)
    → Sound n p
    → (p.objects i).nickname ≡ some a
    → (p.objects j).nickname ≡ some b
    → p.env.to_lowercase a ≡ p.env.to_lowercase b
    → i ≡ j
Sound-names_unique {p = p} i j a b h q r e =
    some-injective i j
      (sym (led_to i a h q) ∙ ap (λ k. Assoc.get k p.server.nickname_map) e ∙ led_to j b h r)

-- Whatever happens to a server after its start, in any order of new connections, lines of any clients,
-- ends and timeouts, with fewer connections than the ids of 32 bits allow: two clients whose nicknames
-- have one lower case are one client, and every registered client has a nickname and a username.
pub run-names_unique :
    (es : List Event) (env : Env) (now : DateTime) (server : Server)
    → 1 + accepts es < 2 ^ 32
    → (i j : ClientId)
    → IsNamed ((run es (start env now server)).objects i)
      × ((a b : String)
          → ((run es (start env now server)).objects i).nickname ≡ some a
          → ((run es (start env now server)).objects j).nickname ≡ some b
          → (run es (start env now server)).env.to_lowercase a
            ≡ (run es (start env now server)).env.to_lowercase b
          → i ≡ j)
run-names_unique es env now server l i j =
    let h = run-Sound es (start-Sound env now server) refl l in
    ((h.objects_ok i).1, λ a b. Sound-names_unique i j a b h)
