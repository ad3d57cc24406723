-- ===== src/Invariant/Tables.antt =====
-- The tables of clients over all connections of src/server/mod.rs.
use clandestine.Prelude.{
  ℕ, ◌+◌, ◌^◌, ◌<◌, String, false, List, [], ◌∷◌, ◌≡◌, refl, subst, arith, ==_iff,
}
use clandestine.Prelude.Set
use clandestine.Prelude.Set.{Distinct, contains-insert, contains-remove}
use clandestine.Prelude.Eq.{nat_eq}
use clandestine.Channel.{DateTime}
use clandestine.World.{Env, Server}
use clandestine.Act.{◌>>=◌}
use clandestine.Invariant.Tasks.{Sound}
use clandestine.Invariant.Upkeep.{brings, step_keeps}
use clandestine.Invariant.Events.{own_ids, accepts, step-Sound, start-Sound}
use clandestine.Server.Clients.{add_client}
use clandestine.Server.Clients.InSync.{add_client-InSync}
use clandestine.Server.Run.{
  Event, accepted, Process, world_for, generate_client_id, connect, step, run, start,
}
use clandestine.Invariant.Listed.{Listed, Listed-Upkeep}

not_known : {n : ℕ} {p : Process} → Listed n p → Set.contains n p.server.client_map ≡ false
not_known {n} {p} h = ground (arith, h.known n)

connect-Listed :
    {n : ℕ} {p : Process} (ip : String) → Sound n p → Listed n p → Listed (n + 1) (connect ip p)
unfolding connect generate_client_id add_client Set.contains ◌>>=◌
connect-Listed {n} {p} ip o h =
    let e : p.next_client_id ≡ n = o.next in
    let new : Set.contains p.next_client_id p.server.client_map ≡ false = rw e (not_known h) in
    record {
      synced = add_client-InSync p.next_client_id (world_for p.next_client_id p) new h.synced;
      known = λ j m. ground (
        arith,
        contains-insert p.next_client_id j p.server.client_map,
        h.known j,
        ==_iff p.next_client_id j,
      );
      reading_listed = λ j m. ground (
        arith,
        contains-insert p.next_client_id j p.server.client_map,
        h.reading_listed j,
        h.waiting_listed p.next_client_id,
        ==_iff p.next_client_id j,
      );
      waiting_listed = λ j m.
          ground
            (arith, contains-insert p.next_client_id j p.server.client_map, h.waiting_listed j);
    }

as_many : {n m : ℕ} {p : Process} → n + 0 ≡ m → Listed n p → Listed m p
as_many {p = p} q h = subst (λ k. Listed k p) (omega (arith, q)) h

step-Listed :
    {n m : ℕ} {p : Process} (e : Event)
    → Sound n p
    → n + brings e ≡ m
    → Listed n p
    → Listed m (step e p)
unfolding step
step-Listed {p = p} (accepted ip) o q h =
    subst (λ k. Listed k (connect ip p)) q (connect-Listed ip o h)
step-Listed {n} {p = p} e o q h = as_many q (step_keeps (Listed-Upkeep n) p e refl (own_ids o) h)

events-Listed :
    (es : List Event) {n m : ℕ} {p : Process}
    → Sound n p
    → n + accepts es ≡ m
    → m < 2 ^ 32
    → Listed n p
    → Listed m (run es p)
unfolding run accepts
events-Listed [] o q b h = as_many q h
events-Listed (e ∷ es) o q b h =
    events-Listed es (step-Sound e o refl (omega arith)) (omega arith) b (step-Listed e o refl h)

start-Listed :
    (env : Env) (now : DateTime) (server : Server)
    → server.clients ≡ []
    → server.client_map ≡ []
    → Listed 1 (start env now server)
unfolding Set.contains
start-Listed env now server c m = record {
  synced = record { distinct = rw c tt; same_ids = λ j. rw c (rw m refl) };
  known = λ j. rw m (λ e. ground arith);
  reading_listed = λ j e. ground arith;
  waiting_listed = λ j e. ground arith;
}

-- A server that begins with no clients, and to which fewer connections are made than ids of 32 bits
-- allow: whatever happens to it, its list and its map of clients have the same ids, each once and none
-- that was not given out; and the clients whose task waits for a line, and those whose task waits for
-- a lock, which are not the same, are in both.
pub run-Listed :
    (es : List Event) (env : Env) (now : DateTime) (server : Server)
    → server.clients ≡ []
    → server.client_map ≡ []
    → 1 + accepts es < 2 ^ 32
    → Listed (1 + accepts es) (run es (start env now server))
run-Listed es env now server c m b =
    events-Listed es (start-Sound env now server) refl b (start-Listed env now server c m)
