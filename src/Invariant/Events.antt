-- ===== src/Invariant/Events.antt =====
-- Every event of the process of src/server/mod.rs keeps it sound.
use clandestine.Prelude.{
  ℕ, ◌+◌, ◌^◌, ◌<◌, String, List, [], ◌∷◌, Option, none, some, ◌≡◌, refl, sym, subst, arith, ==_iff,
  inl, inr, Bool-cases,
}
use clandestine.Prelude.Set
use clandestine.Prelude.Set.{contains-remove}
use clandestine.Prelude.Eq.{◌==◌, nat_eq}
use clandestine.Channel.{ClientId, DateTime}
use clandestine.World.{Env, Server, update}
use clandestine.Act.{◌>>=◌}
use clandestine.Invariant.Ending.{Keeps-finish}
use clandestine.Invariant.Nicknames.{Leads}
use clandestine.Invariant.Upkeep.{Upkeep, Reads, OwnIds, brings, end_of_cases, step_keeps}
use clandestine.Invariant.Tasks.{ObjectOk, Sound, Task, Task-Stable, Sound-Task, store-Sound}
use clandestine.Server.Clients.{add_client}
use clandestine.Server.Connection.{new_client}
use clandestine.Server.Run.{
  Event, accepted, Process, world_for, gone, waits, end_connection, generate_client_id, connect,
  step, run, start,
}

gone-Sound : {n : ℕ} (id : ClientId) (p : Process) → Sound n p → Sound n (gone id p)
gone-Sound id p h = record {
  next = h.next;
  objects_ok = h.objects_ok;
  leads = h.leads;
  live = λ j m. ground (arith, contains-remove id j p.reading, h.live j);
}

waits-Sound : {n : ℕ} (id : ClientId) (p : Process) → Sound n p → Sound n (waits id p)
waits-Sound id p h = record {
  next = h.next;
  objects_ok = h.objects_ok;
  leads = h.leads;
  live = λ j m. ground (arith, contains-remove id j p.reading, h.live j);
}

end_connection-Sound :
    {n : ℕ} (id : ClientId) (p : Process) → Reads id p → Sound n p → Sound n (end_connection id p)
unfolding end_connection
end_connection-Sound {n} id p m h = end_of_cases id p _ (gone-Sound id) (waits-Sound id) (
    store-Sound h id _ (h.live id m) (
      (Keeps-finish (Task-Stable n p.env id) id (λ w t. (record { leads = t.0.leads }, t.1))
          (λ ids keys w t. (record { leads = t.0.leads }, t.1))).at
        (world_for id p) (Sound-Task h id)))

clock-Sound : {n : ℕ} (now : DateTime) (p : Process) → Sound n p → Sound n (record p { now = now })
clock-Sound now p h = record {
  next = h.next;
  objects_ok = h.objects_ok;
  leads = λ j. same_table (p.objects j).nickname j (h.leads j);
  live = h.live;
}
  where
    same_table :
        (o : Option String) (j : ClientId)
        → Leads (world_for j p) o j
        → Leads (world_for j (record p { now = now })) o j
    same_table none j l = tt
    same_table (some nick) j l = l

Sound-Upkeep : (n : ℕ) → Upkeep (Sound n) (λ id p. Task n p.env id)
Sound-Upkeep n = record {
  gone_keeps = λ id p m h. gone-Sound id p h;
  waits_keeps = λ id p m h. waits-Sound id p h;
  begins = λ id p m h. Sound-Task h id;
  stable = λ id p. Task-Stable n p.env id;
  store_keeps = λ id w p m t h. store-Sound h id w (h.live id m) t;
  end_keeps = end_connection-Sound;
  clock_keeps = clock-Sound;
}

pub own_ids : {n : ℕ} {p : Process} → Sound n p → OwnIds p
own_ids h j = (h.objects_ok j).0

-- A new client has no nickname, and the counter has not wrapped around.
connect-Sound :
    {n : ℕ} {p : Process} (ip : String) → Sound n p → n + 1 < 2 ^ 32 → Sound (n + 1) (connect ip p)
unfolding connect generate_client_id add_client new_client Set.contains ◌>>=◌
connect-Sound {n} {p} ip h b = record {
  next = omega (arith, h.next);
  objects_ok = objects_ok;
  leads = leads;
  live = λ j m. ground (arith, h.live j, h.next, ==_iff p.next_client_id j);
}
  where
    objects_ok :
        (j : ClientId)
        → ObjectOk
            (n + 1)
            j
            (update p.objects p.next_client_id (new_client p.next_client_id ip p.server.config) j)
    objects_ok j = elim (Bool-cases (j == p.next_client_id)) [
      | inl e ↦ rw e (sym ((==_iff j p.next_client_id).0 e), refl, λ le. refl)
      | inr e ↦
          rw e ((h.objects_ok j).0, (h.objects_ok j).1, λ le. (h.objects_ok j).2 (omega arith))
    ]

    moved :
        (o : Option String) (j : ClientId)
        → Leads (world_for j p) o j
        → Leads (world_for j (connect ip p)) o j
    moved none j l = tt
    moved (some nick) j l = l

    leads :
        (j : ClientId)
        → Leads
            (world_for j (connect ip p))
            (update p.objects p.next_client_id
              (new_client p.next_client_id ip p.server.config)
              j).nickname
            j
    leads j = elim (Bool-cases (j == p.next_client_id)) [
      | inl e ↦ rw e tt
      | inr e ↦ rw e (moved (p.objects j).nickname j (h.leads j))
    ]

-- How many clients the events bring.
unfoldable pub accepts : List Event → ℕ
accepts [] = 0
accepts (e ∷ es) = brings e + accepts es

as_many : {n m : ℕ} {p : Process} → n + 0 ≡ m → Sound n p → Sound m p
as_many {p = p} q h = subst (λ k. Sound k p) (omega (arith, q)) h

pub step-Sound :
    {n m : ℕ} {p : Process} (e : Event)
    → Sound n p
    → n + brings e ≡ m
    → m < 2 ^ 32
    → Sound m (step e p)
unfolding step
step-Sound {p = p} (accepted ip) h q b =
    subst (λ k. Sound k (connect ip p)) q (connect-Sound ip h (omega arith))
step-Sound {n} {p = p} e h q b = as_many q (step_keeps (Sound-Upkeep n) p e refl (own_ids h) h)

pub run-Sound :
    (es : List Event) {n m : ℕ} {p : Process}
    → Sound n p
    → n + accepts es ≡ m
    → m < 2 ^ 32
    → Sound m (run es p)
unfolding run accepts
run-Sound [] h q b = as_many q h
run-Sound (e ∷ es) h q b = run-Sound es (step-Sound e h refl (omega arith)) (omega arith) b

-- The process as it begins, with any table of nicknames.
pub start-Sound : (env : Env) (now : DateTime) (server : Server) → Sound 1 (start env now server)
unfolding new_client Set.contains
start-Sound env now server = record {
  next = refl;
  objects_ok = λ j. (refl, refl, λ le. refl);
  leads = λ j. tt;
  live = λ j m. ground arith;
}
