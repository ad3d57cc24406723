-- ===== src/Invariant/Upkeep.antt =====
-- How a property of the process of src/server/mod.rs is kept by every event but a new connection: it is
-- enough that the parts of a step keep it.
use clandestine.Prelude.{ℕ, String, true, ◌≡◌, arith, ==_iff, inl, inr, Bool-cases}
use clandestine.Prelude.Set
use clandestine.Prelude.Eq.{nat_eq}
use clandestine.Channel.{ClientId, DateTime}
use clandestine.World.{World}
use clandestine.Act.{Outcome, done, fail, panic, blocked, ◌>>=◌}
use clandestine.Invariant.{Stable}
use clandestine.Invariant.Lines.{Keeps-handle_line}
use clandestine.Server.Clients.{lock}
use clandestine.Server.Run.{
  Event, accepted, accept_failed, socket_failed, line, closed, read_failed, elapsed, clock, Process,
  world_for, store, gone, waits, end_of, end_connection, after_line, read_line,
  registration_timeout, time_out, if_reading, step,
}

abbrev pub Reads : ClientId → Process → Type 0
Reads id p = Set.contains id p.reading ≡ true

-- Every object has its id.
abbrev pub OwnIds : Process → Type 0
OwnIds p = (j : ClientId) → (p.objects j).id ≡ j

-- How many clients an event brings.
abbrev pub brings : Event → ℕ
brings (accepted ip) = 1
brings e = 0

-- `T` is what the task of a client keeps of the world while it runs.
pub record Upkeep (Q : Process → Type 0) (T : ClientId → Process → World → Type 0) : Type 0 where
  pub gone_keeps : (id : ClientId) (p : Process) → Reads id p → Q p → Q (gone id p)
  pub waits_keeps : (id : ClientId) (p : Process) → Reads id p → Q p → Q (waits id p)
  pub begins : (id : ClientId) (p : Process) → Reads id p → Q p → T id p (world_for id p)
  pub stable : (id : ClientId) (p : Process) → Stable (T id p)
  pub store_keeps :
      (id : ClientId) (w : World) (p : Process) → Reads id p → T id p w → Q p → Q (store id w p)
  pub end_keeps : (id : ClientId) (p : Process) → Reads id p → Q p → Q (end_connection id p)
  pub clock_keeps : (now : DateTime) (p : Process) → Q p → Q (record p { now = now })

-- The task holds the mutex that the timeout asks for.
pub registration_timeout-blocked :
    (id : ClientId) (p : Process)
    → OwnIds p
    → registration_timeout id (world_for id p) ≡ (blocked, world_for id p)
unfolding registration_timeout lock ◌>>=◌
registration_timeout-blocked id p o = ground (arith, o id, ==_iff id (p.objects id).id)

-- The end of a connection, for a property that what the task leaves keeps.
pub end_of_cases :
    {Q : Process → Type 0} (id : ClientId) (p : Process) (r : Outcome (Unit {0}) × World)
    → ((q : Process) → Q q → Q (gone id q))
    → ((q : Process) → Q q → Q (waits id q))
    → Q (store id r.1 p)
    → Q (end_of id r p)
end_of_cases id p (done u, w) g v h = g (store id w p) h
end_of_cases id p (fail e, w) g v h = g (store id w p) h
end_of_cases id p (panic, w) g v h = g (store id w p) h
end_of_cases id p (blocked, w) g v h = v (store id w p) h

module _ {Q : Process → Type 0} {T : ClientId → Process → World → Type 0} (u : Upkeep Q T)
    (p : Process) where
  after_line_keeps :
      (id : ClientId) (r : Outcome (Unit {0}) × World)
      → Reads id p
      → Q (store id r.1 p)
      → Q (after_line id r p)
  after_line_keeps id (done x, w) m h = h
  after_line_keeps id (fail e, w) m h = u.end_keeps id (store id w p) m h
  after_line_keeps id (panic, w) m h = u.gone_keeps id (store id w p) m h
  after_line_keeps id (blocked, w) m h = u.waits_keeps id (store id w p) m h

  read_line_keeps : (id : ClientId) (text : String) → Q p → Reads id p → Q (read_line id text p)
  unfolding read_line
  read_line_keeps id text h m = after_line_keeps id _ m (
      u.store_keeps id _ p m
        ((Keeps-handle_line (u.stable id p) text).at (world_for id p) (u.begins id p m h)) h)

  time_out_keeps : (id : ClientId) → OwnIds p → Q p → Reads id p → Q (time_out id p)
  unfolding time_out
  time_out_keeps id o h m = rw (registration_timeout-blocked id p o) (
      u.waits_keeps id (store id (world_for id p) p) m
        (u.store_keeps id (world_for id p) p m (u.begins id p m h) h))

  if_reading_keeps :
      (id : ClientId) (f : Process → Process) → Q p → (Reads id p → Q (f p)) → Q (if_reading id f p)
  if_reading_keeps id f h k = elim (Bool-cases (Set.contains id p.reading)) [
    | inl e ↦ rw e (k e)
    | inr e ↦ rw e h
  ]

  pub step_keeps : (e : Event) → brings e ≡ 0 → OwnIds p → Q p → Q (step e p)
  unfolding step
  step_keeps (accepted ip) z o h = absurd (omega arith)
  step_keeps accept_failed z o h = h
  step_keeps socket_failed z o h = h
  step_keeps (line id text) z o h =
      if_reading_keeps id (read_line id text) h (read_line_keeps id text h)
  step_keeps (closed id) z o h =
      if_reading_keeps id (end_connection id) h (λ m. u.end_keeps id p m h)
  step_keeps (read_failed id) z o h =
      if_reading_keeps id (end_connection id) h (λ m. u.end_keeps id p m h)
  step_keeps (elapsed id) z o h = if_reading_keeps id (time_out id) h (time_out_keeps id o h)
  step_keeps (clock now) z o h = u.clock_keeps now p h
