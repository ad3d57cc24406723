-- ===== src/Invariant/Timeout.antt =====
-- The 60 seconds of `handle_connection` of src/server/mod.rs.
use clandestine.Prelude.{
  ℕ, ◌+◌, ◌^◌, ◌<◌, true, false, List, ◌≡◌, refl, arith, ==_iff, inl, inr, Bool-cases, ◌⊎◌,
}
use clandestine.Prelude.Set
use clandestine.Prelude.Set.{contains-insert, contains-remove}
use clandestine.Prelude.Eq.{◌==◌, nat_eq, string_eq}
use clandestine.Channel.{ClientId, DateTime}
use clandestine.World.{Env, Server, update}
use clandestine.Invariant.Tasks.{Sound}
use clandestine.Invariant.Upkeep.{registration_timeout-blocked}
use clandestine.Invariant.Events.{own_ids, accepts, step-Sound, run-Sound, start-Sound}
use clandestine.Server.Run.{Event, elapsed, Process, time_out, step, run, start}
use clandestine.Invariant.Idle.{without_queue, Idle, run-Idle}

-- When the 60 seconds are over.
time_out-Idle_own :
    {k : ℕ} {p : Process} (i : ClientId)
    → Sound k p
    → Idle i true (without_queue (p.objects i)) (time_out i p)
unfolding time_out
time_out-Idle_own {p = p} i o = rw (registration_timeout-blocked i p (own_ids o)) (record {
  reads_nothing = ground (arith, contains-remove i i p.reading, ==_iff i i);
  waits_for_lock = ground (arith, contains-insert i i p.waiting, ==_iff i i);
  same_client = same (Bool-cases (i == i));
})
  where
    same :
        ((i == i) ≡ true) ⊎ ((i == i) ≡ false)
        → without_queue (update p.objects i (p.objects i) i) ≡ without_queue (p.objects i)
    same (inl e) = rw e refl
    same (inr e) = rw e refl

-- When the 60 seconds of a connection are over while its task waits for a line, whether the client is
-- registered or not: from then on, whatever happens to the server, the task waits for a lock, so that
-- it reads no line any more, and the client is as it was but for what the tasks of others queue for it:
-- the error for the timeout is not written.
pub elapsed-Idle :
    (es later : List Event) (env : Env) (now : DateTime) (server : Server) (i : ClientId)
    → 1 + accepts es + accepts later < 2 ^ 32
    → Set.contains i (run es (start env now server)).reading ≡ true
    → Idle i true
        (without_queue ((run es (start env now server)).objects i))
        (run later (step (elapsed i) (run es (start env now server))))
unfolding step
elapsed-Idle es later env now server i l r =
    let o = run-Sound es (start-Sound env now server) refl (omega arith) in
    run-Idle i true (without_queue ((run es (start env now server)).objects i)) later
      (step-Sound (elapsed i) o refl (omega arith)) (omega (arith, o.live i r)) (omega arith)
      (rw r (time_out-Idle_own i o))
