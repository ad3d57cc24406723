-- ===== src/Delivery/Running.antt =====
-- Texts between clients whose connections both run, as src/server/mod.rs runs them.
use clandestine.Prelude.{
  ℕ, ◌+◌, ◌^◌, ◌<◌, String, Bool, true, false, ◌||◌, List, [], ◌∷◌, ◌++◌, ◌≡◌, refl, arith, ==_iff,
}
use clandestine.Prelude.Assoc
use clandestine.Prelude.Set
use clandestine.Prelude.Set.{contains-insert, contains-remove}
use clandestine.Prelude.Eq.{◌==◌, nat_eq, string_eq}
use clandestine.Error.{ok}
use clandestine.Ts6.{Ts6Message}
use clandestine.Ts6.Parser.{parse_message}
use clandestine.Channel.{ClientId}
use clandestine.World.{World}
use clandestine.Act.{Outcome, done, fail, panic, blocked, ◌>>=◌}
use clandestine.Server.Run.{Event, Process, world_for, after_line, run}
use clandestine.Invariant.Events.{accepts}
use clandestine.Invariant.Idle.{without_queue, run-Idle}
use clandestine.Client.Query.{handle_privmsg}
use clandestine.Client.Dispatch.{handle_command, handle_message, handle_parsed, handle_line}
use clandestine.Invariant.Tasks.{Sound}
use clandestine.Invariant.Listed.{Listed}

contains-append :
    (b : ClientId) (xs ys : List ClientId)
    → Set.contains b (xs ++ ys) ≡ (Set.contains b xs || Set.contains b ys)
unfolding Set.contains
contains-append b [] ys = refl
contains-append b (x ∷ xs) ys = ground (arith, contains-append b xs ys)

-- Whether the task of a client waits for a line or for a lock.
abbrev pub is_running : ClientId → Process → Bool
is_running j p = Set.contains j p.reading || Set.contains j p.waiting

module _ {n : ℕ} (p : Process) (s : Sound n p) (l : Listed n p) (i j : ClientId)
    (other : (j == i) ≡ false) (r : is_running j p ≡ true) where
  -- Another task holds the mutex.
  pub busy_running : Set.contains j (world_for i p).locks.busy ≡ true
  busy_running = ground (
    arith,
    other,
    r,
    contains-append j p.reading p.waiting,
    contains-remove i j (p.reading ++ p.waiting),
    ==_iff i j,
    ==_iff j i,
  )

  pub is_listed : Set.contains j p.server.client_map ≡ true
  is_listed = ground (arith, r, l.reading_listed j, l.waiting_listed j)

-- From a line to the handler.
pub handle_line-privmsg :
    (text : String) (m : Ts6Message) (params : List String) (w : World)
    → parse_message text ≡ ok m
    → m.command ≡ "PRIVMSG"
    → m.params ≡ params
    → w.self.cap_negotiating ≡ false
    → handle_line text w ≡ handle_privmsg params w
unfolding handle_line handle_parsed handle_message handle_command ◌>>=◌
handle_line-privmsg text m params w e c q n = rw e (rw c (ground (arith, n, q)))

pub after-blocked :
    (i : ClientId) (p : Process) (r : Outcome (Unit {0}) × World)
    → r.0 ≡ blocked
    → (Set.contains i (after_line i r p).waiting ≡ true)
      × (Set.contains i (after_line i r p).reading ≡ false)
after-blocked i p (done u, w) e = ground arith
after-blocked i p (fail x, w) e = ground arith
after-blocked i p (panic, w) e = ground arith
after-blocked i p (blocked, w) e = (
  ground (arith, contains-insert i i p.waiting, ==_iff i i),
  ground (arith, contains-remove i i p.reading, ==_iff i i),
)

-- A task that waits for a lock after a step reads nothing later.
pub stays-waiting :
    {n : ℕ} (i : ClientId) (p : Process) (later : List Event)
    → Sound n p
    → i < n
    → n + accepts later < 2 ^ 32
    → (Set.contains i p.waiting ≡ true) × (Set.contains i p.reading ≡ false)
    → (Set.contains i (run later p).waiting ≡ true) × (Set.contains i (run later p).reading ≡ false)
stays-waiting i p later s b l h =
    let idle =
      run-Idle i true (without_queue (p.objects i)) later s b l
        (record { reads_nothing = h.1; waits_for_lock = h.0; same_client = refl }) in
    (idle.waits_for_lock, idle.reads_nothing)
