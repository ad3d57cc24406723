-- ===== src/Ping/Timeout.antt =====
-- When the ping task of src/client/ping.rs gives a client up.
use clandestine.Prelude.{
  ℕ, ◌-◌, ◌≤◌, String, true, List, [], ◌∷◌, ◌++◌, Option, none, some, ◌≡◌, refl, sym, ap, ◌∙◌,
  arith,
}
use mathlib.Core.List
use clandestine.Ping.{Event, tick, pong, Timer, on_tick, step, run, ping_msg}

-- The time of the last ping is at most the timeout before the first tick, and so is each tick before
-- the next.
abbrev pub Steady : ℕ → Option ℕ → List Event → Type 0
Steady ping_timeout last [] = Unit
Steady ping_timeout last (pong ∷ es) = Steady ping_timeout none es
Steady ping_timeout none (tick now ∷ es) = Steady ping_timeout (some now) es
Steady ping_timeout (some before) (tick now ∷ es) =
    (now - before ≤ ping_timeout) × Steady ping_timeout (some now) es

-- The pings for the ticks among the events.
abbrev pub pings : String → List Event → List String
pings server_name [] = []
pings server_name (pong ∷ es) = pings server_name es
pings server_name (tick now ∷ es) = ping_msg server_name ∷ pings server_name es

-- The task while it runs and its queue has a receiver.
abbrev pub waiting : Option ℕ → List String → Timer
waiting last sent = record { last_ping = last; running = true; sent = sent; open_queue = true }

module _ (server_name : String) (ping_timeout : ℕ) where
  step-Steady :
      (now : ℕ) (last : Option ℕ) (es : List Event) (sent : List String)
      → Steady ping_timeout last (tick now ∷ es)
      → (step server_name ping_timeout (tick now) (waiting last sent)
          ≡ waiting (some now) (sent ++ ping_msg server_name ∷ []))
        × Steady ping_timeout (some now) es
  unfolding step on_tick
  step-Steady now none es sent h = (refl, h)
  step-Steady now (some before) es sent h = (ground arith, h.1)

  -- If no tick comes later than the timeout after the tick before it, and the queue has a receiver,
  -- the task never gives the client up, whether a PONG comes or not: it still runs, and has sent a
  -- ping for every tick and nothing else.
  pub run-Steady :
      (es : List Event) (last : Option ℕ) (sent : List String)
      → Steady ping_timeout last es
      → ((run server_name ping_timeout es (waiting last sent)).running ≡ true)
        × ((run server_name ping_timeout es (waiting last sent)).sent
            ≡ sent ++ pings server_name es)
  unfolding run step
  run-Steady [] last sent h = (refl, sym (List.append-nil sent))
  run-Steady (pong ∷ es) last sent h = run-Steady es none sent h
  run-Steady (tick now ∷ es) last sent h =
      let (e, h') = step-Steady now last es sent h in
      let (r, q) = run-Steady es (some now) (sent ++ ping_msg server_name ∷ []) h' in
      (
        ap (λ t. (run server_name ping_timeout es t).running) e ∙ r,
        ap (λ t. (run server_name ping_timeout es t).sent) e
            ∙ q
            ∙ List.append_assoc sent (ping_msg server_name ∷ []) (pings server_name es),
      )
