-- ===== src/Ping.antt =====
-- src/client/ping.rs: the ping task of a client as a state machine. Its events are the ticks of the
-- interval timer, the first of which is skipped, and the notifications that a PONG sends.
pub mod Timeout
use clandestine.Prelude.{
  ℕ, ◌-◌, String, Bool, true, false, List, [], ◌∷◌, ◌++◌, Option, none, some, if◌then◌else◌, ltb,
}
use clandestine.Prelude.Text.{◌<>◌}

pub data Event : Type 0 where
  -- a tick at a time
  tick : ℕ → Event
  pong : Event

pub record Timer : Type 0 where
  pub last_ping : Option ℕ
  -- whether the loop still runs
  pub running : Bool
  -- the texts sent to the client's queue, oldest first
  pub sent : List String
  -- whether the queue still has a receiver
  pub open_queue : Bool

abbrev pub timer_start : Timer
timer_start = record { last_ping = none; running = true; sent = []; open_queue = true }

abbrev pub timeout_msg : String
timeout_msg = "ERROR :Ping timeout\r\n"

abbrev pub ping_msg : String → String
ping_msg server_name = ":" <> server_name <> " PING :" <> server_name <> "\r\n"

-- `tx.send`
abbrev pub send : String → Timer → Timer
send text t = if t.open_queue then record t { sent = t.sent ++ text ∷ [] } else t

-- whether a ping is older than the timeout; a time before it counts as no time at all
abbrev pub is_late : ℕ → ℕ → Option ℕ → Bool
is_late ping_timeout now none = false
is_late ping_timeout now (some ping_time) = ltb ping_timeout (now - ping_time)

module _ (server_name : String) (ping_timeout : ℕ) where
  unfoldable pub on_tick : ℕ → Timer → Timer
  on_tick now t =
      if is_late ping_timeout now t.last_ping
      then record (send timeout_msg t) { running = false }
      else if t.open_queue
      then record (send (ping_msg server_name) t) { last_ping = some now }
      else record t { running = false }

  abbrev on_event : Event → Timer → Timer
  on_event (tick now) t = on_tick now t
  on_event pong t = record t { last_ping = none }

  unfoldable pub step : Event → Timer → Timer
  unfolding on_tick
  step e t = if t.running then on_event e t else t

  unfoldable pub run : List Event → Timer → Timer
  unfolding step
  run [] t = t
  run (e ∷ es) t = run es (step e t)
