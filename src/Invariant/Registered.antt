-- ===== src/Invariant/Registered.antt =====
-- The names of a registered client.
use clandestine.Prelude.{String, true, not, ◌||◌, ◌&&◌, ◌≡◌, List, arith}
use clandestine.Prelude.Assoc.{is_some}
use clandestine.World.{World, Client}
use clandestine.Invariant.{Stable}
use clandestine.Invariant.Lines.{Keeps-handle_connection_with_reader}
use clandestine.Client.Dispatch.{handle_connection_with_reader}

-- A registered client has a nickname and a username.
abbrev pub IsNamed : Client → Type 0
IsNamed c = (not c.registered || (is_some c.nickname && is_some c.username)) ≡ true

pub IsNamed-Stable : Stable (λ w. IsNamed w.self)
IsNamed-Stable = record {
  sends = record {
    quiet = record { locks = λ l w h. h; peer_queue = λ id q w h. h };
    self_queue = λ q w h. h;
    self_tx = λ q w h. h;
    channels = λ m w h. h;
    timer = λ b n w h. h;
  };
  modes = λ m w h. h;
  negotiating = λ b w h. h;
  registers = λ w r h. ground arith;
  names_user = λ u r w h. ground arith;
  claims = λ nick w t h. ground arith;
}

-- Whatever lines a client sends, and however the handling ends, it is registered only with a
-- nickname and a username, if that was so before.
pub lines-IsNamed :
    (lines : List String) (w : World)
    → IsNamed w.self
    → IsNamed (handle_connection_with_reader lines w).1.self
lines-IsNamed lines w h = (Keeps-handle_connection_with_reader IsNamed-Stable lines).at w h
