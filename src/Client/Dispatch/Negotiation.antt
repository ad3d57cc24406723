-- ===== src/Client/Dispatch/Negotiation.antt =====
-- Commands during capability negotiation.
use clandestine.Prelude.{true, false, ◌≡◌, arith, Bool-cases, inl, inr}
use clandestine.Prelude.Eq.{◌==◌, string_eq}
use clandestine.Ts6.{Ts6Message}
use clandestine.World.{World}
use clandestine.Act.{done, ◌>>=◌}
use clandestine.Client.User.{handle_quit, broadcast_global}
use clandestine.Client.Dispatch.{handle_message, while_negotiating}

-- While a client negotiates capabilities, every message but CAP is accepted and has no effect at all:
-- neither now nor later, since the world is as before, with nothing kept of the message.
pub handle_message-negotiating :
    (m : Ts6Message) (w : World)
    → w.self.cap_negotiating ≡ true
    → (m.command == "CAP") ≡ false
    → handle_message m w ≡ (done tt, w)
unfolding handle_message while_negotiating handle_quit broadcast_global ◌>>=◌
handle_message-negotiating m w n c = elim (Bool-cases (m.command == "QUIT")) [
  | inl q ↦ ground arith
  | inr q ↦ ground arith
]
