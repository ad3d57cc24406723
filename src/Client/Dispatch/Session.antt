-- ===== src/Client/Dispatch/Session.antt =====
-- A whole negotiation of capabilities.
use clandestine.Prelude.{String, true, false, List, [], ◌∷◌, ◌++◌, ◌≡◌, refl, ap, ◌∙◌, arith, All}
use mathlib.Core.List
use clandestine.Prelude.Eq.{◌==◌, string_eq}
use clandestine.Prelude.Text.{◌<>◌}
use clandestine.Ts6
use clandestine.Ts6.{Ts6Message}
use clandestine.World.{World}
use clandestine.Act.{done, ◌>>=◌, for_each, pure, attempt}
use clandestine.Client.Send.{write_raw, with_crlf}
use clandestine.Client.Capability.{caps, set_negotiating, handle_cap_ls, handle_cap_command}
use clandestine.Client.Dispatch.{handle_cap, handle_message}
use clandestine.Client.Dispatch.Negotiation.{handle_message-negotiating}

abbrev pub cap : String → Ts6Message
cap subcommand = Ts6.new "CAP" (subcommand ∷ [])

-- The capabilities of the server, and the three empty lines that flush them.
abbrev pub replies : List String
replies =
    with_crlf ("CAP * LS :" <> caps <> "\r\n") ∷ with_crlf "" ∷ with_crlf "" ∷ with_crlf "" ∷ []

abbrev listing : World → World
listing w = record w {
  self = record w.self {
    cap_negotiating = true;
    tx =
        ((w.self.tx ++ with_crlf ("CAP * LS :" <> caps <> "\r\n") ∷ []) ++ with_crlf "" ∷ [])
        ++ with_crlf "" ∷ [];
  };
}

-- the world after a negotiation
abbrev pub negotiated : World → World
negotiated w = record w {
  self = record w.self { cap_negotiating = false; tx = w.self.tx ++ replies };
}

begins :
    (w : World) → w.self.writer_open ≡ true → handle_message (cap "LS") w ≡ (done tt, listing w)
unfolding handle_message handle_cap handle_cap_command handle_cap_ls set_negotiating write_raw
    attempt ◌>>=◌
begins w o = ground (arith, o)

four :
    (t : List String) (a b c d : String)
    → (((t ++ a ∷ []) ++ b ∷ []) ++ c ∷ []) ++ d ∷ [] ≡ t ++ a ∷ b ∷ c ∷ d ∷ []
four t a b c d = simp List.append_assoc

-- the world after a negotiation, with the replies as they are written
abbrev unflushed : World → World
unflushed w = record w {
  self = record w.self { cap_negotiating = false; tx = (listing w).self.tx ++ with_crlf "" ∷ [] };
}

ends :
    (w : World)
    → w.self.writer_open ≡ true
    → handle_message (cap "END") (listing w) ≡ (done tt, unflushed w)
unfolding handle_message handle_cap handle_cap_command set_negotiating write_raw attempt ◌>>=◌
ends w o = ground (arith, o)

flushed : (w : World) → unflushed w ≡ negotiated w
flushed w i = record w {
  self = record w.self {
    cap_negotiating = false;
    tx =
        four w.self.tx (with_crlf ("CAP * LS :" <> caps <> "\r\n")) (with_crlf "") (with_crlf "")
          (with_crlf "") i;
  };
}

-- The messages between, one after another.
ignored :
    (ms : List Ts6Message) (w : World)
    → All (λ (m : Ts6Message). (m.command == "CAP") ≡ false) ms
    → w.self.cap_negotiating ≡ true
    → for_each (ms ++ cap "END" ∷ []) handle_message w ≡ for_each (cap "END" ∷ []) handle_message w
unfolding for_each ◌>>=◌
ignored [] w a n = refl
ignored (m ∷ ms) w a n = rw (handle_message-negotiating m w n a.0) (ignored ms w a.1 n)

-- A client that begins with CAP LS, as the specification asks, then sends any messages but CAP, such as
-- NICK and USER, and ends with CAP END: the outcome and the world are as if it had sent nothing between,
-- so that it has no name and is not registered if it was not; it has only been sent the list of the
-- capabilities, and the empty lines that flush it, and does not negotiate any more.
pub negotiation_lem :
    (ms : List Ts6Message) (w : World)
    → All (λ (m : Ts6Message). (m.command == "CAP") ≡ false) ms
    → w.self.writer_open ≡ true
    → for_each (cap "LS" ∷ ms ++ cap "END" ∷ []) handle_message w ≡ (done tt, negotiated w)
unfolding for_each pure ◌>>=◌
negotiation_lem ms w a o =
    rw (begins w o)
      (ignored ms (listing w) a refl ∙ rw (ends w o) (ap (λ v. (done tt, v)) (flushed w)))
