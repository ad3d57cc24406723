-- ===== src/Delivery/Private.antt =====
-- A text to a nickname.
use clandestine.Prelude.{String, true, false, ◌≡◌, ◌≢◌, ap, ◌∙◌, subst, List, ◌∷◌, some, arith}
use clandestine.Prelude.Assoc
use clandestine.Prelude.Set
use clandestine.Prelude.Eq.{◌==◌, nat_eq, string_eq, beq-false_of_ne}
use clandestine.Prelude.Text.{starts_with_char}
use clandestine.Channel.{ClientId}
use clandestine.World.{World, update}
use clandestine.Act.{done, ◌>>=◌}
use clandestine.Server.Clients.{lock, find_client_by_nick}
use clandestine.Client.Send.{send_message_to, queued, wire}
use clandestine.Client.Query.{text_message, handle_privmsg, handle_notice}
use clandestine.Invariant.Nicknames.{OwnNames, Leads, nick_at}

-- The world after a text has been put in the queue of another client.
abbrev pub with_text : String → String → String → ClientId → World → World
with_text command target text j w = record w {
  peers = update w.peers j (queued (wire (text_message command target text w.self)) (w.peers j));
}

-- If the table leads from the lower case of every nickname to its client, then a PRIVMSG or a NOTICE by a
-- registered client to a target that is no channel and has the lower case of another client's
-- nickname, where that client is in the table of clients, no task holds its mutex, and its writer task
-- runs, comes to an end, and puts the text at the end of the queue of that client, and does nothing else.
pub text_to_nick_lem :
    (target text nick : String) (more : List String) (j : ClientId) (w : World)
    → OwnNames w
    → w.self.registered ≡ true
    → starts_with_char "#" target ≡ false
    → nick_at w j ≡ some nick
    → w.env.to_lowercase target ≡ w.env.to_lowercase nick
    → j ≢ w.self.id
    → Set.contains j w.server.client_map ≡ true
    → Set.contains j w.locks.busy ≡ false
    → (w.peers j).writer_open ≡ true
    → (handle_privmsg (target ∷ text ∷ more) w ≡ (done tt, with_text "PRIVMSG" target text j w))
      × (handle_notice (target ∷ text ∷ more) w ≡ (done tt, with_text "NOTICE" target text j w))
unfolding handle_privmsg handle_notice find_client_by_nick lock send_message_to ◌>>=◌
text_to_nick_lem target text nick more j w h r s p e n c b o =
    (ground (arith, found, other), ground (arith, found, other))
  where
    found : Assoc.get (w.env.to_lowercase target) w.server.nickname_map ≡ some j
    found = ap (λ k. Assoc.get k w.server.nickname_map) e ∙ subst (λ q. Leads w q j) p (h.leads j)

    other : (j == w.self.id) ≡ false
    other = beq-false_of_ne j w.self.id n
