-- ===== src/Server/Task.antt =====
-- src/server/mod.rs and src/server/client.rs: `server_task`, on the messages that it receives.
use clandestine.Prelude.{String, List, [], ◌∷◌, Option}
use clandestine.Prelude.Assoc
use clandestine.Prelude.Assoc.{Assoc}
use clandestine.Prelude.Eq.{string_eq}
use clandestine.World.{WhoisInfo}

-- The field for the answer is the position in the list of answers.
pub data ServerMessage : Type 0 where
  whois_lookup : String → ServerMessage

unfoldable pub answer_all :
    (String → String) → Assoc String WhoisInfo → List ServerMessage → List (Option WhoisInfo)
answer_all to_lowercase clients [] = []
answer_all to_lowercase clients (whois_lookup nickname ∷ messages) =
    Assoc.get (to_lowercase nickname) clients ∷ answer_all to_lowercase clients messages

-- The loop ends when there is no sender any more.
unfoldable pub server_task : (String → String) → List ServerMessage → List (Option WhoisInfo)
unfolding answer_all
server_task to_lowercase messages = answer_all to_lowercase [] messages
