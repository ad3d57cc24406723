-- ===== src/Server/Registration.antt =====
-- src/server/registration.rs: the table of nicknames, whose lock a method holds throughout, and a
-- timeout that nothing calls.
use clandestine.Prelude.{String, not, [], ◌∷◌, Option, none, some, if◌then◌else◌}
use clandestine.Prelude.Assoc
use clandestine.Prelude.Assoc.{is_some}
use clandestine.Prelude.Eq.{string_eq}
use clandestine.Error.{protocol}
use clandestine.Channel.{ClientId}
use clandestine.Act.{Act, pure, raise, gets, set_server, ◌>>=◌, ◌>>◌, attempt}
use clandestine.Ts6
use clandestine.Server.Clients.{lock, get_client, remove_client}
use clandestine.Client.Send.{send_message_to}

unfoldable pub register_nickname : String → ClientId → Act (Unit {0})
register_nickname nickname client_id = do
  nickname_lower ← gets (λ w. w.env.to_lowercase nickname)
  taken ← gets (λ w. is_some (Assoc.get nickname_lower w.server.nickname_map))
  if taken
      then raise (protocol "Nickname is already in use")
      else set_server
          (λ s. record s { nickname_map = Assoc.insert nickname_lower client_id s.nickname_map })

unfoldable pub unregister_nickname : String → Act (Unit {0})
unregister_nickname nickname = do
  nickname_lower ← gets (λ w. w.env.to_lowercase nickname)
  set_server (λ s. record s { nickname_map = Assoc.remove nickname_lower s.nickname_map })

-- The client's mutex is held until its removal.
unfoldable pub time_out_client : Option ClientId → Act (Unit {0})
time_out_client none = pure tt
time_out_client (some id) = do
  lock id
  registered ← gets (λ w. (w.peers id).registered)
  if not registered
      then (do
        attempt (send_message_to id (Ts6.new "ERROR" ("Registration timeout" ∷ [])))
        remove_client id)
      else pure tt

unfoldable pub check_registration_timeout : ClientId → Act (Unit {0})
unfolding time_out_client
check_registration_timeout client_id = do client ← get_client client_id; time_out_client client
