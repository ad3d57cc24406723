-- ===== src/Delivery/Messages.antt =====
-- NOTICE of src/client/query.rs.
use clandestine.Prelude.{String, ◌≡◌, refl, List, ◌∷◌, Option, none, some}
use clandestine.Prelude.Eq.{nat_eq, string_eq}
use clandestine.Channel.{ClientId}
use clandestine.World.{World, Client, Server}
use clandestine.Act.Keeps.{Keeps}
use clandestine.Invariant.{Quiet}
use clandestine.Invariant.Sending.{quiet_rules}
use clandestine.Client.Query.{handle_notice, notice_user, notice_to, notice_params}

module _ (c : Client) (sv : Server) where
  record IsSame (w : World) : Type 0 where
    client_same : w.self ≡ c
    server_same : w.server ≡ sv

  IsSame-Quiet : Quiet IsSame
  IsSame-Quiet = record {
    locks = λ l w h. record { client_same = h.client_same; server_same = h.server_same };
    peer_queue = λ id q w h. record { client_same = h.client_same; server_same = h.server_same };
  }

module _ {P : World → Type 0} (q : Quiet P) where
  Keeps-notice_user :
      (target text : String) (o : Option ClientId) → Keeps P (notice_user target text o)
  unfolding notice_user
  Keeps-notice_user target text none = search quiet_rules
  Keeps-notice_user target text (some id) = search quiet_rules depth 8

  Keeps-notice_to : (target text : String) → Keeps P (notice_to target text)
  unfolding notice_to
  Keeps-notice_to target text = search (quiet_rules, Keeps-notice_user) depth 10

  Keeps-notice_params : (params : List String) → Keeps P (notice_params params)
  unfolding notice_params
  Keeps-notice_params (target ∷ text ∷ more) = Keeps-notice_to target text
  Keeps-notice_params _ = search quiet_rules

  Keeps-handle_notice : (params : List String) → Keeps P (handle_notice params)
  unfolding handle_notice
  Keeps-handle_notice params = search (quiet_rules, Keeps-notice_params)

-- A NOTICE gets no answer: whatever its parameters and however the handler ends, the sender, its
-- queues included, and the server are as before.
pub handle_notice_silent :
    (params : List String) (w : World)
    → ((handle_notice params w).1.self ≡ w.self) × ((handle_notice params w).1.server ≡ w.server)
handle_notice_silent params w =
    let same =
      (Keeps-handle_notice (IsSame-Quiet w.self w.server) params).at w
        (record { client_same = refl; server_same = refl }) in
    (same.client_same, same.server_same)
