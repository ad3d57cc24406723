-- ===== src/Invariant/Ending.antt =====
-- The end of a connection.
use clandestine.Prelude.{String, false, List, [], Option, none, some}
use clandestine.Channel.{ClientId}
use clandestine.World.{World}
use clandestine.Act.Keeps.{Keeps, Keeps-modify, Keeps-gets, Keeps-bind}
use clandestine.Invariant.{Stable, with_self}
use clandestine.Invariant.Sending.{sending_rules}
use clandestine.Server.Clients.{swap_remove, remove_client}
use clandestine.Server.Run.{finish}
use clandestine.Client.Dispatch.{leave_channel, leave_all, cleanup}
use clandestine.Prelude.Set
use clandestine.Prelude.Eq.{nat_eq}

-- What the cleanup of a client does to the client itself, besides what its handlers may do.
abbrev pub Emptied : (World → Type 0) → Type 0
Emptied P = (w : World) → P w → P (with_self w (record w.self { recvq = [] }))

module _ {P : World → Type 0} (s : Stable P) where
  Keeps-leave_channel : (name : String) → Keeps P (leave_channel name)
  unfolding leave_channel
  Keeps-leave_channel name = search sending_rules depth 10

  Keeps-leave_all : (nickname : Option String) → Keeps P (leave_all nickname)
  unfolding leave_all
  Keeps-leave_all none = search sending_rules
  Keeps-leave_all (some nick) = search (sending_rules, Keeps-leave_channel) depth 9

  pub Keeps-cleanup : Emptied P → Keeps P cleanup
  unfolding cleanup
  Keeps-cleanup e = Keeps-bind _ _ (Keeps-modify _ (λ w h. s.timer false w.self.pong_tx w h)) (λ u.
      Keeps-bind _ _ (Keeps-gets _)
        (λ nickname. Keeps-bind _ _ (Keeps-leave_all nickname) (λ v. Keeps-modify _ e)))

  -- for a property that does not speak of the tables of clients
  pub Keeps-finish :
      (id : ClientId)
      → Emptied P
      → ((ids keys : List ClientId) (w : World)
          → P w
          → P (record w { server = record w.server { clients = ids; client_map = keys } }))
      → Keeps P (finish id)
  unfolding finish remove_client
  Keeps-finish id e t = Keeps-bind _ _ (Keeps-cleanup e) (λ u.
      Keeps-modify _
        (λ w h. t (swap_remove id w.server.clients) (Set.remove id w.server.client_map) w h))
