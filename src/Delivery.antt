-- ===== src/Delivery.antt =====
-- How a message reaches the members of a channel (`broadcast_to_channel` of
-- src/server/channel.rs) or one client, and when a task waits for ever instead.
pub mod Messages
pub mod Private
pub mod Cleanup
pub mod Leave
pub mod Running
pub mod Joining
pub mod MapLock
use clandestine.Prelude.{
  ℕ, String, Bool, true, false, not, ◌&&◌, ◌||◌, ◌≡◌, refl, List, [], ◌∷◌, ◌++◌, Option, none, some,
  arith, if◌then◌else◌, All, Bool-cases, inl, inr, subst, ==_iff, ◌∙◌,
}
use clandestine.Prelude.Set
use clandestine.Prelude.Assoc
use clandestine.Prelude.Set.{Distinct}
use clandestine.Prelude.Eq.{◌==◌, nat_eq, string_eq, beq_refl}
use clandestine.Ts6.{Ts6Message}
use clandestine.Channel
use clandestine.Channel.{Channel, ClientId}
use clandestine.World.{World, Client, Server, Locks, update}
use clandestine.Act.{Act, Outcome, done, ◌>>=◌, attempt, for_each, with_locks}
use clandestine.Server.Clients.{lock, get_client}
use clandestine.Server.Channels.{
  is_claimed, get_channel, send_to_found, deliver, members_of, await_map_read, await_read,
  broadcast_to_channel, check_channel_membership,
}
use clandestine.Client.Send.{send_message_to, queued, wire}

-- A client's queue after a message, which is lost if its writer task has ended.
unfoldable pub received : Ts6Message → Client → Client
received m c = if c.writer_open then queued (wire m) c else c

-- Whether a message of the task's client reaches the client of an id.
abbrev pub reaches : World → ClientId → Bool
reaches w j = not (j == w.self.id) && Set.contains j w.server.client_map

abbrev peers_after : Ts6Message → ClientId → World → ClientId → Client
peers_after m id w = if reaches w id then update w.peers id (received m (w.peers id)) else w.peers

-- No task holds the mutex of any of the clients.
abbrev pub AllFree : World → List ClientId → Type 0
AllFree w = All (λ id. Set.contains id w.locks.busy ≡ false)

-- What delivery to a list of clients does: it comes to an end, changes nothing but the queues of the
-- clients that it reaches, and puts the message once at the end of each of these.
pub record Delivered (m : Ts6Message) (ids : List ClientId) (w : World)
    (r : Outcome (Unit {0}) × World) : Type 0 where
  pub ends : r.0 ≡ done tt
  pub self_same : r.1.self ≡ w.self
  pub server_same : r.1.server ≡ w.server
  pub locks_same : r.1.locks ≡ w.locks
  pub queues :
      (j : ClientId)
      → r.1.peers j
        ≡ (if Set.contains j ids && reaches w j then received m (w.peers j) else w.peers j)

deliver_lem :
    (m : Ts6Message) (id : ClientId) (w : World)
    → Set.contains id w.locks.busy ≡ false
    → deliver m (some w.self.id) id w ≡ (done tt, record w { peers = peers_after m id w })
unfolding deliver send_to_found get_client lock send_message_to received attempt ◌>>=◌
deliver_lem m id w h = ground arith

module _ (m : Ts6Message) (x : ClientId) (xs : List ClientId) (w : World) where
  after_first : World
  after_first = record w { peers = peers_after m x w }

  -- The queue of each client after the first delivery and those that follow.
  queues-cons :
      (j : ClientId)
      → Set.contains x xs ≡ false
      → (if Set.contains j xs && reaches w j
          then received m (peers_after m x w j)
          else peers_after m x w j)
        ≡ (if Set.contains j (x ∷ xs) && reaches w j then received m (w.peers j) else w.peers j)
  unfolding Set.contains
  queues-cons j d = elim (Bool-cases (x == j)) [
    | inl e ↦ subst Same ((==_iff x j).0 e) (ground (arith, beq_refl x))
    | inr e ↦ ground (arith, ==_iff x j, ==_iff j x)
  ]
    where
      Same : ClientId → Type 0
      Same k =
          (if Set.contains k xs && reaches w k
            then received m (peers_after m x w k)
            else peers_after m x w k)
          ≡ (if Set.contains k (x ∷ xs) && reaches w k then received m (w.peers k) else w.peers k)

deliver_all :
    (m : Ts6Message) (ids : List ClientId) (w : World)
    → Distinct ids
    → AllFree w ids
    → Delivered m ids w (for_each ids (deliver m (some w.self.id)) w)
unfolding for_each ◌>>=◌ after_first Set.contains
deliver_all m [] w d f = ground arith
deliver_all m (x ∷ xs) w d f =
    let rest = deliver_all m xs (after_first m x xs w) d.1 f.1 in
    rw (deliver_lem m x w f.0) (record {
      ends = rest.ends;
      self_same = rest.self_same;
      server_same = rest.server_same;
      locks_same = rest.locks_same;
      queues = λ j. rest.queues j ∙ queues-cons m x xs w j d.0;
    })

-- Reads of the map of channels, when no task waits to write to it.
pub await_map_read_lem : (w : World) → w.locks.map_queued ≡ false → await_map_read w ≡ (done tt, w)
unfolding await_map_read
await_map_read_lem w q = ground arith

pub get_channel_lem :
    (name : String) (w : World)
    → w.locks.map_queued ≡ false
    → get_channel name w ≡ (done (Assoc.get name w.server.channels), w)
unfolding get_channel ◌>>=◌
get_channel_lem name w q = rw (await_map_read_lem w q) refl

-- A broadcast in a channel that nobody writes to is the delivery to its members.
pub broadcast_to_channel_lem :
    (name : String) (m : Ts6Message) (skip : Option ClientId) (ch : Channel) (w : World)
    → Assoc.get name w.server.channels ≡ some ch
    → w.locks.map_queued ≡ false
    → is_claimed name w.locks ≡ false
    → broadcast_to_channel name m skip w ≡ for_each ch.members (deliver m skip) w
unfolding broadcast_to_channel with_locks ◌>>=◌
broadcast_to_channel_lem name m skip ch w e q l = rw (broadcast_to_channel, q, e, l)

pub check_channel_membership_lem :
    (name : String) (id : ClientId) (ch : Channel) (w : World)
    → Assoc.get name w.server.channels ≡ some ch
    → w.locks.map_queued ≡ false
    → is_claimed name w.locks ≡ false
    → check_channel_membership name id w ≡ (done (Set.contains id ch.members), w)
unfolding check_channel_membership with_locks ◌>>=◌
check_channel_membership_lem name id ch w e q l = rw (check_channel_membership, q, e, l)

-- A broadcast that leaves out the task's own client.
pub broadcast_to_channel-Delivered :
    (name : String) (m : Ts6Message) (ch : Channel) (w : World)
    → Assoc.get name w.server.channels ≡ some ch
    → w.locks.map_queued ≡ false
    → is_claimed name w.locks ≡ false
    → Distinct ch.members
    → AllFree w ch.members
    → Delivered m ch.members w (broadcast_to_channel name m (some w.self.id) w)
broadcast_to_channel-Delivered name m ch w e q l d f =
    rw (broadcast_to_channel_lem name m (some w.self.id) ch w e q l)
      (deliver_all m ch.members w d f)
