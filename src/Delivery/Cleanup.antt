-- ===== src/Delivery/Cleanup.antt =====
-- What the end of a connection leaves of a client in the channels.
use clandestine.Prelude.{
  suc, String, true, false, ◌≡◌, refl, [], ◌∷◌, Option, none, some, arith, if◌then◌else◌, ==_iff,
}
use clandestine.Prelude.Assoc
use clandestine.Prelude.Assoc.{Assoc, get-insert}
use clandestine.Prelude.Set
use clandestine.Prelude.Set.{Distinct, contains-remove, remove-Distinct}
use clandestine.Prelude.Eq.{◌==◌, nat_eq, string_eq}
use clandestine.Channel.{Channel, ClientId}
use clandestine.World.{World}
use clandestine.Act.{Outcome, done, ◌>>=◌, for_each, with_locks}
use clandestine.Server.Channels.{await_read, channels_with, get_client_channels}
use clandestine.Client.Dispatch.{leave_channel, leave_all, cleanup}
use clandestine.Delivery.{await_map_read_lem}
use clandestine.Delivery.Leave.{is_member, Calm, Left, leave_names}

channels_with-is_member :
    (id : ClientId) (x : String) (m : Assoc String Channel)
    → is_member id (Assoc.get x m) ≡ true
    → Set.contains x (channels_with id m) ≡ true
unfolding Assoc.get Set.contains
channels_with-is_member id x [] h = ground arith
channels_with-is_member id x ((name, ch) ∷ m) h = ground (arith, channels_with-is_member id x m)

await_free :
    (name : String) (w : World)
    → w.locks.writing ≡ []
    → w.locks.queued ≡ []
    → await_read name w ≡ (done tt, w)
unfolding await_read Set.contains
await_free name w h q = ground arith

await_all :
    (m : Assoc String Channel) (w : World)
    → w.locks.writing ≡ []
    → w.locks.queued ≡ []
    → for_each m (λ entry. await_read entry.0) w ≡ (done tt, w)
unfolding for_each ◌>>=◌
await_all [] w h q = refl
await_all (entry ∷ m) w h q = rw (await_free entry.0 w h q) (await_all m w h q)

get_client_channels_lem :
    (id : ClientId) (w : World)
    → Calm w
    → get_client_channels id w ≡ (done (channels_with id w.server.channels), w)
unfolding get_client_channels with_locks ◌>>=◌
get_client_channels_lem id w h =
    rw
      (
        await_map_read_lem w h.no_map_queue,
        await_all w.server.channels
            (record w { locks = record w.locks { map_readers = suc w.locks.map_readers } })
            h.no_writer h.no_queue,
      )
      refl

-- What the end of a connection leaves: nobody but the client has left a channel, and the client all;
-- the nicknames are as before.
pub record Gone (w : World) (r : Outcome (Unit {0}) × World) : Type 0 where
  pub ends : r.0 ≡ done tt
  pub members_left :
      (x : String) (j : ClientId)
      → is_member j (Assoc.get x r.1.server.channels)
        ≡ (if j == w.self.id then false else is_member j (Assoc.get x w.server.channels))
  pub names_same : r.1.server.nickname_map ≡ w.server.nickname_map

-- the world when the ping task has been stopped
abbrev stopped : World → World
stopped w = record w { self = record w.self { ping_timer = false } }

stopped-Calm : (w : World) → Calm w → Calm (stopped w)
stopped-Calm w h = record {
  no_writer = h.no_writer;
  no_reader = h.no_reader;
  no_queue = h.no_queue;
  no_map_queue = h.no_map_queue;
  distinct = h.distinct;
  free = h.free;
}

Left-every :
    (x : String) (j : ClientId) (w u : World)
    → Left w.self.id (channels_with w.self.id w.server.channels) (stopped w) u
    → is_member j (Assoc.get x u.server.channels)
      ≡ (if j == w.self.id then false else is_member j (Assoc.get x w.server.channels))
Left-every x j w u l = ground (
  arith,
  l.members_left x j,
  channels_with-is_member w.self.id x w.server.channels,
  ==_iff j w.self.id,
)

leave_all_lem :
    (nick : String) (o : Option String) (v u : World)
    → o ≡ some nick
    → Calm v
    → for_each (channels_with v.self.id v.server.channels) leave_channel v ≡ (done tt, u)
    → leave_all o v ≡ (done tt, u)
unfolding leave_all ◌>>=◌
leave_all_lem nick none v u n h e = ground arith
leave_all_lem nick (some name) v u n h e = rw (get_client_channels_lem v.self.id v h, e) refl

-- The cleanup of a client with a nickname, where no task holds a lock of a channel, waits to write to
-- one or to their map, or holds the mutex of a member of one, and no channel has a member twice, comes to an end. Then the client is in no channel,
-- and every other client is where it was; the table of nicknames is as before, so that the client's
-- nickname stays taken.
pub cleanup-Gone :
    (nick : String) (w : World) → w.self.nickname ≡ some nick → Calm w → Gone w (cleanup w)
unfolding cleanup ◌>>=◌
cleanup-Gone nick w n h =
    let (u, e, l) =
      leave_names (channels_with w.self.id w.server.channels) (stopped w) (stopped-Calm w h) in
    rw (leave_all_lem nick w.self.nickname (stopped w) u n (stopped-Calm w h) e) (record {
      ends = refl;
      members_left = λ x j. Left-every x j w u l;
      names_same = l.names_same;
    })
