-- ===== src/Server/Channels.antt =====
-- src/server/channel.rs: the channels, and delivery to their members. A channel object is reached
-- only through its name, and is never taken out of the map.
use clandestine.Prelude.{
  ◌||◌, zero, suc, ℕ, String, Bool, true, false, List, [], ◌∷◌, Option, none, some, if◌then◌else◌,
}
use clandestine.Prelude.Assoc
use clandestine.Prelude.Assoc.{Assoc}
use clandestine.Prelude.Set
use clandestine.Prelude.Eq.{◌==◌, nat_eq, string_eq}
use clandestine.Error.{protocol}
use clandestine.Ts6.{Ts6Message}
use clandestine.Channel
use clandestine.Channel.{Channel, ClientId}
use clandestine.World.{Locks}
use clandestine.Act.{
  with_locks, done, blocked, Act, pure, raise, gets, set_server, ◌>>=◌, ◌>>◌, attempt, for_each,
}
use clandestine.Server.Clients.{lock, get_client}
use clandestine.Client.Send.{send_message_to}

-- a task writes to the channel of that name, or waits to write to it
abbrev pub is_claimed : String → Locks → Bool
is_claimed name l = Set.contains name l.writing || Set.contains name l.queued

-- `channel.read().await` and `channel.write().await` on the channel object of that name
unfoldable pub await_read : String → Act (Unit {0})
await_read name w = if is_claimed name w.locks then (blocked, w) else (done tt, w)

abbrev pub wants_write : String → Locks → Locks
wants_write name l = record l { queued = name ∷ l.queued }

unfoldable pub await_write : String → Act (Unit {0})
await_write name w =
    if is_claimed name w.locks || Set.contains name w.locks.reading
    then (blocked, record w { locks = wants_write name w.locks })
    else (done tt, w)

-- `self.channels.read().await` and `self.channels.write().await`
unfoldable pub await_map_read : Act (Unit {0})
await_map_read w = if w.locks.map_queued then (blocked, w) else (done tt, w)

abbrev pub map_write_at : ℕ → Act (Unit {0})
map_write_at zero w = if w.locks.map_queued then (blocked, w) else (done tt, w)
map_write_at (suc n) w = (blocked, record w { locks = record w.locks { map_queued = true } })

unfoldable pub await_map_write : Act (Unit {0})
await_map_write w = map_write_at w.locks.map_readers w

-- a block that holds the read lock of a channel, its write lock, or the read lock of the map
abbrev pub reading {ℓ} : {A : Type ℓ} → String → Act A → Act A
reading name = with_locks (λ l. record l { reading = name ∷ l.reading })

abbrev pub writing {ℓ} : {A : Type ℓ} → String → Act A → Act A
writing name = with_locks (λ l. record l { writing = name ∷ l.writing })

abbrev pub reading_map {ℓ} : {A : Type ℓ} → Act A → Act A
reading_map m = await_map_read >> with_locks (λ l. record l { map_readers = suc l.map_readers }) m

abbrev pub channels_with : ClientId → Assoc String Channel → List String
channels_with client_id [] = []
channels_with client_id ((name, ch) ∷ more) =
    let rest = channels_with client_id more in
    if Set.contains client_id (Channel.get_members ch) then name ∷ rest else rest

unfoldable pub get_client_channels : ClientId → Act (List String)
unfolding await_map_read await_read
get_client_channels client_id = reading_map (do
  channels ← gets (λ w. w.server.channels)
  for_each channels (λ entry. await_read entry.0)
  pure (channels_with client_id channels))

unfoldable pub get_channel : String → Act (Option Channel)
unfolding await_map_read
get_channel name = do await_map_read; gets (λ w. Assoc.get name w.server.channels)

-- what a write guard leaves in the channel object of that name
abbrev pub put_channel : String → Channel → Act (Unit {0})
put_channel name ch = set_server (λ s. record s { channels = Assoc.insert name ch s.channels })

unfoldable pub remove_from : String → ClientId → Option Channel → Act (Unit {0})
remove_from name client_id none = raise (protocol "No such channel")
remove_from name client_id (some ch) = do
  await_write name
  put_channel name (Channel.remove_member client_id ch)

unfoldable pub remove_from_channel : String → ClientId → Act (Unit {0})
unfolding remove_from get_channel
remove_from_channel channel_name client_id = do
  channel ← get_channel channel_name
  remove_from channel_name client_id channel

unfoldable pub found_or_new : String → Option Channel → Act Channel
found_or_new name (some ch) = pure ch
found_or_new name none = do
  now ← gets (λ w. w.now)
  let ch = Channel.new name now
  put_channel name ch
  pure ch

unfoldable pub get_or_create_channel : String → Act Channel
unfolding found_or_new await_map_write
get_or_create_channel name = do
  await_map_write
  channel ← gets (λ w. Assoc.get name w.server.channels)
  found_or_new name channel

abbrev pub is_skipped : ClientId → Option ClientId → Bool
is_skipped id none = false
is_skipped id (some skip) = id == skip

-- one round of the loop over the members; a failed write is logged
unfoldable pub send_to_found : Ts6Message → Option ClientId → Act (Unit {0})
send_to_found message none = pure tt
send_to_found message (some id) = do lock id; attempt (send_message_to id message); pure tt

unfoldable pub deliver : Ts6Message → Option ClientId → ClientId → Act (Unit {0})
unfolding send_to_found get_client lock send_message_to
deliver message skip_client id =
    if is_skipped id skip_client
    then pure tt
    else do client ← get_client id; send_to_found message client

unfoldable pub members_of : String → Option Channel → Act (List ClientId)
members_of channel_name none = pure []
members_of channel_name (some ch) = do await_read channel_name; pure (Channel.get_members ch)

unfoldable pub broadcast_to_channel : String → Ts6Message → Option ClientId → Act (Unit {0})
unfolding members_of await_map_read await_read
broadcast_to_channel channel_name message skip_client = do
  member_ids ← reading_map (do
    channel ← gets (λ w. Assoc.get channel_name w.server.channels)
    members_of channel_name channel)
  for_each member_ids (deliver message skip_client)

unfoldable pub check_channel_membership : String → ClientId → Act Bool
unfolding members_of await_map_read await_read
check_channel_membership channel_name client_id = reading_map (do
  channel ← gets (λ w. Assoc.get channel_name w.server.channels)
  members ← members_of channel_name channel
  pure (Set.contains client_id members))
