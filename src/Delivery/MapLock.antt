-- ===== src/Delivery/MapLock.antt =====
-- How a MODE keeps the lock of the map of channels, from src/server/channel.rs.
use clandestine.Prelude.{String, true, false, ◌≡◌}
use clandestine.Prelude.Assoc
use clandestine.Prelude.Set
use clandestine.Prelude.Eq.{nat_eq, string_eq}
use clandestine.Channel.{Channel, ClientId}
use clandestine.World.{World}
use clandestine.Server.Run.{Process, world_for, store, waits}
use clandestine.Client.ChannelMode.Blocked.{stuck_in}

-- The task waits for a lock, and so reads nothing.
abbrev pub IsStuck : Process → ClientId → Type 0
IsStuck p id = (Set.contains id p.waiting ≡ true) × (Set.contains id p.reading ≡ false)

-- The processes after the three lines, one after the other.
after_mode : String → Channel → ClientId → Process → Process
after_mode target ch i p = waits i (store i (stuck_in target ch (world_for i p)) p)

abbrev queued_for_map : World → World
queued_for_map w = record w { locks = record w.locks { map_queued = true } }

after_join : ClientId → Process → Process
after_join j p = waits j (store j (queued_for_map (world_for j p)) p)

after_lusers : ClientId → Process → Process
after_lusers k p = waits k (store k (world_for k p) p)

after_three : String → Channel → ClientId → ClientId → ClientId → Process → Process
after_three target ch i j k p = after_lusers k (after_join j (after_mode target ch i p))
