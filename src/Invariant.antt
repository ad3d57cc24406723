-- ===== src/Invariant.antt =====
-- Properties of the world that hold after every line of a client if they held before, however its
-- handler ends. `Stable` says what such a property may ignore; the children have a
-- lemma for each handler and for all such properties. Upkeep has the like for the steps of all
-- connections together, and Tasks, Events and the others use it.
pub mod Sending
pub mod Handlers
pub mod Lines
pub mod Registered
pub mod Nicknames
pub mod Ending
pub mod Tasks
pub mod Events
pub mod Connections
pub mod Idle
pub mod Tables
pub mod Upkeep
pub mod Timeout
pub mod Listed
use clandestine.Prelude.{ℕ, String, Char, Bool, true, false, ◌≡◌, List, Option, none, some}
use clandestine.Prelude.Assoc
use clandestine.Prelude.Assoc.{Assoc}
use clandestine.Prelude.Eq.{string_eq}
use clandestine.Channel.{Channel, ClientId}
use clandestine.World.{World, Client, Server, Locks, update}
use clandestine.Client.Send.{queued}
use clandestine.Client.Registration.{is_ready, mark_registered}
use clandestine.Client.User.{name_user}

abbrev pub with_self : World → Client → World
with_self w c = record w { self = c }

abbrev pub with_channels : World → Assoc String Channel → World
with_channels w m = record w { server = record w.server { channels = m } }

abbrev pub without_old : World → Option String → Assoc String ClientId → Assoc String ClientId
without_old w none m = m
without_old w (some old) m = Assoc.remove (w.env.to_lowercase old) m

-- the table after NICK has put the new name in and taken the old one out
abbrev pub claimed_map : World → String → Assoc String ClientId
claimed_map w nick =
    without_old w w.self.nickname
      (Assoc.insert (w.env.to_lowercase nick) w.self.id w.server.nickname_map)

-- the world when NICK has taken the name
abbrev pub claimed : World → String → World
claimed w nick = record w {
  self = record w.self { nickname = some nick };
  server = record w.server { nickname_map = claimed_map w nick };
}

-- What an action may change that only delivers to other clients.
pub record Quiet (P : World → Type 0) : Type 0 where
  pub locks : (l : Locks) (w : World) → P w → P (record w { locks = l })
  pub peer_queue :
      (id : ClientId) (q : List String) (w : World)
      → P w
      → P (record w { peers = update w.peers id (record (w.peers id) { sendq_tx = q }) })

-- What an action may change that also sends to the client itself, or changes channels.
pub record Sends (P : World → Type 0) : Type 0 where
  pub quiet : Quiet P
  pub open quiet use *
  pub self_queue :
      (q : List String) (w : World) → P w → P (with_self w (record w.self { sendq_tx = q }))
  pub self_tx : (q : List String) (w : World) → P w → P (with_self w (record w.self { tx = q }))
  pub channels : (m : Assoc String Channel) (w : World) → P w → P (with_channels w m)
  pub timer :
      (b : Bool) (n : ℕ) (w : World)
      → P w
      → P (with_self w (record w.self { ping_timer = b; pong_tx = n }))

-- What the handlers of a client may change.
pub record Stable (P : World → Type 0) : Type 0 where
  pub sends : Sends P
  pub open sends use *
  pub modes : (m : List Char) (w : World) → P w → P (with_self w (record w.self { modes = m }))
  pub negotiating :
      (b : Bool) (w : World) → P w → P (with_self w (record w.self { cap_negotiating = b }))
  pub registers :
      (w : World) → is_ready w.self ≡ true → P w → P (with_self w (mark_registered w.self))
  pub names_user :
      (username realname : String) (w : World)
      → P w
      → P (with_self w (name_user username realname w.self))
  pub claims :
      (nick : String) (w : World)
      → Assoc.get (w.env.to_lowercase nick) w.server.nickname_map ≡ none
      → P w
      → P (claimed w nick)
