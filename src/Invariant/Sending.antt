-- ===== src/Invariant/Sending.antt =====
-- Sending, locking and the channels.
use clandestine.Prelude.{ℕ, zero, suc, String, List, [], ◌∷◌, ◌++◌, Option, none, some, arith}
use clandestine.Prelude.Eq.{nat_eq, string_eq}
use clandestine.Ts6.{Ts6Message}
use clandestine.Channel.{Channel, ClientId}
use clandestine.World.{World, Locks, WhoisInfo}
use clandestine.Prelude.Assoc.{Assoc}
use clandestine.Act.{Act, with_locks}
use clandestine.Act.Keeps.{
  Keeps, keeps_rules, Keeps-modify, Keeps-bind, Keeps-gets, Keeps-panics, Keeps-with_locks,
}
use clandestine.Invariant.{Quiet, Sends}
use clandestine.Server.Clients.{lock, get_client, find_client_info, find_client_by_nick, answer}
use clandestine.Server.Channels.{
  wants_write, await_map_read, await_read, await_write, await_map_write, map_write_at, get_channel,
  put_channel, get_client_channels, remove_from, remove_from_channel, found_or_new,
  get_or_create_channel, send_to_found, deliver, members_of, broadcast_to_channel,
  check_channel_membership,
}
use clandestine.Client.Send.{
  write_raw, send_message, send_message_to, send_numeric, wire, with_crlf,
}

module _ {P : World → Type 0} (s : Quiet P) where
  pub Keeps-lock : (id : ClientId) → Keeps P (lock id)
  unfolding lock
  Keeps-lock id = record { at = λ w h. ground arith }

  pub Keeps-await_read : (name : String) → Keeps P (await_read name)
  unfolding await_read
  Keeps-await_read name = record { at = λ w h. ground arith }

  pub Keeps-await_map_read : Keeps P await_map_read
  unfolding await_map_read
  Keeps-await_map_read = record { at = λ w h. ground arith }

  pub Keeps-send_message_to : (id : ClientId) (m : Ts6Message) → Keeps P (send_message_to id m)
  unfolding send_message_to
  Keeps-send_message_to id m = record {
    at = λ w h. ground (arith, s.peer_queue id ((w.peers id).sendq_tx ++ wire m ∷ []) w h);
  }

  pub Keeps-get_client : (id : ClientId) → Keeps P (get_client id)
  unfolding get_client
  Keeps-get_client id = search keeps_rules

  pub Keeps-find_client_by_nick : (nickname : String) → Keeps P (find_client_by_nick nickname)
  unfolding find_client_by_nick
  Keeps-find_client_by_nick nickname = search keeps_rules

  pub Keeps-get_channel : (name : String) → Keeps P (get_channel name)
  unfolding get_channel
  Keeps-get_channel name = search (keeps_rules, Keeps-await_map_read)

  -- Taking more locks for a block.
  pub Keeps-holding {ℓ} :
      {A : Type ℓ} (take : Locks → Locks) (m : Act A) → Keeps P m → Keeps P (with_locks take m)
  Keeps-holding take m km = Keeps-with_locks take m s.locks km

  Keeps-members_of : (name : String) (o : Option Channel) → Keeps P (members_of name o)
  unfolding members_of
  Keeps-members_of name none = search keeps_rules
  Keeps-members_of name (some ch) = search (keeps_rules, Keeps-await_read)

  pub Keeps-check_channel_membership :
      (name : String) (id : ClientId) → Keeps P (check_channel_membership name id)
  unfolding check_channel_membership
  Keeps-check_channel_membership name id =
      search (keeps_rules, Keeps-holding, Keeps-await_map_read, Keeps-members_of)

  Keeps-send_to_found : (m : Ts6Message) (o : Option ClientId) → Keeps P (send_to_found m o)
  unfolding send_to_found
  Keeps-send_to_found m none = search keeps_rules
  Keeps-send_to_found m (some id) = search (keeps_rules, Keeps-lock, Keeps-send_message_to)

  Keeps-deliver :
      (m : Ts6Message) (skip : Option ClientId) (id : ClientId) → Keeps P (deliver m skip id)
  unfolding deliver
  Keeps-deliver m skip id = search (keeps_rules, Keeps-send_to_found)

  pub Keeps-broadcast_to_channel :
      (name : String) (m : Ts6Message) (skip : Option ClientId)
      → Keeps P (broadcast_to_channel name m skip)
  unfolding broadcast_to_channel
  Keeps-broadcast_to_channel name m skip =
      search (keeps_rules, Keeps-holding, Keeps-await_map_read, Keeps-members_of, Keeps-deliver)

pub ruleset quiet_rules = (
  keeps_rules, Keeps-holding, Keeps-lock, Keeps-await_map_read, Keeps-await_read,
  Keeps-send_message_to, Keeps-get_client, Keeps-find_client_by_nick, Keeps-get_channel,
  Keeps-check_channel_membership, Keeps-broadcast_to_channel,
)

module _ {P : World → Type 0} (s : Sends P) where
  pub Keeps-await_write : (name : String) → Keeps P (await_write name)
  unfolding await_write
  Keeps-await_write name = record {
    at = λ w h. ground (arith, s.locks (wants_write name w.locks) w h);
  }

  pub Keeps-await_map_write : Keeps P await_map_write
  unfolding await_map_write
  Keeps-await_map_write = record { at = λ w h. kept w.locks.map_readers w h }
    where
      kept : (n : ℕ) (w : World) → P w → P (map_write_at n w).1
      kept zero w h = ground arith
      kept (suc n) w h = s.locks _ w h

  pub Keeps-send_message : (m : Ts6Message) → Keeps P (send_message m)
  unfolding send_message
  Keeps-send_message m = record {
    at = λ w h. ground (arith, s.self_queue (w.self.sendq_tx ++ wire m ∷ []) w h);
  }

  pub Keeps-write_raw : (text : String) → Keeps P (write_raw text)
  unfolding write_raw
  Keeps-write_raw text = record {
    at = λ w h. ground (arith, s.self_tx (w.self.tx ++ with_crlf text ∷ []) w h);
  }

  pub Keeps-send_numeric : (n : ℕ) (params : List String) → Keeps P (send_numeric n params)
  unfolding send_numeric
  Keeps-send_numeric n params = search (keeps_rules, Keeps-send_message)

  pub Keeps-put_channel : (name : String) (ch : Channel) → Keeps P (put_channel name ch)
  Keeps-put_channel name ch = Keeps-modify _ (λ w h. s.channels _ w h)

  pub Keeps-find_client_info : (nickname : String) → Keeps P (find_client_info nickname)
  unfolding find_client_info
  Keeps-find_client_info nickname = Keeps-bind _ _ (Keeps-gets _) kept
    where
      kept : (tx : Option (Assoc String WhoisInfo)) → Keeps P (answer tx nickname)
      kept none = Keeps-panics
      kept (some table) = Keeps-gets _

  pub Keeps-get_client_channels : (id : ClientId) → Keeps P (get_client_channels id)
  unfolding get_client_channels
  Keeps-get_client_channels id = search quiet_rules depth 9

  Keeps-remove_from :
      (name : String) (id : ClientId) (o : Option Channel) → Keeps P (remove_from name id o)
  unfolding remove_from
  Keeps-remove_from name id none = search keeps_rules
  Keeps-remove_from name id (some ch) = search (keeps_rules, Keeps-await_write, Keeps-put_channel)

  pub Keeps-remove_from_channel :
      (name : String) (id : ClientId) → Keeps P (remove_from_channel name id)
  unfolding remove_from_channel
  Keeps-remove_from_channel name id = search (quiet_rules, Keeps-remove_from)

  Keeps-found_or_new : (name : String) (o : Option Channel) → Keeps P (found_or_new name o)
  unfolding found_or_new
  Keeps-found_or_new name none = search (keeps_rules, Keeps-put_channel)
  Keeps-found_or_new name (some ch) = search keeps_rules

  pub Keeps-get_or_create_channel : (name : String) → Keeps P (get_or_create_channel name)
  unfolding get_or_create_channel
  Keeps-get_or_create_channel name = search (keeps_rules, Keeps-await_map_write, Keeps-found_or_new)

pub ruleset sending_rules = (
  quiet_rules, Keeps-await_write, Keeps-send_message, Keeps-write_raw, Keeps-send_numeric,
  Keeps-put_channel, Keeps-find_client_info, Keeps-get_client_channels, Keeps-remove_from_channel,
  Keeps-get_or_create_channel,
)
