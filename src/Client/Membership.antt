-- ===== src/Client/Membership.antt =====
-- src/client/channel.rs: JOIN, PART and the list of names.
pub mod Chunks
pub mod Blocked
use clandestine.Prelude.{
  ℕ, zero, suc, String, Char, Bool, true, false, ◌&&◌, List, [], ◌∷◌, ◌++◌, Option, none, some,
  if◌then◌else◌, take, drop, length,
}
use clandestine.Prelude.Set
use clandestine.Prelude.Eq.{◌==◌, nat_eq, char_eq, string_eq}
use clandestine.Prelude.Text.{◌<>◌, join, decimal}
use clandestine.Error.{protocol}
use clandestine.Ts6
use clandestine.Ts6.{Ts6Message}
use clandestine.Channel
use clandestine.Channel.{Channel, ClientId, DateTime}
use clandestine.World.{Client}
use clandestine.Act.{Act, pure, raise, gets, unwrap, ◌>>=◌, ◌>>◌, for_each}
use clandestine.Server.Clients.{lock, get_client}
use clandestine.Server.Channels.{
  get_or_create_channel, await_write, put_channel, broadcast_to_channel, check_channel_membership,
  remove_from_channel,
}
use clandestine.Client.Send.{send_message, send_numeric, get_prefix}

-- `members.chunks(10)`: a list of n entries has at most n chunks
chunks_of {ℓ} : {A : Type ℓ} → ℕ → List A → List (List A)
chunks_of zero xs = []
chunks_of (suc fuel) [] = []
chunks_of (suc fuel) (x ∷ xs) = take 10 (x ∷ xs) ∷ chunks_of fuel (drop 10 (x ∷ xs))

unfoldable pub chunks {ℓ} : {A : Type ℓ} → List A → List (List A)
unfolding chunks_of
chunks xs = chunks_of (length xs) xs

abbrev pub name_prefix : List Char → String
name_prefix modes =
    if Set.contains {A = Char} "o" modes
    then "@"
    else if Set.contains {A = Char} "v" modes
    then "+"
    else ""

abbrev pub shown_names : List (String × List Char) → List String
shown_names [] = []
shown_names ((nick, modes) ∷ more) = (name_prefix modes <> nick) ∷ shown_names more

unfoldable pub handle_names : String → List (String × List Char) → Act (Unit {0})
handle_names channel members = do
  for_each (chunks members)
      (λ chunk. send_numeric 353 ("=" ∷ channel ∷ join " " (shown_names chunk) ∷ []))
  send_numeric 366 (channel ∷ "End of /NAMES list" ∷ [])

abbrev pub is_nil {ℓ} : {A : Type ℓ} → List A → Bool
is_nil [] = true
is_nil (x ∷ xs) = false

abbrev pub TopicInfo : Type 0
TopicInfo = Option (String × Option String × DateTime)

abbrev pub topic_info_of : Option String → Channel → TopicInfo
topic_info_of none ch = none
topic_info_of (some topic) ch = some (topic, ch.topic_setter, ch.topic_time)

-- `channel.set_mode('o', Some(nick), true)` for the first member, where the nickname is unwrapped
unfoldable pub grant_first : String → Bool → Channel → Act (Unit {0})
grant_first channel_name false ch = pure tt
grant_first channel_name true ch = do
  nickname ← gets (λ w. w.self.nickname)
  nick ← unwrap nickname
  put_channel channel_name (Channel.set_mode "o" (some nick) true ch)

-- the block that holds the channel's write lock, when the channel has been found or made
abbrev pub enter_found : String → Channel → Act (Bool × TopicInfo × List ClientId)
enter_found channel_name channel = do
  await_write channel_name
  id ← gets (λ w. w.self.id)
  let is_first = is_nil (Channel.get_members channel)
  let joined = Channel.add_member id channel
  put_channel channel_name joined
  grant_first channel_name is_first joined
  pure (is_first, topic_info_of (Channel.get_topic joined) joined, Channel.get_members joined)

unfoldable pub enter_channel : String → Act (Bool × TopicInfo × List ClientId)
unfolding grant_first
enter_channel channel_name = do
  channel ← get_or_create_channel channel_name
  enter_found channel_name channel

unfoldable pub send_operator : String → Bool → Act (Unit {0})
send_operator channel_name false = pure tt
send_operator channel_name true = do
  nickname ← gets (λ w. w.self.nickname)
  nick ← unwrap nickname
  id ← gets (λ w. w.self.id)
  let mode_msg = Ts6.new "MODE" (channel_name ∷ "+o" ∷ nick ∷ [])
  send_message mode_msg
  broadcast_to_channel channel_name mode_msg (some id)

unfoldable pub send_setter : String → Option String → DateTime → Act (Unit {0})
send_setter channel_name none time = pure tt
send_setter channel_name (some setter) time =
    send_numeric 333 (channel_name ∷ setter ∷ decimal time ∷ [])

unfoldable pub send_topic : String → TopicInfo → Act (Unit {0})
unfolding send_setter
send_topic channel_name none = send_numeric 331 (channel_name ∷ "No topic is set" ∷ [])
send_topic channel_name (some (topic, setter, time)) = do
  send_numeric 332 (channel_name ∷ topic ∷ [])
  send_setter channel_name setter time

-- the nickname of a client whose mutex is taken for it
unfoldable pub locked_client : ClientId → Act Client
unfolding lock
locked_client id = do lock id; gets (λ w. w.peers id)

unfoldable pub member_entry : Bool → Option ClientId → Act (List (String × List Char))
unfolding locked_client
member_entry is_first none = pure []
member_entry is_first (some id) = do
  client ← locked_client id
  nick ← unwrap client.nickname
  self_id ← gets (λ w. w.self.id)
  pure ((nick, if is_first && id == self_id then "o" ∷ [] else []) ∷ [])

unfoldable pub collect_members : Bool → List ClientId → Act (List (String × List Char))
unfolding member_entry get_client
collect_members is_first [] = pure []
collect_members is_first (id ∷ ids) = do
  client ← get_client id
  entry ← member_entry is_first client
  more ← collect_members is_first ids
  pure (entry ++ more)

unfoldable pub join_channel : String → Act (Unit {0})
unfolding enter_channel send_operator send_topic collect_members handle_names
join_channel channel_name = do
  (is_first, topic_info, member_list) ← enter_channel channel_name
  prefix ← gets (λ w. get_prefix w.self)
  let join_msg = Ts6.with_source prefix "JOIN" (channel_name ∷ [])
  send_message join_msg
  broadcast_to_channel channel_name join_msg none
  send_operator channel_name is_first
  send_topic channel_name topic_info
  members ← collect_members is_first member_list
  handle_names channel_name members

unfoldable pub handle_join : List String → Act (Unit {0})
unfolding join_channel
handle_join [] = raise (protocol "No channel specified")
handle_join (channel_name ∷ more) = join_channel channel_name

abbrev pub part_text : List String → String
part_text [] = "Leaving"
part_text (text ∷ more) = text

unfoldable pub part_channel : String → String → Act (Unit {0})
part_channel channel_name part_message = do
  id ← gets (λ w. w.self.id)
  prefix ← gets (λ w. get_prefix w.self)
  let part_msg = Ts6.with_source prefix "PART" (channel_name ∷ part_message ∷ [])
  broadcast_to_channel channel_name part_msg (some id)
  remove_from_channel channel_name id
  send_message part_msg

unfoldable pub handle_part : List String → Act (Unit {0})
unfolding part_channel
handle_part [] = raise (protocol "No channel given")
handle_part (channel_name ∷ more) = do
  id ← gets (λ w. w.self.id)
  member ← check_channel_membership channel_name id
  if member then part_channel channel_name (part_text more) else raise (protocol "Not on channel")
