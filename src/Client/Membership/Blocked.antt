-- ===== src/Client/Membership/Blocked.antt =====
-- JOIN and the locks that the task holds: src/client/channel.rs and src/server/channel.rs.
use clandestine.Prelude.{
  ℕ, suc, zero, String, Bool, true, false, List, [], ◌∷◌, none, some, ◌≡◌, ◌⊎◌, inl, inr, refl,
  arith, eq_iff, Bool-cases, Option-cases, ==_iff,
}
use clandestine.Prelude.Assoc
use clandestine.Prelude.Assoc.{get-insert}
use clandestine.Prelude.Set
use clandestine.Prelude.Set.{contains-insert}
use clandestine.Prelude.Eq.{◌==◌, nat_eq, string_eq, beq_refl}
use clandestine.Ts6
use clandestine.Ts6.{Ts6Message}
use clandestine.Channel
use clandestine.Channel.{Channel, ClientId}
use clandestine.World.{World, Client, update}
use clandestine.Act.{Act, Outcome, done, blocked, ◌>>=◌, attempt, for_each}
use clandestine.Server.Clients.{lock, get_client}
use clandestine.Server.Channels.{
  is_claimed, await_write, get_or_create_channel, found_or_new, await_map_write, send_to_found,
  deliver, broadcast_to_channel,
}
use clandestine.Client.Send.{send_message_to, send_message, queued, wire, get_prefix}
use clandestine.Client.Membership.{
  topic_info_of, TopicInfo, is_nil, enter_found, enter_channel, join_channel, handle_join,
  grant_first,
}
use clandestine.Prelude.Assoc.{Assoc}
use clandestine.Invariant.{with_channels}
use clandestine.Delivery.{broadcast_to_channel_lem}

-- A delivery with nobody left out changes other clients at most, or waits; to the client itself it
-- waits.
deliver_any :
    (m : Ts6Message) (id : ClientId) (w : World)
    → ((deliver m none id w).0 ≡ blocked)
      ⊎ ((p : ClientId → Client) × (deliver m none id w ≡ (done tt, record w { peers = p })))
unfolding deliver send_to_found get_client lock send_message_to attempt ◌>>=◌
deliver_any m id w = elim (Bool-cases (Set.contains id w.server.client_map)) [
  | inr c ↦ inr (w.peers, ground arith)
  | inl c ↦ elim (Bool-cases (id == w.self.id)) [
    | inl s ↦ inl (ground arith)
    | inr s ↦ elim (Bool-cases (Set.contains id w.locks.busy)) [
      | inl b ↦ inl (ground arith)
      | inr b ↦ elim (Bool-cases (w.peers id).writer_open) [
        | inl o ↦ inr (update w.peers id (queued (wire m) (w.peers id)), ground arith)
        | inr o ↦ inr (w.peers, ground arith)
      ]
    ]
  ]
]

deliver_self :
    (m : Ts6Message) (w : World)
    → Set.contains w.self.id w.server.client_map ≡ true
    → (deliver m none w.self.id w).0 ≡ blocked
unfolding deliver send_to_found get_client lock send_message_to attempt ◌>>=◌
deliver_self m w c = rw (c, beq_refl w.self.id) refl

bind-blocked :
    {A B : Type 0} (m : Act A) (f : A → Act B) (w : World)
    → (m w).0 ≡ blocked
    → ((m >>= f) w).0 ≡ blocked
unfolding ◌>>=◌
bind-blocked m f w h = rw h refl

-- So a delivery to clients among which the client is waits.
deliver_all-blocked :
    (m : Ts6Message) (ids : List ClientId) (w : World)
    → Set.contains w.self.id w.server.client_map ≡ true
    → Set.contains w.self.id ids ≡ true
    → (for_each ids (deliver m none) w).0 ≡ blocked
unfolding for_each ◌>>=◌ Set.contains
deliver_all-blocked m [] w c h = ground arith
deliver_all-blocked m (x ∷ xs) w c h = elim (Bool-cases (x == w.self.id)) [
  | inl e ↦
      bind-blocked (deliver m none x) (λ u. for_each xs (deliver m none)) w
        (rw ((==_iff x w.self.id).0 e) (deliver_self m w c))
  | inr e ↦ elim (deliver_any m x w) [
    | inl b ↦ bind-blocked (deliver m none x) (λ u. for_each xs (deliver m none)) w b
    | inr (p, q) ↦ rw q (deliver_all-blocked m xs (record w { peers = p }) c (rw e at h))
  ]
]

-- What the block that takes the channel's write lock leaves: it waits, or the client is a member.
Entered : String → World → Outcome (Bool × TopicInfo × List ClientId) × World → Type 0
Entered name w r =
    (r.0 ≡ blocked)
    ⊎ ((a : Bool × TopicInfo × List ClientId) × (m : Assoc String Channel) × (ch : Channel) × (r
          ≡ (done a, with_channels w m))
        × (Assoc.get name m ≡ some ch)
        × (Set.contains w.self.id ch.members ≡ true)
        × (w.locks.map_queued ≡ false)
        × (is_claimed name w.locks ≡ false))

abbrev member : World → Channel → Channel
member w ch = Channel.add_member w.self.id ch

get-insert_same :
    (name : String) (ch : Channel) (m : Assoc String Channel)
    → Assoc.get name (Assoc.insert name ch m) ≡ some ch
get-insert_same name ch m = ground (arith, get-insert name name ch m, eq_iff name name)

contains-insert_same :
    (id : ClientId) (ids : List ClientId) → Set.contains id (Set.insert id ids) ≡ true
contains-insert_same id ids = ground (arith, contains-insert id id ids, beq_refl id)

enter_found-Entered :
    (name nick : String) (ch : Channel) (w : World)
    → w.self.nickname ≡ some nick
    → w.locks.map_queued ≡ false
    → Entered name w (enter_found name ch w)
unfolding Entered await_write grant_first Channel.add_member Channel.set_mode ◌>>=◌
enter_found-Entered name nick ch w n q = elim (Bool-cases (is_claimed name w.locks)) [
  | inl b ↦ inl (ground arith)
  | inr b ↦ elim (Bool-cases (Set.contains name w.locks.reading)) [
    | inl c ↦ inl (ground arith)
    | inr c ↦ elim (Bool-cases (is_nil ch.members)) [
      | inl f ↦ inr (
        (true, topic_info_of ch.topic (member w ch), (member w ch).members),
        Assoc.insert name (Channel.set_mode "o" (some nick) true (member w ch))
            (Assoc.insert name (member w ch) w.server.channels),
        Channel.set_mode "o" (some nick) true (member w ch),
        rw (b, c, f, n) refl,
        get-insert_same name _ _,
        contains-insert_same w.self.id ch.members,
        q,
        b,
      )
      | inr f ↦ inr (
        (false, topic_info_of ch.topic (member w ch), (member w ch).members),
        Assoc.insert name (member w ch) w.server.channels,
        member w ch,
        rw (b, c, f) refl,
        get-insert_same name _ _,
        contains-insert_same w.self.id ch.members,
        q,
        b,
      )
    ]
  ]
]

zero_or_suc : (n : ℕ) → (n ≡ 0) ⊎ ((k : ℕ) × (n ≡ suc k))
zero_or_suc zero = inl refl
zero_or_suc (suc k) = inr (k, refl)

-- The channel is found or made, unless the task waits for the map of channels.
get_or_create_channel_lem :
    (name : String) (w : World)
    → ((get_or_create_channel name w).0 ≡ blocked)
      ⊎ ((ch : Channel) × (m : Assoc String Channel) × (get_or_create_channel name w
            ≡ (done ch, with_channels w m))
          × (w.locks.map_queued ≡ false))
unfolding get_or_create_channel found_or_new await_map_write ◌>>=◌
get_or_create_channel_lem name w = elim (zero_or_suc w.locks.map_readers) [
  | inr (k, e) ↦ inl (rw e refl)
  | inl e ↦ elim (Bool-cases w.locks.map_queued) [
    | inl q ↦ inl (ground arith)
    | inr q ↦ elim (Option-cases (Assoc.get name w.server.channels)) [
      | inl f ↦ inr (
        Channel.new name w.now,
        Assoc.insert name (Channel.new name w.now) w.server.channels,
        ground arith,
        q,
      )
      | inr (ch, f) ↦ inr (ch, w.server.channels, ground arith, q)
    ]
  ]
]

enter_channel-Entered :
    (name nick : String) (w : World)
    → w.self.nickname ≡ some nick
    → Entered name w (enter_channel name w)
unfolding Entered enter_channel ◌>>=◌
enter_channel-Entered name nick w n = elim (get_or_create_channel_lem name w) [
  | inl b ↦ inl (rw b refl)
  | inr (ch, m, e, q) ↦ rw e (enter_found-Entered name nick ch (with_channels w m) n q)
]

send_message_open :
    (m : Ts6Message) (w : World)
    → w.self.writer_open ≡ true
    → send_message m w ≡ (done tt, record w { self = queued (wire m) w.self })
unfolding send_message
send_message_open m w o = ground arith

module _ (name nick : String) (w : World) where
  join_channel-blocked :
      w.self.nickname ≡ some nick
      → w.self.writer_open ≡ true
      → Set.contains w.self.id w.server.client_map ≡ true
      → (join_channel name w).0 ≡ blocked
  unfolding Entered join_channel ◌>>=◌
  join_channel-blocked n o c = elim (enter_channel-Entered name nick w n) [
    | inl b ↦ bind-blocked (enter_channel name) _ w b
    | inr (a, m, ch, e, g, h, q, l) ↦
        let join_msg = Ts6.with_source (get_prefix w.self) "JOIN" (name ∷ []) in
        let w2 = record (with_channels w m) { self = queued (wire join_msg) w.self } in
        rw (e, send_message_open join_msg (with_channels w m) o)
          (bind-blocked (broadcast_to_channel name join_msg none) _ w2 (
            rw (broadcast_to_channel_lem name join_msg none ch w2 g q l)
              (deliver_all-blocked join_msg ch.members w2 c h)))
  ]

-- A JOIN by a client that has a nickname, is in the table of clients, and whose writer task runs, does
-- not come to an end in the world that it starts in: whatever channel it names, whoever is there, and
-- whatever locks are held, the handler is blocked, waiting for a lock.
pub handle_join-blocked :
    (name nick : String) (more : List String) (w : World)
    → w.self.nickname ≡ some nick
    → w.self.writer_open ≡ true
    → Set.contains w.self.id w.server.client_map ≡ true
    → (handle_join (name ∷ more) w).0 ≡ blocked
unfolding handle_join
handle_join-blocked name nick more w = join_channel-blocked name nick w
