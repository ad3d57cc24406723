-- ===== src/Delivery/Leave.antt =====
-- How a client leaves channels at the end of its connection (`cleanup` of src/client/mod.rs).
use clandestine.Prelude.{
  String, Bool, true, false, ◌&&◌, ◌≡◌, refl, ap, ◌∙◌, subst, List, [], ◌∷◌, Option, none, some,
  arith, if◌then◌else◌, Option-cases, if_elim, inl, inr, eq_iff, ==_iff,
}
use clandestine.Prelude.Assoc
use clandestine.Prelude.Assoc.{Assoc, get-insert}
use clandestine.Prelude.Set
use clandestine.Prelude.Set.{Distinct, contains-remove, remove-Distinct}
use clandestine.Prelude.Eq.{◌==◌, nat_eq, string_eq, beq_refl}
use clandestine.Ts6
use clandestine.Ts6.{Ts6Message}
use clandestine.Channel
use clandestine.Channel.{Channel, ClientId}
use clandestine.World.{World, Client, Server}
use clandestine.Error.{IrcError, protocol}
use clandestine.Act.{fail, done, ◌>>=◌, attempt, for_each, with_locks}
use clandestine.Server.Channels.{
  await_write, get_channel, remove_from, remove_from_channel, broadcast_to_channel, members_of,
}
use clandestine.Client.Send.{get_prefix}
use clandestine.Client.Dispatch.{leave_channel}
use clandestine.Delivery.{Delivered, AllFree, broadcast_to_channel-Delivered}

abbrev pub without : String → ClientId → Channel → Server → Server
without name id ch s = record s {
  channels = Assoc.insert name (Channel.remove_member id ch) s.channels;
}

abbrev pub is_member : ClientId → Option Channel → Bool
is_member j none = false
is_member j (some ch) = Set.contains j ch.members

abbrev pub members_at : Option Channel → List ClientId
members_at none = []
members_at (some ch) = ch.members

-- No task holds the lock of a channel, or waits to write to one or to their map, or holds the mutex of
-- a member of one, and members are distinct.
pub record Calm (w : World) : Type 0 where
  pub no_writer : w.locks.writing ≡ []
  pub no_reader : w.locks.reading ≡ []
  pub no_queue : w.locks.queued ≡ []
  pub no_map_queue : w.locks.map_queued ≡ false
  pub distinct : (name : String) → Distinct (members_at (Assoc.get name w.server.channels))
  pub free :
      (name : String) (j : ClientId)
      → is_member j (Assoc.get name w.server.channels) ≡ true
      → Set.contains j w.locks.busy ≡ false

all_free :
    (w : World) (ids : List ClientId)
    → ((j : ClientId) → Set.contains j ids ≡ true → Set.contains j w.locks.busy ≡ false)
    → AllFree w ids
unfolding Set.contains
all_free w [] h = tt
all_free w (x ∷ xs) h = (h x (rw (beq_refl x) refl), all_free w xs (λ j e. h j (ground arith)))

-- The client has left the channels of some names, and nobody else has.
pub record Left (id : ClientId) (names : List String) (v w : World) : Type 0 where
  pub self_same : w.self ≡ v.self
  pub calm : Calm w
  pub names_same : w.server.nickname_map ≡ v.server.nickname_map
  pub members_left :
      (x : String) (j : ClientId)
      → is_member j (Assoc.get x w.server.channels) ≡ (
          if Set.contains x names && j == id
          then false
          else is_member j (Assoc.get x v.server.channels))

abbrev quit_message : Client → Ts6Message
quit_message c = Ts6.with_source (get_prefix c) "QUIT" ("Connection closed" ∷ [])

remove_some :
    (name : String) (v : World) (id : ClientId) (ch : Channel)
    → Assoc.get name v.server.channels ≡ some ch
    → v.locks.writing ≡ []
    → v.locks.reading ≡ []
    → v.locks.queued ≡ []
    → v.locks.map_queued ≡ false
    → remove_from_channel name id v ≡ (done tt, record v { server = without name id ch v.server })
unfolding remove_from_channel remove_from get_channel await_write Set.contains ◌>>=◌
remove_some name v id ch e a b q k = ground arith

module _ (name : String) (v : World) where
  leave_done :
      (v1 v2 : World)
      → broadcast_to_channel name (quit_message v.self) (some v.self.id) v ≡ (done tt, v1)
      → remove_from_channel name v.self.id v1 ≡ (done tt, v2)
      → leave_channel name v ≡ (done tt, v2)
  unfolding leave_channel attempt ◌>>=◌
  leave_done v1 v2 p q = rw (p, q) refl

  leave_fail :
      (v1 v2 : World) (e : IrcError)
      → broadcast_to_channel name (quit_message v.self) (some v.self.id) v ≡ (done tt, v1)
      → remove_from_channel name v.self.id v1 ≡ (fail e, v2)
      → leave_channel name v ≡ (done tt, v2)
  unfolding leave_channel attempt ◌>>=◌
  leave_fail v1 v2 e p q = rw (p, q) refl

  broadcast_none :
      (m : Ts6Message) (skip : Option ClientId)
      → v.locks.map_queued ≡ false
      → Assoc.get name v.server.channels ≡ none
      → broadcast_to_channel name m skip v ≡ (done tt, v)
  unfolding broadcast_to_channel members_of get_channel with_locks for_each ◌>>=◌
  broadcast_none m skip q e = rw (q, e) refl

  remove_none :
      (id : ClientId)
      → v.locks.map_queued ≡ false
      → Assoc.get name v.server.channels ≡ none
      → remove_from_channel name id v ≡ (fail (protocol "No such channel"), v)
  unfolding remove_from_channel remove_from get_channel ◌>>=◌
  remove_none id q e = rw (q, e) refl

  leave_none :
      v.locks.map_queued ≡ false
      → Assoc.get name v.server.channels ≡ none
      → leave_channel name v ≡ (done tt, v)
  leave_none q e =
      leave_fail v v (protocol "No such channel") (broadcast_none _ _ q e)
        (remove_none v.self.id q e)

  module _ (h : Calm v) (ch : Channel) (e : Assoc.get name v.server.channels ≡ some ch) where
    delivered :
        Delivered
          (quit_message v.self)
          ch.members
          v
          (broadcast_to_channel name (quit_message v.self) (some v.self.id) v)
    unfolding Set.contains
    delivered =
        broadcast_to_channel-Delivered name (quit_message v.self) ch v e h.no_map_queue
          (rw (h.no_writer, h.no_queue) refl) (rw e at (h.distinct name))
          (all_free v ch.members (λ j m. h.free name j (rw e m)))

    -- the channels without the client
    left_channels : Assoc String Channel
    left_channels = Assoc.insert name (Channel.remove_member v.self.id ch) v.server.channels

    left_members :
        (x : String) (j : ClientId)
        → is_member j (Assoc.get x left_channels) ≡ (
            if Set.contains x (name ∷ []) && j == v.self.id
            then false
            else is_member j (Assoc.get x v.server.channels))
    unfolding left_channels Channel.remove_member Set.contains
    left_members x j = ground (
      arith,
      get-insert name x (Channel.remove_member v.self.id ch) v.server.channels,
      contains-remove v.self.id j ch.members,
      eq_iff name x,
      ==_iff v.self.id j,
      ==_iff j v.self.id,
    )

    left-Distinct : (x : String) → Distinct (members_at (Assoc.get x left_channels))
    unfolding left_channels Channel.remove_member
    left-Distinct x =
        rw (get-insert name x (Channel.remove_member v.self.id ch) v.server.channels) (
          if_elim (λ o. Distinct (members_at o)) (name == x) _ _
            (λ s. remove-Distinct v.self.id ch.members (rw e at (h.distinct name)))
            (λ s. h.distinct x))

    left_free :
        (x : String) (j : ClientId)
        → is_member j (Assoc.get x left_channels) ≡ true
        → Set.contains j v.locks.busy ≡ false
    left_free x j m = ground (arith, left_members x j, h.free x j)

    Left-left_channels :
        (w : World)
        → w.self ≡ v.self
        → w.locks ≡ v.locks
        → w.server ≡ record v.server { channels = left_channels }
        → Left v.self.id (name ∷ []) v w
    Left-left_channels w p l c = record {
      self_same = p;
      calm = record {
        no_writer = ap (λ k. k.writing) l ∙ h.no_writer;
        no_reader = ap (λ k. k.reading) l ∙ h.no_reader;
        no_queue = ap (λ k. k.queued) l ∙ h.no_queue;
        no_map_queue = ap (λ k. k.map_queued) l ∙ h.no_map_queue;
        distinct = λ x. rw c (left-Distinct x);
        free = λ x j m. ap (λ k. Set.contains j k.busy) l ∙ left_free x j (rw c at m);
      };
      names_same = ap (λ k. k.nickname_map) c;
      members_left = λ x j. ap (λ k. is_member j (Assoc.get x k.channels)) c ∙ left_members x j;
    }

    Left-some : (w : World) × (leave_channel name v ≡ (done tt, w)) × Left v.self.id (name ∷ []) v w
    unfolding left_channels
    Left-some =
        let v1 = (broadcast_to_channel name (quit_message v.self) (some v.self.id) v).1 in
        let d = delivered in
        (
          record v1 { server = without name v.self.id ch v1.server },
          leave_done v1 _ (λ i. (d.ends i, v1))
              (remove_some name v1 v.self.id ch
                (ap (λ k. Assoc.get name k.channels) d.server_same ∙ e)
                (ap (λ k. k.writing) d.locks_same ∙ h.no_writer)
                (ap (λ k. k.reading) d.locks_same ∙ h.no_reader)
                (ap (λ k. k.queued) d.locks_same ∙ h.no_queue)
                (ap (λ k. k.map_queued) d.locks_same ∙ h.no_map_queue)),
          Left-left_channels _ d.self_same d.locks_same
              (ap (without name v.self.id ch) d.server_same),
        )

leave_one :
    (name : String) (v : World)
    → Calm v
    → (w : World) × (leave_channel name v ≡ (done tt, w)) × Left v.self.id (name ∷ []) v w
unfolding Set.contains
leave_one name v h = elim (Option-cases (Assoc.get name v.server.channels)) [
  | inl e ↦ (
    v,
    leave_none name v h.no_map_queue e,
    record {
      self_same = refl;
      calm = h;
      names_same = refl;
      members_left = λ x j. ground (arith, eq_iff name x);
    },
  )
  | inr (ch, e) ↦ Left-some name v h ch e
]

Left-cons :
    (id : ClientId) (name : String) (names : List String) (v w u : World)
    → Left id (name ∷ []) v w
    → Left id names w u
    → Left id (name ∷ names) v u
unfolding Set.contains
Left-cons id name names v w u l k = record {
  self_same = k.self_same ∙ l.self_same;
  calm = k.calm;
  names_same = k.names_same ∙ l.names_same;
  members_left = λ x j. ground (arith, k.members_left x j, l.members_left x j);
}

pub leave_names :
    (names : List String) (v : World)
    → Calm v
    → (w : World) × (for_each names leave_channel v ≡ (done tt, w)) × Left v.self.id names v w
unfolding for_each Set.contains ◌>>=◌
leave_names [] v h =
    (v, refl, record { self_same = refl; calm = h; names_same = refl; members_left = λ x j. refl })
leave_names (n ∷ ns) v h =
    let (w, e, l) = leave_one n v h in
    let (u, f, k) = leave_names ns w l.calm in
    (u, rw e f, Left-cons v.self.id n ns v w u l (subst (λ c. Left c.id ns w u) l.self_same k))
