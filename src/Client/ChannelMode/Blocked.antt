-- ===== src/Client/ChannelMode/Blocked.antt =====
-- When a MODE that changes a channel comes to an end.
use clandestine.Prelude.{
  suc, String, Bool, true, false, not, List, [], ◌∷◌, some, ◌≡◌, refl, arith, if◌then◌else◌, eq_iff,
  sym, subst, ◌∙◌,
}
use clandestine.Prelude.Assoc
use clandestine.Prelude.Assoc.{get-insert}
use clandestine.Prelude.Set
use clandestine.Prelude.Eq.{string_eq}
use clandestine.Prelude.Text.{starts_with_char}
use clandestine.Channel.{Channel}
use clandestine.World.{World}
use clandestine.Act.{Act, ◌>>◌, Outcome, done, blocked, ◌>>=◌, with_locks}
use clandestine.Server.Channels.{
  broadcast_to_channel, is_claimed, await_write, writing, put_channel, get_channel,
}
use clandestine.Delivery.{get_channel_lem}
use clandestine.Client.ChannelMode.{
  Change, announce, change_modes, query_or_change, handle_channel_mode,
}
use clandestine.Client.ChannelMode.Replay.{after}

-- The world while the task waits for the read lock of a channel in a broadcast.
abbrev waits_in_broadcast : World → World
waits_in_broadcast w = record w { locks = record w.locks { map_readers = suc w.locks.map_readers } }

announce-blocked :
    (target : String) (k : Change) (ks : List Change) (ch : Channel) (w : World)
    → Assoc.get target w.server.channels ≡ some ch
    → w.locks.map_queued ≡ false
    → Set.contains target w.locks.writing ≡ true
    → announce target (k ∷ ks) w ≡ (blocked, waits_in_broadcast w)
unfolding announce broadcast_to_channel with_locks ◌>>=◌
announce-blocked target k ks ch w e q l = ground arith

abbrev pub no_changes : List Change → Bool
no_changes [] = true
no_changes (k ∷ ks) = false

abbrev ModeOutcome : String → List Change → Outcome (Unit {0}) × World → Type 0
ModeOutcome target cs r =
    (r.0 ≡ (if no_changes cs then done tt else blocked))
    × (Set.contains target r.1.locks.writing ≡ not (no_changes cs))

-- The part that holds the write lock.
abbrev locked_part : String → Channel → List Change → Act (Unit {0})
locked_part target ch cs = writing target (put_channel target ch >> announce target cs)

module _ (target : String) (ch : Channel) (w : World) where
  locked_part_lem :
      (cs : List Change)
      → w.locks.map_queued ≡ false
      → Set.contains target w.locks.writing ≡ false
      → ((locked_part target ch cs w).0 ≡ (if no_changes cs then done tt else blocked))
        × (Set.contains target (locked_part target ch cs w).1.locks.writing ≡ not (no_changes cs))
  unfolding announce with_locks ◌>>=◌ Set.contains
  locked_part_lem [] q a = (refl, a)
  locked_part_lem (k ∷ ks) q a = ground (
    arith,
    announce-blocked target k ks ch (record w {
      locks = record w.locks { writing = target ∷ w.locks.writing };
      server = record w.server { channels = Assoc.insert target ch w.server.channels };
    }),
    get-insert target target ch w.server.channels,
    eq_iff target target,
  )

  change_modes-locked :
      (modes : String) (params : List String)
      → is_claimed target w.locks ≡ false
      → Set.contains target w.locks.reading ≡ false
      → change_modes target ch modes params w
        ≡ locked_part target (after modes params ch).channel (after modes params ch).changes w
  unfolding change_modes await_write ◌>>=◌
  change_modes-locked modes params a b = ground arith

-- The world in which a MODE waits that has made a change.
abbrev pub stuck_in : String → Channel → World → World
stuck_in target ch w = waits_in_broadcast (record w {
  locks = record w.locks { writing = target ∷ w.locks.writing };
  server = record w.server { channels = Assoc.insert target ch w.server.channels };
})

locked_part-stuck :
    (target : String) (ch : Channel) (w : World) (cs : List Change)
    → w.locks.map_queued ≡ false
    → no_changes cs ≡ false
    → locked_part target ch cs w ≡ (blocked, stuck_in target ch w)
unfolding with_locks ◌>>=◌ Set.contains
locked_part-stuck target ch w [] q n = ground arith
locked_part-stuck target ch w (k ∷ ks) q n = ground (
  arith,
  announce-blocked target k ks ch (record w {
    locks = record w.locks { writing = target ∷ w.locks.writing };
    server = record w.server { channels = Assoc.insert target ch w.server.channels };
  }),
  get-insert target target ch w.server.channels,
  eq_iff target target,
)

module _ (target modes : String) (params : List String) (ch : Channel) (w : World)
    (h : starts_with_char "#" target ≡ true) (e : Assoc.get target w.server.channels ≡ some ch)
    (q : w.locks.map_queued ≡ false) (a : is_claimed target w.locks ≡ false)
    (b : Set.contains target w.locks.reading ≡ false) where
  handle_channel_mode-locked :
      handle_channel_mode (target ∷ modes ∷ params) w
      ≡ locked_part target (after modes params ch).channel (after modes params ch).changes w
  unfolding handle_channel_mode get_channel query_or_change ◌>>=◌
  handle_channel_mode-locked =
      rw (h, get_channel_lem target w q, e) (change_modes-locked target ch w modes params a b)

  pub handle_channel_mode-stuck :
      no_changes (after modes params ch).changes ≡ false
      → handle_channel_mode (target ∷ modes ∷ params) w
        ≡ (blocked, stuck_in target (after modes params ch).channel w)
  handle_channel_mode-stuck n =
      handle_channel_mode-locked
      ∙ locked_part-stuck target (after modes params ch).channel w (after modes params ch).changes q
          n

-- A MODE with letters, on a channel that exists, on which no lock is held, and which no task waits to
-- write to, where no task waits to write to the map of channels either: it comes to an end if the
-- letters make no change, and then has given the write lock of the channel back. If they make one, the
-- handler is blocked, and still holds that lock.
pub handle_channel_mode-blocked :
    (target modes : String) (params : List String) (ch : Channel) (w : World)
    → starts_with_char "#" target ≡ true
    → Assoc.get target w.server.channels ≡ some ch
    → w.locks.map_queued ≡ false
    → is_claimed target w.locks ≡ false
    → Set.contains target w.locks.reading ≡ false
    → ((handle_channel_mode (target ∷ modes ∷ params) w).0
        ≡ (if no_changes (after modes params ch).changes then done tt else blocked))
      × (Set.contains target (handle_channel_mode (target ∷ modes ∷ params) w).1.locks.writing
          ≡ not (no_changes (after modes params ch).changes))
handle_channel_mode-blocked target modes params ch w h e q a b =
    subst (ModeOutcome target (after modes params ch).changes)
      (sym (handle_channel_mode-locked target modes params ch w h e q a b))
      (locked_part_lem target (after modes params ch).channel w (after modes params ch).changes q
        (ground arith))
