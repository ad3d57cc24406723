-- ===== src/Tests/Protocol.antt =====
-- Examples of the theorems on messages, modes, files and background tasks.
use clandestine.Prelude.{◌&&◌, leb, length}
use clandestine.Server.Messages.{handle_server_message}
use clandestine.Server.Messages.Accepts.{is_done, arity, version_fits, handle_server_message_lem}
use clandestine.Tests.{alice}
use clandestine.Prelude.{
  ℕ, String, true, List, [], ◌∷◌, none, some, ◌≡◌, ◌↔◌, refl, arith, if◌then◌else◌,
}
use mathlib.Core.Option.{some-injective}
use clandestine.Prelude.{subst}
use clandestine.Prelude.Text.Split.{Lacks}
use clandestine.Prelude.Eq.{nat_eq}
use clandestine.Prelude.Set
use clandestine.Ircv3
use clandestine.Ircv3.{Capability}
use clandestine.Error.{ok}
use clandestine.Ts6
use clandestine.Ts6.{Ts6Message, to_string}
use clandestine.Ts6.Parser.{parse_message}
use clandestine.Ts6.RoundTrip.{IsPrintable, parse_message-to_string}
use clandestine.Channel
use clandestine.Channel.{Channel, ClientId}
use clandestine.Client.ChannelMode.Replay.{after, replayed, render-replayed}
use clandestine.Prelude.Assoc
use clandestine.Prelude.Eq.{string_eq}
use clandestine.Prelude.{sym, not, ◌++◌, Char, true, false, ◌&&◌, Bool}
use clandestine.Error.{ok}
use clandestine.Prelude.Set.{contains}
use clandestine.Channel.Modes.{ModesFit, param_after, set_mode-ModesFit}
use clandestine.Ping.{tick, pong, run}
use clandestine.Ping.Timeout.{waiting, pings, run-Steady}
use clandestine.Writer.{Writer, queued, write_queued}
use clandestine.Writer.Sendq.{start, round, Served, Steps-Served}
use clandestine.Database.{Database, default_content}
use clandestine.Ts6.Parser.Errors.{is_ok, tagged_ok, has_command, after_space, parse_message-is_ok}
use clandestine.Prelude.Text.{is_empty, tail, starts_with_char}
use clandestine.Prelude.{if_elim}
use clandestine.Server.Mask.{pattern_of}
use clandestine.Server.Mask.Translation.{translate_all, pattern_of_lem}
use clandestine.Tests.{room}

from_str_iff_example :
    ((Ircv3.from_str "server-time" ≡ ok Capability.server_time)
      ↔ (Ircv3.fmt Capability.server_time ≡ "server-time"))
    × (Ircv3.as_str Capability.server_time ≡ Ircv3.fmt Capability.server_time)
from_str_iff_example = Ircv3.from_str_iff "server-time" Capability.server_time

abbrev privmsg : Ts6Message
privmsg = Ts6.with_source "alice!u@h" "PRIVMSG" ("#a" ∷ "hello there" ∷ [])

privmsg-IsPrintable : IsPrintable privmsg
privmsg-IsPrintable = record {
  no_tags = refl;
  source_lacks = λ s e. subst (Lacks " ") (some-injective "alice!u@h" s e) (ground arith);
  command_lacks = ground arith;
  command_ne_empty = refl;
  command_no_colon = refl;
  command_no_at = refl;
  params_printable = ground arith;
}

parse_message-to_string_example : parse_message (to_string privmsg) ≡ ok privmsg
parse_message-to_string_example = parse_message-to_string privmsg privmsg-IsPrintable

render-replayed_example :
    ((replayed "nt-k+k" ("key" ∷ []) room).changes ≡ (after "nt-k+k" ("key" ∷ []) room).changes)
    × ((replayed "nt-k+k" ("key" ∷ []) room).channel ≡ (after "nt-k+k" ("key" ∷ []) room).channel)
    × ((replayed "nt-k+k" ("key" ∷ []) room).mode_params ≡ [])
render-replayed_example = render-replayed "nt-k+k" ("key" ∷ []) room

room-ModesFit : ModesFit room
unfolding room Set.insert Assoc.get
room-ModesFit = record { distinct = (refl, (refl, tt)); set = λ c e. ground arith }

set_mode-ModesFit_example :
    ModesFit (Channel.set_mode "k" (some "key") true room)
    × ((d : Char)
        → Channel.has_mode d none (Channel.set_mode "k" (some "key") true room)
          ≡ (if clandestine.Prelude.same "k" d then true else Channel.has_mode d none room))
    × ((d : Char) (text : String)
        → Channel.has_mode d (some text) (Channel.set_mode "k" (some "key") true room) ≡ (
            if clandestine.Prelude.same "k" d
            then param_after (some "key") true text (Channel.has_mode d (some text) room)
            else Channel.has_mode d (some text) room))
set_mode-ModesFit_example = set_mode-ModesFit "k" (some "key") true room room-ModesFit

abbrev stored : Database
stored = record { path = "lines.json"; content = default_content }

run-Steady_example :
    ((run "irc.test" 128 (tick 16 ∷ tick 32 ∷ pong ∷ tick 48 ∷ []) (waiting none [])).running
      ≡ true)
    × ((run "irc.test" 128 (tick 16 ∷ tick 32 ∷ pong ∷ tick 48 ∷ []) (waiting none [])).sent
        ≡ [] ++ pings "irc.test" (tick 16 ∷ tick 32 ∷ pong ∷ tick 48 ∷ []))
run-Steady_example =
    run-Steady "irc.test" 128 (tick 16 ∷ tick 32 ∷ pong ∷ tick 48 ∷ []) none [] (omega arith, tt)

abbrev one_queued : Writer
one_queued = record {
  rx = [];
  sendq_rx = "PING" ∷ [];
  current_sendq_size = 0;
  written = [];
  dropped = [];
  has_senders = true;
  running = true;
}

abbrev one_written : Writer
one_written = write_queued true "PING" (record one_queued { sendq_rx = [] })

Steps-Served_example : Served one_queued [] [] one_written
unfolding write_queued
Steps-Served_example =
    Steps-Served one_queued [] [] one_written refl
      (round start (queued one_queued true "PING" [] refl refl)) refl

parse_message-is_ok_example : is_ok (parse_message "@a=b :src") ≡ (
    if is_empty "@a=b :src"
    then false
    else if starts_with_char "@" "@a=b :src"
    then tagged_ok (after_space (tail "@a=b :src"))
    else has_command "@a=b :src")
parse_message-is_ok_example = parse_message-is_ok "@a=b :src"

pattern_of_lem_example : pattern_of "*!u?er[1]@a" ≡ translate_all "*!u?er[1]@a"
pattern_of_lem_example = pattern_of_lem "*!u?er[1]@a"

abbrev pass : Ts6Message
pass = Ts6.new "PASS" ("secret" ∷ "TS" ∷ "6" ∷ "00A" ∷ [])

handle_server_message_lem_example :
    (is_done (handle_server_message pass alice).0
      ≡ (version_fits pass && leb (arity pass.command) (length pass.params)))
    × ((handle_server_message pass alice).1 ≡ alice)
handle_server_message_lem_example = handle_server_message_lem pass alice
