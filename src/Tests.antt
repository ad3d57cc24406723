-- ===== src/Tests.antt =====
-- Data on which the theorems are run: clients, a server, a channel; the children are the examples.
pub mod Protocol
pub mod Handlers
pub mod Connections
pub mod Program
pub mod Running
use clandestine.Prelude.{
  ℕ, String, true, List, [], ◌∷◌, none, some, ◌≡◌, ◌↔◌, refl, arith, if◌then◌else◌,
}
use mathlib.Core.Option.{some-injective}
use clandestine.Prelude.{subst}
use clandestine.Prelude.Text.Split.{Lacks}
use clandestine.Prelude.Eq.{◌==◌, nat_eq}
use clandestine.Prelude.Set
use clandestine.Ircv3
use clandestine.Ircv3.{Capability}
use clandestine.Error.{ok}
use clandestine.Ts6
use clandestine.Ts6.{Ts6Message, to_string}
use clandestine.Ts6.Parser.{parse_message}
use clandestine.Ts6.RoundTrip.{IsPrintable, parse_message-to_string}
use clandestine.Channel
use clandestine.Channel.{Channel, ClientId}
use clandestine.Config.{ServerConfig, default_access, default_timeouts}
use clandestine.World.{World, Client, Server, Env, Locks}
use clandestine.Server.Connection.{new_client}
use clandestine.Client.Dispatch.{handle_connection_with_reader}
use clandestine.Client.Query.{handle_privmsg, handle_notice, text_message}
use clandestine.Client.ChannelMode.Replay.{after, replayed, render-replayed}
use clandestine.Delivery.{Delivered}
use clandestine.Delivery.Messages.{handle_notice_silent}
use clandestine.Invariant.Registered.{IsNamed, lines-IsNamed}
use clandestine.Prelude.Assoc
use clandestine.Prelude.Eq.{string_eq}
use clandestine.Invariant.Nicknames.{OwnNames, lines-names_unique}
use clandestine.Prelude.{sym, not, ◌++◌, Char, true, false, ◌&&◌, Bool}
use clandestine.Error.{Result, ok, err}
use clandestine.Client.Membership.{is_nil}
use clandestine.Database.{DatabaseContent}
use clandestine.Prelude.Set.{contains}
use clandestine.Act.{Outcome, done, fail, panic, blocked}
use clandestine.Client.ChannelMode.{handle_channel_mode}
use clandestine.Client.ChannelMode.Blocked.{no_changes, handle_channel_mode-blocked}
use clandestine.Client.Membership.{handle_join, chunks}
use clandestine.Client.Membership.Blocked.{handle_join-blocked}
use clandestine.Client.Dispatch.{handle_message}
use clandestine.Client.Dispatch.Negotiation.{handle_message-negotiating}
use clandestine.Client.User.{handle_nick}
use clandestine.Client.User.Nick.{name_after, answer_after, handle_nick_lem}
use clandestine.Client.Registration.{check_registration}
use clandestine.Invariant.{claimed}
use clandestine.Error.{protocol}
use clandestine.Channel.Modes.{ModesFit, param_after, set_mode-ModesFit}
use clandestine.Client.Query.{handle_whois}
use clandestine.Client.Query.Whois.{handle_whois-panic}
use clandestine.Server.Connection.{new}
use clandestine.Server.Clients.{add_client, remove_client}
use clandestine.Server.Clients.InSync.{InSync, clients-InSync}
use clandestine.Ping.{tick, pong, run}
use clandestine.Ping.Timeout.{waiting, pings, run-Steady}
use clandestine.Writer.{Writer, queued, write_queued}
use clandestine.Writer.Sendq.{start, round, Served, Steps-Served}
use clandestine.Database.{Json, Disk, Database, default_content, open_database, save}
use clandestine.Delivery.Private.{with_text, text_to_nick_lem}
use clandestine.Client.Membership.{handle_part}
use clandestine.Ts6.Parser.Errors.{is_ok, tagged_ok, has_command, after_space, parse_message-is_ok}
use clandestine.Prelude.Text.{is_empty, tail, starts_with_char}
use clandestine.Prelude.{if_elim}
use clandestine.Delivery.Leave.{Calm, members_at}
use clandestine.Delivery.Cleanup.{Gone, cleanup-Gone}
use clandestine.Client.Dispatch.{cleanup}
use clandestine.Server.Mask.{pattern_of}
use clandestine.Server.Mask.Translation.{translate_all, pattern_of_lem}

-- a configuration, a client that has not registered, and two that have
abbrev pub config : ServerConfig
config = record {
  server = record {
    name = "irc.test";
    description = "test";
    sid = "00A";
    bind_addr = "::";
    port = 6667;
  };
  network = record { name = "net"; links = [] };
  limits = record { max_clients = 10; max_channels = 10 };
  hostmask = none;
  access = default_access;
  database = none;
  timeouts = default_timeouts;
  links = [];
}

abbrev pub newcomer : Client
unfolding new_client
newcomer = new_client 1 "10.0.0.1" config

abbrev pub named : ClientId → String → Client
unfolding new_client
named id nick = record (new_client id "10.0.0.2" config) {
  nickname = some nick;
  username = some "u";
  realname = some "r";
  registered = true;
}

abbrev pub env : Env
env = record { to_lowercase = λ s. s; regex = λ p. none; date = λ t. "today" }

abbrev pub no_locks : Locks
no_locks = record {
  busy = [];
  writing = [];
  reading = [];
  map_readers = 0;
  queued = [];
  map_queued = false;
}

-- the channel that clients 1 and 2 are in
abbrev pub room : Channel
unfolding Channel.new Channel.set_mode
room = record (Channel.new "#a" 0) { members = 1 ∷ 2 ∷ [] }

abbrev pub server : Server
server = record {
  config = config;
  clients = 1 ∷ 2 ∷ [];
  client_map = 1 ∷ 2 ∷ [];
  channels = ("#a", room) ∷ [];
  database = none;
  nicknames = [];
  registration_timeouts = [];
  nickname_map = [];
  tx = none;
  linked_servers = [];
}

abbrev pub peers : ClientId → Client
peers id = if id == 2 then named 2 "bob" else newcomer

-- client 1 handles its own lines
abbrev pub world_of : Client → World
world_of c = record {
  env = env;
  now = 5;
  self = c;
  server = server;
  peers = peers;
  locks = no_locks;
}

abbrev pub alice : World
alice = record (world_of (named 1 "alice")) {
  server = record server { nickname_map = ("alice", 1) ∷ ("bob", 2) ∷ [] };
}

-- a JSON crate that writes a content without lines only
abbrev pub is_empty_content : DatabaseContent → Bool
is_empty_content c =
    is_nil c.klines
    && is_nil c.dlines
    && is_nil c.glines
    && is_nil c.ilines
    && is_nil c.olines
    && is_nil c.ulines
    && is_nil c.alines

pub is_nil_lem : {A : Type 0} (xs : List A) → is_nil xs ≡ true → xs ≡ []
is_nil_lem [] h = refl
is_nil_lem (x ∷ xs) h = ground arith

abbrev pub written_content : DatabaseContent → Result String String
written_content c = if is_empty_content c then ok "{}" else err "unsupported"

pub empty_content_lem :
    (c : DatabaseContent) (s : String) → written_content c ≡ ok s → default_content ≡ c
empty_content_lem c s h i = record {
  klines = sym (is_nil_lem c.klines (ground (arith, h))) i;
  dlines = sym (is_nil_lem c.dlines (ground (arith, h))) i;
  glines = sym (is_nil_lem c.glines (ground (arith, h))) i;
  ilines = sym (is_nil_lem c.ilines (ground (arith, h))) i;
  olines = sym (is_nil_lem c.olines (ground (arith, h))) i;
  ulines = sym (is_nil_lem c.ulines (ground (arith, h))) i;
  alines = sym (is_nil_lem c.alines (ground (arith, h))) i;
}

abbrev pub json : Json
json = record {
  to_string_pretty = written_content;
  from_str = λ s. ok default_content;
  from_str-to_string_pretty = λ c s h i. ok (empty_content_lem c s h i);
}

abbrev pub empty_disk : Disk
empty_disk = record { files = []; readable = λ p. true; writable = λ p. true }
