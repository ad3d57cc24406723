-- ===== src/Tests/Program.antt =====
-- Examples of the theorems on the program's start, the file of lines and links.
use clandestine.Prelude.{
  take, length, leb, String, Char, Bool, true, false, List, [], ◌∷◌, ◌&&◌, none, ◌≡◌, refl, sym,
  arith, if◌then◌else◌, ==_iff, subst, ap, Bool-cases, inl, inr,
}
use clandestine.Prelude.Assoc
use clandestine.Prelude.Set
use clandestine.Prelude.Int.{ℤ, pos, negsuc}
use clandestine.Prelude.Eq.{◌==◌, nat_eq, char_eq, string_eq}
use clandestine.Error.{io, Result, ok, err}
use clandestine.Act.Ends.{has_ended}
use clandestine.Cli.{default_cli}
use clandestine.Config.{KLine, ServerLinkConfig}
use clandestine.Config.Load.{Toml}
use clandestine.Database.{Json, Database, DatabaseContent, default_content}
use clandestine.Main.{Setting}
use clandestine.Server.Run.{Event, accepted, line}
use clandestine.Link.{ServerLink}
use clandestine.Link
use clandestine.Link.Replies.{
  pongs, until_squit, has_squit, readings, ending, handle_connection_lem,
}
use clandestine.Server.Links.{connect_to_server, link_task}
use clandestine.Server.Links.Handshake.{link_of, Linked, connect_to_server_lem}
use clandestine.Client.User.{user_modes, is_user_mode}
use clandestine.Client.User.Modes.{last_sign, signed_or, contains-user_modes}
use clandestine.Client.Registration.Order.{
  Fresh, nick_first, user_first, both_named, Registers, registration_order,
}
use clandestine.Ts6
use clandestine.Client.Dispatch.{handle_message}
use clandestine.Client.Dispatch.Termination.{handle_message-ends}
use clandestine.Tests.{
  is_empty_content, empty_content_lem, config, newcomer, env, empty_disk, alice, world_of,
}

-- a configuration file, and a crate that reads any text as that configuration
abbrev toml : Toml
toml = record { from_str = λ s. ok config }

abbrev setting : Setting
setting = record {
  cli = default_cli;
  disk = record empty_disk { files = ("config.toml", "[server]") ∷ [] };
  env = env;
  now = 5;
  bind = λ a. none;
}

abbrev events : List Event
events = accepted "10.0.0.1" ∷ line 1 "NICK alice" ∷ []

handle_message-ends_example :
    has_ended (handle_message (Ts6.new "NICK" ("bob" ∷ [])) alice).0 ≡ true
handle_message-ends_example = handle_message-ends (Ts6.new "NICK" ("bob" ∷ [])) alice refl

newcomer-Fresh : Fresh "alice" (world_of newcomer)
unfolding newcomer Assoc.get
newcomer-Fresh = record {
  no_nickname = refl;
  no_username = refl;
  unregistered = refl;
  not_negotiating = refl;
  is_free = refl;
  open_queue = refl;
}

registration_order_example :
    (nick_first "alice" "a" "0" "*" "Alice" (world_of newcomer)
      ≡ user_first "alice" "a" "0" "*" "Alice" (world_of newcomer))
    × Registers
        (both_named "alice" "a" "0" "*" "Alice" (world_of newcomer))
        (nick_first "alice" "a" "0" "*" "Alice" (world_of newcomer))
registration_order_example =
    registration_order "alice" "a" "0" "*" "Alice" (world_of newcomer) newcomer-Fresh

abbrev link_config : ServerLinkConfig
link_config = record {
  name = "hub";
  sid = "00B";
  description = "hub";
  password = "pw";
  address = "10.0.0.9:6667";
  autoconnect = true;
  ssl = false;
}

abbrev link_lines : List String
link_lines = "PING :hub\r\n" ∷ "SQUIT :hub\r\n" ∷ []

handle_connection_lem_example :
    ((Link.handle_connection link_lines (link_of 3 link_config)).1.written
      ≡ take 3 (pongs (until_squit (readings link_lines))))
    × ((Link.handle_connection link_lines (link_of 3 link_config)).0 ≡ (
        if leb (length (pongs (until_squit (readings link_lines)))) 3
        then ending (has_squit (readings link_lines))
        else err (io "Broken pipe")))
unfolding link_of
handle_connection_lem_example = handle_connection_lem link_lines (link_of 3 link_config)

connect_to_server_lem_example :
    Linked link_config alice (ok 3) (connect_to_server (ok 3) link_config alice)
    × ((link_task link_lines (link_of 3 link_config)).written
        ≡ take 3 (pongs (until_squit (readings link_lines))))
connect_to_server_lem_example = connect_to_server_lem (ok 3) link_config link_lines 3 alice

contains-user_modes_example : Set.contains {A = Char} "w" (user_modes true "+iw-w" ("o" ∷ [])) ≡ (
    if is_user_mode "w"
    then signed_or (last_sign true "w" "+iw-w" none) (Set.contains {A = Char} "w" ("o" ∷ []))
    else Set.contains {A = Char} "w" ("o" ∷ []))
contains-user_modes_example = contains-user_modes "w" "+iw-w" true ("o" ∷ [])

-- a line, and a JSON crate that writes a content with that line only, or one without lines
abbrev kline : KLine
kline = record { mask = "*@bad"; reason = "r"; set_by = "s"; duration = pos 0; set_time = 0 }

abbrev one_kline : DatabaseContent
one_kline = record default_content { klines = kline ∷ [] }

is_zero : ℤ → Bool
is_zero (pos n) = n == 0
is_zero (negsuc n) = false

is_kline : KLine → Bool
is_kline k =
    (k.mask == "*@bad")
    && (k.reason == "r")
    && (k.set_by == "s")
    && is_zero k.duration
    && (k.set_time == 0)

is_zero_lem : (z : ℤ) → is_zero z ≡ true → pos 0 ≡ z
unfolding is_zero
is_zero_lem (pos n) h = λ i. pos (sym ((==_iff n 0).0 h) i)
is_zero_lem (negsuc n) h = ground arith

is_kline_lem : (k : KLine) → is_kline k ≡ true → kline ≡ k
unfolding is_kline
is_kline_lem k h i = record {
  mask = sym ((string_eq.beq_holds k.mask "*@bad").0 (ground (arith, h))) i;
  reason = sym ((string_eq.beq_holds k.reason "r").0 (ground (arith, h))) i;
  set_by = sym ((string_eq.beq_holds k.set_by "s").0 (ground (arith, h))) i;
  duration = is_zero_lem k.duration (ground (arith, h)) i;
  set_time = sym ((==_iff k.set_time 0).0 (ground (arith, h))) i;
}

written_klines : List KLine → Result String String
written_klines [] = ok "{}"
written_klines (k ∷ []) = if is_kline k then ok "one" else err "unsupported"
written_klines (k ∷ j ∷ ks) = err "unsupported"

text_of : Result String String → String
text_of (ok s) = s
text_of (err e) = e

abbrev read_klines : String → List KLine
read_klines s = if s == "{}" then [] else kline ∷ []

klines_lem : (ks : List KLine) (s : String) → written_klines ks ≡ ok s → read_klines s ≡ ks
unfolding written_klines text_of
klines_lem [] s h = subst (λ t. read_klines t ≡ []) (ap text_of h) refl
klines_lem (k ∷ []) s h = elim (Bool-cases (is_kline k)) [
  | inl e ↦
      subst (λ t. read_klines t ≡ k ∷ []) (ap text_of (rw e at h))
        (ap (λ (j : KLine). j ∷ []) (is_kline_lem k e))
  | inr e ↦ ground (arith, h, e)
]
klines_lem (k ∷ j ∷ ks) s h = ground (arith, h)

-- the content without its lines of this kind
abbrev others : DatabaseContent → DatabaseContent
others c = record c { klines = [] }

written : DatabaseContent → Result String String
written c = if is_empty_content (others c) then written_klines c.klines else err "unsupported"

abbrev read_back : String → DatabaseContent
read_back s = record default_content { klines = read_klines s }

read_back_lem : (c : DatabaseContent) (s : String) → written c ≡ ok s → read_back s ≡ c
unfolding written
read_back_lem c s h i = record {
  klines = klines_lem c.klines s (ground (arith, h)) i;
  dlines = (rest i).dlines;
  glines = (rest i).glines;
  ilines = (rest i).ilines;
  olines = (rest i).olines;
  ulines = (rest i).ulines;
  alines = (rest i).alines;
}
  where
    rest : default_content ≡ others c
    rest = empty_content_lem (others c) "{}" (ground (arith, h))

abbrev kline_json : Json
kline_json = record {
  to_string_pretty = written;
  from_str = λ s. ok (read_back s);
  from_str-to_string_pretty = λ c s h i. ok (read_back_lem c s h i);
}

abbrev empty_database : Database
empty_database = record { path = "lines.json"; content = default_content }
