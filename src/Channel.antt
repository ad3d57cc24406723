-- ===== src/Channel.antt =====
-- src/channel/*.rs: the state of a channel and its methods. Times are seconds since the epoch and
-- are arguments, as is the clock's reading for `Utc::now` and `generate_ts`.
pub mod Modes
use clandestine.Prelude.{ℕ, String, Char, Bool, true, false, List, [], ◌∷◌, Option, none, some}
use clandestine.Prelude.Assoc
use clandestine.Prelude.Assoc.{Assoc}
use clandestine.Prelude.Set
use clandestine.Prelude.Eq.{◌==◌, nat_eq, char_eq, string_eq}
use clandestine.Prelude.Text.{push}

abbrev pub DateTime : Type 0
DateTime = ℕ

abbrev pub ClientId : Type 0
ClientId = ℕ

-- list.rs
pub record Ban : Type 0 where
  pub mask : String
  pub set_by : String
  pub set_time : DateTime

-- mode.rs; no code uses it
pub record ChannelModes : Type 0 where
  pub invite_only : Bool
  pub moderated : Bool
  pub no_external_messages : Bool
  pub secret : Bool
  pub topic_protection : Bool
  pub key : Option String
  pub limit : Option ℕ

abbrev pub default : ChannelModes
default = record {
  invite_only = false;
  moderated = false;
  no_external_messages = true;
  secret = false;
  topic_protection = true;
  key = none;
  limit = none;
}

pub record Channel : Type 0 where
  pub name : String
  pub topic : Option String
  pub topic_setter : Option String
  pub topic_time : DateTime
  pub members : List ClientId
  pub modes : List Char
  pub mode_params : Assoc Char String
  pub created_at : ℕ
  pub bans : List Ban
  pub operators : List ClientId
  pub voices : List ClientId

-- mode.rs
abbrev same_param : Option String → String → Bool
same_param none nick = false
same_param (some param) nick = param == nick

unfoldable pub has_mode : Char → Option String → Channel → Bool
has_mode mode (some nick) ch = same_param (Assoc.get mode ch.mode_params) nick
has_mode mode none ch = Set.contains mode ch.modes

push_all : String → List Char → String
push_all s [] = s
push_all s (c ∷ cs) = push_all (push s c) cs

unfoldable pub get_modes : Channel → String
unfolding push_all
get_modes ch = push_all "" ch.modes

abbrev insert_param : Char → Option String → Assoc Char String → Assoc Char String
insert_param mode none params = params
insert_param mode (some param) params = Assoc.insert mode param params

unfoldable pub set_mode : Char → Option String → Bool → Channel → Channel
set_mode mode param true ch = record ch {
  modes = Set.insert mode ch.modes;
  mode_params = insert_param mode param ch.mode_params;
}
set_mode mode param false ch = record ch {
  modes = Set.remove mode ch.modes;
  mode_params = Assoc.remove mode ch.mode_params;
}

-- mod.rs: a new channel at time `now`, with the default modes +nt
unfoldable pub new : String → DateTime → Channel
unfolding set_mode
new name now = set_mode "t" none true (
    set_mode "n" none true (record {
      name = name;
      topic = none;
      topic_setter = none;
      topic_time = now;
      members = [];
      modes = [];
      mode_params = [];
      created_at = now;
      bans = [];
      operators = [];
      voices = [];
    }))

-- topic.rs
abbrev pub get_topic : Channel → Option String
get_topic ch = ch.topic

unfoldable pub set_topic : String → String → DateTime → Channel → Channel
set_topic topic setter now ch = record ch {
  topic = some topic;
  topic_setter = some setter;
  topic_time = now;
}

abbrev pub get_topic_details : Channel → Option String × Option String × DateTime
get_topic_details ch = (ch.topic, ch.topic_setter, ch.topic_time)

-- member.rs
unfoldable pub add_member : ClientId → Channel → Channel
add_member client_id ch = record ch { members = Set.insert client_id ch.members }

unfoldable pub remove_member : ClientId → Channel → Channel
remove_member client_id ch = record ch { members = Set.remove client_id ch.members }

abbrev pub get_members : Channel → List ClientId
get_members ch = ch.members
