-- ===== src/Ts6.antt =====
-- src/ts6/mod.rs: the message type of both protocols, and how a message is written.
pub mod Parser
pub mod RoundTrip
use clandestine.Prelude.{
  String, List, [], ◌∷◌, ◌++◌, Option, none, some, ◌≡◌, refl, ◌||◌, if◌then◌else◌,
}
use clandestine.Prelude.Text.{◌<>◌, join, contains_char, is_empty}
use clandestine.Prelude.Assoc.{Assoc}

pub record Ts6Message : Type 0 where
  pub tags : Assoc String String
  pub source : Option String
  pub command : String
  pub params : List String

-- `TS6Message::new`
abbrev pub new : String → List String → Ts6Message
new command params = record { tags = []; source = none; command = command; params = params }

-- `TS6Message::with_source`
abbrev pub with_source : String → String → List String → Ts6Message
with_source source command params = record {
  tags = [];
  source = some source;
  command = command;
  params = params;
}

source_parts : Option String → List String
source_parts none = []
source_parts (some source) = (":" <> source) ∷ []

-- The last parameter gets a colon on both branches.
trailing_part : String → String
unfolding contains_char
trailing_part last = if contains_char " " last || is_empty last then ":" <> last else ":" <> last

param_parts : List String → List String
unfolding trailing_part
param_parts [] = []
param_parts (last ∷ []) = trailing_part last ∷ []
param_parts (p ∷ q ∷ ps) = p ∷ param_parts (q ∷ ps)

unfoldable pub to_string : Ts6Message → String
unfolding source_parts param_parts join
to_string m = join " " (source_parts m.source ++ m.command ∷ param_parts m.params)

to_string_run :
    to_string (with_source "srv" "PRIVMSG" ("#a" ∷ "hi there" ∷ [])) ≡ ":srv PRIVMSG #a :hi there"
unfolding to_string
to_string_run = refl
