-- ===== src/Ts6/Parser.antt =====
-- src/ts6/parser.rs: how a line is read as a message.
pub mod Errors
use clandestine.Prelude.{
  String, Bool, true, false, List, [], ◌∷◌, ◌++◌, Option, none, some, ◌≡◌, refl, if◌then◌else◌,
}
use clandestine.Prelude.Text.{◌<>◌, split, splitn2, starts_with_char, is_empty, tail, push}
use clandestine.Prelude.Assoc.{Assoc, insert}
use clandestine.Prelude.Eq.{string_eq}
use clandestine.Error.{Result, ok, err, ◌>>=◌}
use clandestine.Ts6.{Ts6Message}

-- The variables of the loop of `parse_params`.
pub record Scan : Type 0 where
  pub params : List String
  pub trailing : String
  pub in_trailing : Bool

unfoldable pub scan_part : Scan → String → Scan
scan_part s part =
    if starts_with_char ":" part
    then record s { in_trailing = true; trailing = s.trailing <> tail part }
    else if s.in_trailing
    then record s { trailing = push s.trailing " " <> part }
    else record s { params = s.params ++ part ∷ [] }

unfoldable pub scan_parts : Scan → List String → Scan
scan_parts s [] = s
scan_parts s (part ∷ parts) = scan_parts (scan_part s part) parts

abbrev scan_start : Scan
scan_start = record { params = []; trailing = ""; in_trailing = false }

abbrev pub scan_end : Scan → List String
scan_end s = if s.in_trailing then s.params ++ s.trailing ∷ [] else s.params

unfoldable pub parse_params : String → List String
unfolding scan_parts scan_part
parse_params param_str = scan_end (scan_parts scan_start (split " " param_str))

-- One `key=value` of the tags; an entry with no `=` is skipped.
abbrev pub insert_tag : Assoc String String → String × Option String → Assoc String String
insert_tag tags (key, none) = tags
insert_tag tags (key, some value) = insert key value tags

unfoldable pub parse_tags : Assoc String String → List String → Assoc String String
parse_tags tags [] = tags
parse_tags tags (tag ∷ more) = parse_tags (insert_tag tags (splitn2 "=" tag)) more

abbrev tags_and_rest : String × Option String → Result (Assoc String String × String) String
tags_and_rest (first, none) = err "Failed to parse message tags"
tags_and_rest (first, some rest) = ok (parse_tags [] (split ";" first), rest)

unfoldable pub read_tags : String → Result (Assoc String String × String) String
unfolding parse_tags split splitn2
read_tags line =
    if starts_with_char "@" line then tags_and_rest (splitn2 " " (tail line)) else ok ([], line)

abbrev source_and_rest : String × Option String → Result (Option String × String) String
source_and_rest (first, none) = err "Missing command after source"
source_and_rest (first, some rest) = ok (some (tail first), rest)

-- `splitn` always has a first part, so the branch "Missing source" is never taken.
unfoldable pub read_source : String → Result (Option String × String) String
unfolding splitn2
read_source rest =
    if starts_with_char ":" rest then source_and_rest (splitn2 " " rest) else ok (none, rest)

abbrev pub command_and_params : String × Option String → String × List String
command_and_params (command, none) = (command, [])
command_and_params (command, some param_str) = (command, parse_params param_str)

-- Nor is "Missing command".
unfoldable pub read_command : String → String × List String
unfolding splitn2 parse_params
read_command rest = command_and_params (splitn2 " " rest)

abbrev pub message : Assoc String String → Option String → String × List String → Ts6Message
message tags source (command, params) = record {
  tags = tags;
  source = source;
  command = command;
  params = params;
}

unfoldable pub parse_message : String → Result Ts6Message String
unfolding read_tags read_source read_command
parse_message line = if is_empty line then err "Empty message" else do
  (tags, rest) ← read_tags line
  (source, rest') ← read_source rest
  ok (message tags source (read_command rest'))

-- The unit test of src/ts6/tests.rs.
test_parse_basic_message :
    parse_message "NICK test 1 :Real Name"
    ≡ ok (record {
      tags = [];
      source = none;
      command = "NICK";
      params = "test" ∷ "1" ∷ "Real Name" ∷ [];
    })
unfolding parse_message
test_parse_basic_message = refl

parse_tagged :
    parse_message "@a=b;c :src PING"
    ≡ ok (record { tags = ("a", "b") ∷ []; source = some "src"; command = "PING"; params = [] })
unfolding parse_message insert
parse_tagged = refl
