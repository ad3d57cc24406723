-- ===== src/Ts6/Parser/Errors.antt =====
-- Which lines src/ts6/parser.rs refuses.
use clandestine.Prelude.{
  String, Bool, true, false, ◌≡◌, refl, [], Option, none, some, if◌then◌else◌, Bool-cases, inl, inr,
}
use clandestine.Prelude.Assoc.{Assoc, is_some}
use clandestine.Prelude.Text.{starts_with_char, splitn2, is_empty, tail}
use clandestine.Error.{Result, ok, err, ◌>>=◌}
use clandestine.Ts6.{Ts6Message}
use clandestine.Ts6.Parser.{
  parse_message, read_tags, read_source, read_command, message, source_and_rest, tags_and_rest,
}

abbrev pub is_ok : Result Ts6Message String → Bool
is_ok (ok m) = true
is_ok (err e) = false

-- What follows the first space of a text, if it has one.
abbrev pub after_space : String → Option String
after_space s = (splitn2 " " s).1

-- Whether a text is a message without tags: it does not begin with a colon, or has a space.
abbrev pub has_command : String → Bool
has_command rest = if starts_with_char ":" rest then is_some (after_space rest) else true

abbrev pub tagged_ok : Option String → Bool
tagged_ok none = false
tagged_ok (some rest) = has_command rest

source_lem :
    (tags : Assoc String String) (parts : String × Option String)
    → is_ok (source_and_rest parts >>= λ found. ok (message tags found.0 (read_command found.1)))
      ≡ is_some parts.1
source_lem tags (first, none) = refl
source_lem tags (first, some rest) = refl

has_command_lem :
    (tags : Assoc String String) (rest : String)
    → is_ok (read_source rest >>= λ found. ok (message tags found.0 (read_command found.1)))
      ≡ has_command rest
unfolding read_source
has_command_lem tags rest = elim (Bool-cases (starts_with_char ":" rest)) [
  | inr n ↦ rw n refl
  | inl h ↦ rw h (source_lem tags (splitn2 " " rest))
]

tags_lem :
    (parts : String × Option String)
    → is_ok (
        tags_and_rest parts >>= λ tagged.
        read_source tagged.1 >>= λ found. ok (message tagged.0 found.0 (read_command found.1)))
      ≡ tagged_ok parts.1
tags_lem (first, none) = refl
tags_lem (first, some rest) = has_command_lem _ rest

-- A line is read exactly if it is not empty; where it begins with an at-sign, a space follows the tags,
-- and the rest counts; and where that begins with a colon, it has a space. The parser refuses no
-- other line.
pub parse_message-is_ok :
    (line : String)
    → is_ok (parse_message line) ≡ (
        if is_empty line
        then false
        else if starts_with_char "@" line
        then tagged_ok (after_space (tail line))
        else has_command line)
unfolding parse_message read_tags read_source
parse_message-is_ok line = elim (Bool-cases (is_empty line)) [
  | inl e ↦ rw e refl
  | inr e ↦ elim (Bool-cases (starts_with_char "@" line)) [
    | inr n ↦ rw (e, n) (has_command_lem [] line)
    | inl h ↦ rw (e, h) (tags_lem (splitn2 " " (tail line)))
  ]
]
