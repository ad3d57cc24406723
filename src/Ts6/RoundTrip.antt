-- ===== src/Ts6/RoundTrip.antt =====
-- Messages that src/ts6/mod.rs writes, read by src/ts6/parser.rs.
use text.Mathlib.TextLemmas.{nil-append, cons-append, append_assoc, append-nil}
use mathlib.Core.List
use clandestine.Prelude.{
  String, Char, code, true, false, List, [], ◌∷◌, ◌++◌, Option, none, some, ◌≡◌, refl, sym, ◌∙◌, ap,
  subst, arith, All, Bool-cases, inl, inr, same, same_iff,
}
use clandestine.Prelude.Text.{◌<>◌, cons, push, split, join, starts_with_char, is_empty}
use clandestine.Prelude.Text.Split.{Lacks, splitn2-append, splitn2_whole, split-append, led}
use clandestine.Error.{ok}
use clandestine.Ts6.{Ts6Message, trailing_part, param_parts, to_string}
use clandestine.Ts6.Parser.{
  Scan, scan_part, scan_parts, scan_end, message, command_and_params, parse_params, read_command,
  read_source, parse_message,
}

-- The text does not begin with a colon.
abbrev pub NoColon : String → Type 0
NoColon s = starts_with_char ":" s ≡ false

-- No space of the text stands before a colon.
abbrev pub NoSpaceColon : String → Type 0
NoSpaceColon String.[] = Unit
NoSpaceColon (String.◌∷◌ c s) = (code c ≡ b' ' → NoColon s) × NoSpaceColon s

-- `split` gives a first part that begins as the text does, no later part begins with a colon, and
-- the text is the parts with a space between them.
abbrev LaterParts : String → Type 0
LaterParts s =
    (p : String) × (ps : List String) × (split " " s ≡ p ∷ ps)
    × (starts_with_char ":" p ≡ starts_with_char ":" s)
    × All NoColon ps
    × (p <> led " " ps ≡ s)

LaterParts-cons :
    (c : Char) (s : String) → (code c ≡ b' ' → NoColon s) → LaterParts s → LaterParts (cons c s)
unfolding split
LaterParts-cons c s h (p, ps, e, f, a, l) = elim (Bool-cases (same c " ")) [
  | inl hit ↦ (
    "",
    p ∷ ps,
    rw (hit, e),
    ground arith,
    ground arith,
    rw (nil-append, cons-append, nil-append, l, (same_iff c " ").0 hit),
  )
  | inr miss ↦ (cons c p, ps, rw (miss, e), refl, a, rw (cons-append, l))
]

later_parts : (s : String) → NoSpaceColon s → LaterParts s
unfolding split
later_parts String.[] h = ("", [], refl, refl, tt, nil-append "")
later_parts (String.◌∷◌ c s) h = LaterParts-cons c s h.0 (later_parts s h.1)

-- In the trailing parameter the loop puts every part back behind its space.
scan_parts_trailing :
    (ps : List String) (t : String) (parts : List String)
    → All NoColon parts
    → scan_parts (record { params = ps; trailing = t; in_trailing = true }) parts
      ≡ record { params = ps; trailing = t <> led " " parts; in_trailing = true }
unfolding scan_parts scan_part
scan_parts_trailing ps t [] h = rw append-nil
scan_parts_trailing ps t (p ∷ parts) h =
    rw (h.0, scan_parts_trailing ps (push t " " <> p) parts h.1) (simp append_assoc)

colon-append : (s : String) → ":" <> s ≡ cons ":" s
colon-append s = rw (cons-append, nil-append)

space-append : (s : String) → " " <> s ≡ cons " " s
space-append s = rw (cons-append, nil-append)

trailing_part_lem : (last : String) → trailing_part last ≡ cons ":" last
unfolding trailing_part
trailing_part_lem last = ground (arith, colon-append last)

-- What the parser needs of the parameters to give them back.
abbrev pub ParamsPrintable : List String → Type 0
ParamsPrintable [] = Unit
ParamsPrintable (last ∷ []) = NoSpaceColon last
ParamsPrintable (p ∷ q ∷ ps) = Lacks " " p × NoColon p × ParamsPrintable (q ∷ ps)

abbrev scanning : List String → Scan
scanning acc = record { params = acc; trailing = ""; in_trailing = false }

scan_last :
    (acc : List String) (last : String)
    → LaterParts last
    → scan_end (scan_parts (scanning acc) (split " " (cons ":" last))) ≡ acc ++ last ∷ []
unfolding scan_parts scan_part split
scan_last acc last (p, ps, e, f, a, l) =
    rw (e, scan_parts_trailing acc ("" <> p) ps a, nil-append, l)

join-param_parts :
    (p q : String) (ps : List String)
    → join " " (p ∷ param_parts (q ∷ ps)) ≡ p <> cons " " (join " " (param_parts (q ∷ ps)))
unfolding join param_parts
join-param_parts p q [] = rw space-append
join-param_parts p q (r ∷ ps) = rw space-append

scan_params :
    (acc : List String) (p : String) (ps : List String)
    → ParamsPrintable (p ∷ ps)
    → scan_end (scan_parts (scanning acc) (split " " (join " " (param_parts (p ∷ ps)))))
      ≡ acc ++ p ∷ ps
unfolding param_parts join scan_parts scan_part
scan_params acc p [] h = rw trailing_part_lem (scan_last acc p (later_parts p h))
scan_params acc p (q ∷ ps) (l, n, h) =
    rw (join-param_parts p q ps, split-append " " p _ l, scan_parts, scan_part, n)
      (scan_params (acc ++ p ∷ []) q ps h ∙ List.append_assoc acc (p ∷ []) (q ∷ ps))

parse_params-param_parts :
    (p : String) (ps : List String)
    → ParamsPrintable (p ∷ ps)
    → parse_params (join " " (param_parts (p ∷ ps))) ≡ p ∷ ps
unfolding parse_params
parse_params-param_parts p ps h = scan_params [] p ps h

-- The messages that the wire format can carry.
pub record IsPrintable (m : Ts6Message) : Type 0 where
  pub no_tags : m.tags ≡ []
  pub source_lacks : (s : String) → m.source ≡ some s → Lacks " " s
  pub command_lacks : Lacks " " m.command
  pub command_ne_empty : is_empty m.command ≡ false
  pub command_no_colon : NoColon m.command
  pub command_no_at : starts_with_char "@" m.command ≡ false
  pub params_printable : ParamsPrintable m.params

abbrev body : String → List String → String
body command params = join " " (command ∷ param_parts params)

read_command-body :
    (command : String) (params : List String)
    → Lacks " " command
    → ParamsPrintable params
    → read_command (body command params) ≡ (command, params)
unfolding read_command param_parts join
read_command-body command [] l h = ap command_and_params (splitn2_whole " " command l)
read_command-body command (p ∷ ps) l h =
    rw (join-param_parts command p ps, read_command, splitn2-append " " command _ l)
      (ap (λ qs. (command, qs)) (parse_params-param_parts p ps h))

body-cons :
    (c : Char) (s : String) (params : List String) → body (cons c s) params ≡ cons c (body s params)
unfolding join param_parts
body-cons c s [] = refl
body-cons c s (p ∷ []) = cons-append c s _
body-cons c s (p ∷ q ∷ ps) = cons-append c s _

-- A line with no tags is read by its source and what follows it.
parse_message_untagged :
    (line : String) (source : Option String) (rest : String)
    → is_empty line ≡ false
    → starts_with_char "@" line ≡ false
    → read_source line ≡ ok (source, rest)
    → parse_message line ≡ ok (message [] source (read_command rest))
unfolding parse_message
parse_message_untagged line source rest e a r = rw (parse_message, e, a, r)

parse_message-none :
    (command : String) (params : List String)
    → is_empty command ≡ false
    → NoColon command
    → starts_with_char "@" command ≡ false
    → parse_message (body command params)
      ≡ ok (message [] none (read_command (body command params)))
unfolding read_source
parse_message-none String.[] params e n a = cc
parse_message-none (String.◌∷◌ c s) params e n a =
    rw body-cons (parse_message_untagged (cons c (body s params)) none _ refl a (rw n))

parse_message-some :
    (t rest : String)
    → Lacks " " t
    → parse_message (cons ":" t <> cons " " rest) ≡ ok (message [] (some t) (read_command rest))
unfolding read_source
parse_message-some t rest k =
    parse_message_untagged _ (some t) rest (rw cons-append) (rw cons-append)
      (rw (splitn2-append " " (cons ":" t) rest ((λ e. omega arith), k)) (rw cons-append))

to_string-body :
    (source : Option String) (command : String) (params : List String)
    → ((s : String) → source ≡ some s → Lacks " " s)
    → is_empty command ≡ false
    → NoColon command
    → starts_with_char "@" command ≡ false
    → parse_message
        (to_string (record { tags = []; source = source; command = command; params = params }))
      ≡ ok (message [] source (read_command (body command params)))
unfolding to_string
to_string-body none command params k e n a = parse_message-none command params e n a
to_string-body (some t) command params k e n a =
    rw (colon-append, space-append) (parse_message-some t (body command params) (k t refl))

-- A message that the wire format can carry is read back from the line that is written for it: no
-- tags, no space in the source, a command that is not empty, has no space and begins with neither a
-- colon nor an at-sign, parameters before the last without spaces that do not begin with a colon,
-- and a last one in which no space stands before a colon.
pub parse_message-to_string : (m : Ts6Message) → IsPrintable m → parse_message (to_string m) ≡ ok m
parse_message-to_string m h =
    subst (λ r. parse_message (to_string r) ≡ ok r) (sym untagged)
      (to_string-body m.source m.command m.params h.source_lacks h.command_ne_empty
          h.command_no_colon h.command_no_at
        ∙ ap (λ p. ok (message [] m.source p))
            (read_command-body m.command m.params h.command_lacks h.params_printable))
  where
    untagged : m ≡ record m { tags = [] }
    untagged = λ i. record m { tags = h.no_tags i }
