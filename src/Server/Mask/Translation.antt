-- ===== src/Server/Mask/Translation.antt =====
-- The pattern of a mask, character by character.
use clandestine.Prelude.{
  String, Char, if◌then◌else◌, same, same_iff, Bool-cases, inl, inr, ◌≡◌, refl, sym, ap, ◌∙◌,
}
use text.Mathlib.TextLemmas.{nil-append, cons-append}
use clandestine.Prelude.Text.{◌<>◌, cons}
use clandestine.Server.Mask.{replace, pattern_of}

-- What stands in the pattern for a character of the mask.
abbrev pub translate : Char → String → String
translate c rest =
    if same c "*"
    then ".*" <> rest
    else if same c "?"
    then "." <> rest
    else if same c "["
    then "\\[" <> rest
    else if same c "]"
    then "\\]" <> rest
    else cons c rest

pub translate_all : String → String
translate_all String.[] = ""
translate_all (String.◌∷◌ c s) = translate c (translate_all s)

dot-append : (s : String) → "." <> s ≡ cons "." s
dot-append s = cons-append "." "" s ∙ ap (cons ".") (nil-append s)

two-append : (c d : Char) (s : String) → (cons c (cons d "")) <> s ≡ cons c (cons d s)
two-append c d s =
    cons-append c (cons d "") s ∙ ap (cons c) (cons-append d "" s ∙ ap (cons d) (nil-append s))

pattern_of-cons : (c : Char) (s : String) → pattern_of (String.◌∷◌ c s) ≡ translate c (pattern_of s)
unfolding pattern_of replace
pattern_of-cons c s = elim (Bool-cases (same c "*")) [
  | inl a ↦ rw ((same_iff c "*").0 a, two-append "." "*") (sym (two-append "." "*" (pattern_of s)))
  | inr a ↦ elim (Bool-cases (same c "?")) [
    | inl b ↦ rw ((same_iff c "?").0 b, dot-append) (sym (dot-append (pattern_of s)))
    | inr b ↦ elim (Bool-cases (same c "[")) [
      | inl d ↦
          rw ((same_iff c "[").0 d, two-append "\\" "[") (sym (two-append "\\" "[" (pattern_of s)))
      | inr d ↦ elim (Bool-cases (same c "]")) [
        | inl e ↦ rw ((same_iff c "]").0 e, two-append "\\" "]") refl
        | inr e ↦ rw (a, b, d, e) refl
      ]
    ]
  ]
]

-- The four replacements, one after another, do not meet: the pattern of a mask has `.*` for each star,
-- a dot for each question mark, each bracket with a backslash before it, and every other character as
-- it stands, in the order of the mask.
pub pattern_of_lem : (mask : String) → pattern_of mask ≡ translate_all mask
unfolding pattern_of replace translate_all
pattern_of_lem String.[] = refl
pattern_of_lem (String.◌∷◌ c s) = pattern_of-cons c s ∙ ap (translate c) (pattern_of_lem s)
