-- ===== src/Server/Mask.antt =====
-- src/server/mask.rs: how a mask becomes a pattern for the `regex` crate.
pub mod Translation
use clandestine.Prelude.{
  String, Char, Bool, false, Option, none, some, if◌then◌else◌, same, ◌≡◌, refl,
}
use clandestine.Prelude.Text.{◌<>◌}
use clandestine.World.{Env}

-- `s.replace(c, to)` for one character
unfoldable pub replace : Char → String → String → String
replace d to String.[] = ""
replace d to (String.◌∷◌ c s) =
    let rest = replace d to s in if same c d then to <> rest else String.◌∷◌ c rest

unfoldable pub pattern_of : String → String
unfolding replace
pattern_of mask = replace "]" "\\]" (replace "[" "\\[" (replace "?" "." (replace "*" ".*" mask)))

abbrev matches : Option (String → Bool) → String → Bool
matches none host = false
matches (some is_match) host = is_match host

unfoldable pub mask_match : Env → String → String → Bool
unfolding pattern_of
mask_match env host mask = matches (env.regex ("^" <> pattern_of mask <> "$")) host

pattern_run : pattern_of "*!u?er[1]@a.b" ≡ ".*!u.er\\[1\\]@a.b"
unfolding pattern_of
pattern_run = refl
