-- ===== src/Prelude/Text/Split.antt =====
-- How `split`, `splitn2` and `join` undo one another.
use Prim.Native.Char.{Char, code}
use Prim.Native.String.{String, [], ◌∷◌}
use mathlib.Core.Path.{◌≡◌, refl}
use mathlib.Core.Logic.{◌≢◌}
use mathlib.Core.Option.{none, some}
use mathlib.Core.List.{List}
use native.Mathlib.Omega.{arith}
use text.Mathlib.TextLemmas.{nil-append, cons-append, append-nil}
use clandestine.Prelude.Text.{◌<>◌, split, splitn2, join, cons}

-- No character of the text is `d`.
abbrev pub Lacks : Char → String → Type 0
Lacks d [] = Unit
Lacks d (c ∷ s) = (code c ≢ code d) × Lacks d s

pub splitn2-append : (d : Char) (h t : String) → Lacks d h → splitn2 d (h <> cons d t) ≡ (h, some t)
unfolding splitn2
splitn2-append d [] t l = rw nil-append (ground arith)
splitn2-append d (c ∷ h) t l = rw cons-append (ground (arith, splitn2-append d h t l.1))

pub splitn2_whole : (d : Char) (h : String) → Lacks d h → splitn2 d h ≡ (h, none)
unfolding splitn2
splitn2_whole d [] l = refl
splitn2_whole d (c ∷ h) l = ground (arith, splitn2_whole d h l.1)

pub split-append :
    (d : Char) (h t : String) → Lacks d h → split d (h <> cons d t) ≡ List.◌∷◌ h (split d t)
unfolding split
split-append d [] t l = rw nil-append (ground arith)
split-append d (c ∷ h) t l = rw cons-append (ground (arith, split-append d h t l.1))

pub split_whole : (d : Char) (h : String) → Lacks d h → split d h ≡ List.◌∷◌ h List.[]
unfolding split
split_whole d [] l = refl
split_whole d (c ∷ h) l = ground (arith, split_whole d h l.1)

-- What `join` puts behind the first part.
abbrev pub led : String → List String → String
led sep List.[] = ""
led sep (List.◌∷◌ p ps) = sep <> p <> led sep ps

pub join-led : (sep p : String) (ps : List String) → join sep (List.◌∷◌ p ps) ≡ p <> led sep ps
unfolding join
join-led sep p List.[] = rw append-nil
join-led sep p (List.◌∷◌ q ps) = rw (join-led sep q ps)
