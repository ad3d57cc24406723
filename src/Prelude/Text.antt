-- ===== src/Prelude/Text.antt =====
-- The operations on `str` that the program calls, over the native texts: a text is a sequence of
-- characters, and every separator here is one ASCII character.
pub mod Split
use Prim.Native.Nat.{ℕ, zero, suc, ◌/◌, ◌%◌, ◌+◌}
use Prim.Native.Char.{Char, code}
use Prim.Native.String
use Prim.Native.String.{String, [], ◌∷◌, slice}
use mathlib.Core.Path.{◌≡◌, refl}
use mathlib.Core.Bool.{Bool, true, false, ◌||◌}
use mathlib.Core.Option.{Option, none, some}
use mathlib.Core.List
use mathlib.Core.List.{List}
use clandestine.Prelude.Tests.{same, ltb, if◌then◌else◌}

infixr 65 ◌<>◌
abbrev pub ◌<>◌ : String → String → String
s <> t = String.◌++◌ s t

-- `[c, s..]` as a text
abbrev pub cons : Char → String → String
cons c s = c ∷ s

-- `String::push`
abbrev pub push : String → Char → String
push s c = s <> (c ∷ [])

-- `s.starts_with(c)`
abbrev pub starts_with_char : Char → String → Bool
starts_with_char d [] = false
starts_with_char d (c ∷ s) = same c d

-- `s.contains(c)`
unfoldable pub contains_char : Char → String → Bool
contains_char d [] = false
contains_char d (c ∷ s) = same c d || contains_char d s

abbrev pub is_empty : String → Bool
is_empty [] = true
is_empty (c ∷ s) = false

-- `&s[1..]`, where the first character is one byte
abbrev pub tail : String → String
tail [] = []
tail (c ∷ s) = s

abbrev push_head : Char → List String → List String
push_head c List.[] = List.◌∷◌ (c ∷ []) List.[]
push_head c (List.◌∷◌ p ps) = List.◌∷◌ (c ∷ p) ps

-- `s.split(d)`
unfoldable pub split : Char → String → List String
split d [] = List.◌∷◌ [] List.[]
split d (c ∷ s) = let rest = split d s in if same c d then List.◌∷◌ [] rest else push_head c rest

abbrev pair_head : Char → String × Option String → String × Option String
pair_head c (h, t) = (c ∷ h, t)

-- `s.splitn(2, d)`: the first part, and the second if there is one
unfoldable pub splitn2 : Char → String → String × Option String
splitn2 d [] = ([], none)
splitn2 d (c ∷ s) = let rest = splitn2 d s in if same c d then ([], some s) else pair_head c rest

-- `parts.join(sep)`
unfoldable pub join : String → List String → String
join sep List.[] = ""
join sep (List.◌∷◌ p List.[]) = p
join sep (List.◌∷◌ p (List.◌∷◌ q ps)) = p <> sep <> join sep (List.◌∷◌ q ps)

digit_text : ℕ → String
digit_text n = slice "0123456789" n (n + 1)

decimal_from : ℕ → ℕ → String
decimal_from zero n = digit_text (n % 10)
decimal_from (suc fuel) n =
    let front = decimal_from fuel (n / 10) in
    if ltb n 10 then digit_text n else front <> digit_text (n % 10)

-- `n.to_string()` of an unsigned number; its own value is fuel enough
unfoldable pub decimal : ℕ → String
unfolding decimal_from digit_text
decimal n = decimal_from n n

-- `format!("{:03}", n)`
unfoldable pub decimal3 : ℕ → String
unfolding decimal
decimal3 n =
    if ltb n 10 then "00" <> decimal n else if ltb n 100 then "0" <> decimal n else decimal n

decimal_run : decimal 40960 ≡ "40960"
unfolding decimal
decimal_run = refl
