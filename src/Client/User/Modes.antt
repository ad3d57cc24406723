-- ===== src/Client/User/Modes.antt =====
-- The loop over the letters of a user's MODE in src/client/user.rs.
use clandestine.Prelude.{
  String, Char, Bool, true, false, List, Option, none, some, ◌≡◌, arith, if◌then◌else◌, same,
}
use clandestine.Prelude.Set
use clandestine.Prelude.Set.{contains-insert, contains-remove}
use clandestine.Prelude.Eq.{◌==◌, char_eq}
use clandestine.Client.User.{is_user_mode, user_modes}

-- The sign before the last place of a letter in the text, if it is there at all.
abbrev pub last_sign : Bool → Char → String → Option Bool → Option Bool
last_sign adding c String.[] last = last
last_sign adding c (String.◌∷◌ d s) last =
    if same d "+"
    then last_sign true c s last
    else if same d "-"
    then last_sign false c s last
    else last_sign adding c s (if d == c then some adding else last)

abbrev pub signed_or : Option Bool → Bool → Bool
signed_or none b = b
signed_or (some a) b = a

abbrev as_signed : Char → Option Bool → List Char → Bool
as_signed c last modes =
    if is_user_mode c then signed_or last (Set.contains c modes) else Set.contains c modes

set_one :
    (c d : Char) (adding : Bool) (last : Option Bool) (before modes : List Char)
    → Set.contains c modes ≡ as_signed c last before
    → Set.contains c (
        if is_user_mode d
        then (if adding then Set.insert d modes else Set.remove d modes)
        else modes)
      ≡ as_signed c (if d == c then some adding else last) before
set_one c d true last before modes h =
    ground (arith, h, contains-insert d c modes, char_eq.beq_holds d c)
set_one c d false last before modes h =
    ground (arith, h, contains-remove d c modes, char_eq.beq_holds d c)

modes_after :
    (c : Char) (s : String) (adding : Bool) (last : Option Bool) (before modes : List Char)
    → Set.contains c modes ≡ as_signed c last before
    → Set.contains c (user_modes adding s modes) ≡ as_signed c (last_sign adding c s last) before
unfolding user_modes
modes_after c String.[] adding last before modes h = h
modes_after c (String.◌∷◌ d s) adding last before modes h = ground (
  arith,
  modes_after c s true last before modes h,
  modes_after c s false last before modes h,
  modes_after c s adding (if d == c then some adding else last) before
      (if is_user_mode d
        then (if adding then Set.insert d modes else Set.remove d modes)
        else modes)
      (set_one c d adding last before modes h),
)

-- After the letters, a mode that a user can have is set as the sign before its last place says, or as
-- it was where it does not occur; any other mode is as it was.
pub contains-user_modes :
    (c : Char) (s : String) (adding : Bool) (modes : List Char)
    → Set.contains c (user_modes adding s modes) ≡ (
        if is_user_mode c
        then signed_or (last_sign adding c s none) (Set.contains c modes)
        else Set.contains c modes)
unfolding user_modes
contains-user_modes c s adding modes = modes_after c s adding none modes modes (ground arith)
