-- ===== src/Client/User.antt =====
-- src/client/user.rs: NICK, USER, user modes and QUIT.
pub mod Nick
pub mod Modes
use clandestine.Prelude.{
  String, Char, Bool, true, false, ◌||◌, List, [], ◌∷◌, Option, none, some, if◌then◌else◌, same,
}
use clandestine.Prelude.Set
use clandestine.Prelude.Eq.{◌==◌, char_eq, string_eq}
use clandestine.Prelude.Text.{◌<>◌, starts_with_char}
use clandestine.Error.{protocol}
use clandestine.Ts6.{to_string}
use clandestine.Ts6
use clandestine.World.{Client}
use clandestine.Act.{Act, pure, raise, gets, set_self, modify, ◌>>=◌, ◌>>◌}
use clandestine.Server.Registration.{register_nickname, unregister_nickname}
use clandestine.Client.Send.{send_numeric, get_prefix}
use clandestine.Client.Registration.{check_registration}

unfoldable pub unregister_old : Option String → Act (Unit {0})
unregister_old none = pure tt
unregister_old (some old_nick) = unregister_nickname old_nick

unfoldable pub take_nick : String → Act (Unit {0})
unfolding unregister_old
take_nick new_nick = do
  id ← gets (λ w. w.self.id)
  register_nickname new_nick id
  old ← gets (λ w. w.self.nickname)
  unregister_old old
  set_self (λ c. record c { nickname = some new_nick })
  check_registration

unfoldable pub nick_params : List String → Act (Unit {0})
unfolding take_nick
nick_params [] = raise (protocol "No nickname given")
nick_params (new_nick ∷ more) = take_nick new_nick

unfoldable pub handle_nick : List String → Act (Unit {0})
unfolding nick_params
handle_nick params = do
  negotiating ← gets (λ w. w.self.cap_negotiating)
  if negotiating
      then raise (protocol "Must complete capability negotiation first (CAP END)")
      else nick_params params

abbrev pub name_user : String → String → Client → Client
name_user username realname c = record c { username = some username; realname = some realname }

unfoldable pub user_params : List String → Act (Unit {0})
user_params (username ∷ mode ∷ unused ∷ realname ∷ more) = do
  set_self (name_user username realname)
  check_registration
user_params _ = raise (protocol "Not enough parameters")

unfoldable pub handle_user : List String → Act (Unit {0})
unfolding user_params
handle_user params = do
  negotiating ← gets (λ w. w.self.cap_negotiating)
  if negotiating
      then raise (protocol "Must complete capability negotiation first (CAP END)")
      else do
        registered ← gets (λ w. w.self.registered)
        if registered then raise (protocol "Already registered") else user_params params

abbrev pub is_user_mode : Char → Bool
is_user_mode c = same c "i" || same c "w" || same c "o" || same c "O" || same c "r"

unfoldable pub user_modes : Bool → String → List Char → List Char
user_modes adding String.[] modes = modes
user_modes adding (String.◌∷◌ c s) modes =
    if same c "+"
    then user_modes true s modes
    else if same c "-"
    then user_modes false s modes
    else user_modes adding s (
        if is_user_mode c
        then (if adding then Set.insert c modes else Set.remove c modes)
        else modes)

-- `self.modes.iter().collect()`
abbrev pub collect : List Char → String
collect [] = ""
collect (c ∷ cs) = String.◌∷◌ c (collect cs)

unfoldable pub own_modes : List String → Act (Unit {0})
unfolding modify
own_modes [] = do modes ← gets (λ w. w.self.modes); send_numeric 221 (("+" <> collect modes) ∷ [])
own_modes (modes ∷ more) = set_self (λ c. record c { modes = user_modes true modes c.modes })

abbrev pub is_own : String → Option String → Bool
is_own target none = false
is_own target (some nick) = target == nick

unfoldable pub handle_user_mode : List String → Act (Unit {0})
unfolding own_modes
handle_user_mode [] = raise (protocol "Not enough parameters")
handle_user_mode (target ∷ more) = do
  own ← gets (λ w. is_own target w.self.nickname)
  if own
      then own_modes more
      else if starts_with_char "#" target
      then raise (protocol "Channel modes not implemented")
      else raise (protocol "Invalid mode target")

-- `broadcast_global` of src/server/mod.rs does nothing.
unfoldable pub broadcast_global : String → Act (Unit {0})
broadcast_global message = pure tt

abbrev pub first_or : String → List String → String
first_or d [] = d
first_or d (s ∷ more) = s

unfoldable pub handle_quit : List String → Act (Unit {0})
unfolding broadcast_global
handle_quit params = do
  prefix ← gets (λ w. get_prefix w.self)
  broadcast_global (to_string (Ts6.with_source prefix "QUIT" (first_or "Client Quit" params ∷ [])))
