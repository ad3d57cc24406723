-- ===== src/Client/ChannelMode.antt =====
-- src/client/channel.rs: the channel half of MODE.
pub mod Replay
pub mod Blocked
use clandestine.Prelude.{
  ℕ, String, Char, Bool, true, false, ◌||◌, not, List, [], ◌∷◌, ◌++◌, Option, none, some, same,
  if◌then◌else◌, ◌≡◌, refl,
}
use clandestine.Prelude.Text.{◌<>◌, push, starts_with_char}
use clandestine.Error.{protocol}
use clandestine.Ts6
use clandestine.Channel
use clandestine.Channel.{Channel}
use clandestine.Act.{Act, pure, raise, gets, ok_or, ◌>>=◌, ◌>>◌}
use clandestine.Server.Channels.{
  get_channel, put_channel, broadcast_to_channel, await_read, await_write, writing,
}
use clandestine.Client.Send.{send_numeric, write_raw, get_prefix}
use clandestine.Client.User.{handle_user_mode}

-- An entry `(mode, param, adding)` of `changes`.
pub record Change : Type 0 where
  pub mode : Char
  pub param : Option String
  pub adding : Bool

-- The variables of the loop over the characters; the changes in order.
pub record ModeLoop : Type 0 where
  pub adding : Bool
  pub mode_params : List String
  pub changes : List Change
  pub channel : Channel

unfoldable pub is_flag : Char → Bool
is_flag c = same c "n" || same c "t" || same c "m" || same c "i" || same c "s"

-- one change, made in the channel and noted
abbrev pub change : Change → ModeLoop → ModeLoop
change k s = record s {
  changes = s.changes ++ k ∷ [];
  channel = Channel.set_mode k.mode k.param k.adding s.channel;
}

abbrev pub key_with : Char → List String → ModeLoop → ModeLoop
key_with c [] s = s
key_with c (key ∷ more) s =
    change (record { mode = c; param = some key; adding = true }) (record s { mode_params = more })

unfoldable pub mode_char : Char → ModeLoop → ModeLoop
unfolding is_flag
mode_char c s =
    if same c "+"
    then record s { adding = true }
    else if same c "-"
    then record s { adding = false }
    else if is_flag c
    then change (record { mode = c; param = none; adding = s.adding }) s
    else if same c "k"
    then (if s.adding
        then key_with c s.mode_params s
        else change (record { mode = c; param = none; adding = false }) s)
    else s

unfoldable pub mode_chars : String → ModeLoop → ModeLoop
unfolding mode_char
mode_chars String.[] s = s
mode_chars (String.◌∷◌ c cs) s = mode_chars cs (mode_char c s)

abbrev pub sign : Bool → Char
sign true = "+"
sign false = "-"

-- the loop that writes the changes
unfoldable pub render_from : Bool → List Change → String
render_from current [] = ""
render_from current (k ∷ ks) =
    let rest = render_from k.adding ks in
    if same (sign k.adding) (sign current)
    then String.◌∷◌ k.mode rest
    else String.◌∷◌ (sign k.adding) (String.◌∷◌ k.mode rest)

unfoldable pub render : List Change → String
unfolding render_from
render [] = ""
render (k ∷ ks) = String.◌∷◌ (sign k.adding) (render_from k.adding (k ∷ ks))

abbrev pub param_list : Option String → List String
param_list none = []
param_list (some p) = p ∷ []

unfoldable pub render_params : List Change → List String
render_params [] = []
render_params (k ∷ ks) = param_list k.param ++ render_params ks

unfoldable pub announce : String → List Change → Act (Unit {0})
announce target [] = pure tt
announce target (k ∷ ks) = do
  prefix ← gets (λ w. get_prefix w.self)
  let mode_str = render (k ∷ ks)
  broadcast_to_channel target
      (Ts6.with_source prefix "MODE" (target ∷ mode_str ∷ render_params (k ∷ ks))) none
  server_name ← gets (λ w. w.self.server_name)
  write_raw (":" <> server_name <> " MODE " <> target <> " " <> mode_str)

abbrev pub mode_start : List String → Channel → ModeLoop
mode_start mode_params channel = record {
  adding = true;
  mode_params = mode_params;
  changes = [];
  channel = channel;
}

-- The write lock of the channel is held from the loop to the end of the handler.
unfoldable pub change_modes : String → Channel → String → List String → Act (Unit {0})
unfolding announce
change_modes target channel modes mode_params = do
  await_write target
  let after = mode_chars modes (mode_start mode_params channel)
  writing target (do put_channel target after.channel; announce target after.changes)

unfoldable pub query_or_change : String → Channel → List String → Act (Unit {0})
unfolding change_modes
query_or_change target channel [] = do
  await_read target
  send_numeric 324 (target ∷ ("+" <> Channel.get_modes channel) ∷ [])
query_or_change target channel (modes ∷ mode_params) = change_modes target channel modes mode_params

unfoldable pub handle_channel_mode : List String → Act (Unit {0})
unfolding query_or_change
handle_channel_mode [] = raise (protocol "Not enough parameters")
handle_channel_mode (target ∷ more) =
    if starts_with_char "#" target
    then (do
      found ← get_channel target
      channel ← ok_or found (protocol "No such channel")
      query_or_change target channel more)
    else handle_user_mode (target ∷ more)

-- `+nt-k+m`, from changes that a client might have written otherwise
render_run :
    (mode_chars "nt-k+k+m" (mode_start ("key" ∷ []) (Channel.new "#a" 0))).changes
    ≡ record { mode = "n"; param = none; adding = true }
      ∷ record { mode = "t"; param = none; adding = true }
      ∷ record { mode = "k"; param = none; adding = false }
      ∷ record { mode = "k"; param = some "key"; adding = true }
      ∷ record { mode = "m"; param = none; adding = true }
      ∷ []
unfolding mode_chars
render_run = refl
