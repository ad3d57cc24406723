-- ===== src/Client/User/Nick.antt =====
-- What NICK does to the table of nicknames.
use clandestine.Prelude.{
  String, Bool, true, false, ◌||◌, List, ◌∷◌, Option, none, some, ◌≡◌, refl, arith, if◌then◌else◌,
  Bool-cases, Option-cases, subst, sym, inl, inr,
}
use clandestine.Prelude.Assoc
use clandestine.Prelude.Assoc.{Assoc, is_some, get-insert, get-remove}
use clandestine.Prelude.Eq.{◌==◌, string_eq}
use clandestine.Error.{IrcError, protocol}
use clandestine.Channel.{ClientId}
use clandestine.World.{World}
use clandestine.Act.{Outcome, fail, ◌>>=◌}
use clandestine.Server.Registration.{register_nickname, unregister_nickname}
use clandestine.Client.User.{take_nick, handle_nick, unregister_old}
use clandestine.Client.Registration.{mark_registered, complete_registration, check_registration}
use clandestine.Invariant.{Sends, with_self, without_old, claimed_map, claimed}
use clandestine.Invariant.Lines.{Keeps-send_registration}

module _ (name : Option String) (table : Assoc String ClientId) where
  abbrev HasNames : World → Type 0
  HasNames w = (w.self.nickname ≡ name) × (w.server.nickname_map ≡ table)

  HasNames-Sends : Sends HasNames
  HasNames-Sends = record {
    quiet = record { locks = λ l w h. h; peer_queue = λ id q w h. h };
    self_queue = λ q w h. h;
    self_tx = λ q w h. h;
    channels = λ m w h. h;
    timer = λ b n w h. h;
  }

  complete_registration-HasNames : (w : World) → HasNames w → HasNames (complete_registration w).1
  unfolding complete_registration ◌>>=◌
  complete_registration-HasNames w h = elim (Option-cases w.self.nickname) [
    | inl e ↦ ground (arith, h)
    | inr (nick, e) ↦ ground (
      arith,
      (Keeps-send_registration HasNames-Sends).at (with_self w (mark_registered w.self)) h,
    )
  ]

  -- Registration leaves the nickname and the table.
  check_registration-HasNames : (w : World) → HasNames w → HasNames (check_registration w).1
  unfolding check_registration ◌>>=◌
  check_registration-HasNames w h = ground (arith, h, complete_registration-HasNames w h)

-- NICK is refused during the negotiation of capabilities, and if the lower case of the name is taken.
abbrev pub is_refused : String → World → Bool
is_refused nick w =
    w.self.cap_negotiating || is_some (Assoc.get (w.env.to_lowercase nick) w.server.nickname_map)

-- whether a key of the table is the lower case of the name that the client has
abbrev was_named : World → Option String → String → Bool
was_named w none key = false
was_named w (some old) key = w.env.to_lowercase old == key

abbrev pub has_key : World → String → Bool
has_key w key = was_named w w.self.nickname key

without_old_lem :
    (w : World) (o : Option String) (key : String) (m : Assoc String ClientId)
    → Assoc.get key (without_old w o m) ≡ (if was_named w o key then none else Assoc.get key m)
without_old_lem w none key m = refl
without_old_lem w (some old) key m = get-remove (w.env.to_lowercase old) key m

-- What the table answers after the client has taken a name.
claimed_map_lem :
    (w : World) (nick key : String)
    → Assoc.get key (claimed_map w nick) ≡ (
        if has_key w key
        then none
        else if w.env.to_lowercase nick == key
        then some w.self.id
        else Assoc.get key w.server.nickname_map)
claimed_map_lem w nick key =
    rw
      (without_old_lem w w.self.nickname key
        (Assoc.insert (w.env.to_lowercase nick) w.self.id w.server.nickname_map))
      (rw (get-insert (w.env.to_lowercase nick) key w.self.id w.server.nickname_map) refl)

take_nick_lem :
    (nick : String) (w : World)
    → Assoc.get (w.env.to_lowercase nick) w.server.nickname_map ≡ none
    → take_nick nick w ≡ check_registration (claimed w nick)
unfolding take_nick unregister_old register_nickname unregister_nickname ◌>>=◌
take_nick_lem nick w f = elim (Option-cases w.self.nickname) [
  | inl o ↦ ground arith
  | inr (old, o) ↦ ground arith
]

-- The name that the client has after NICK, and what the table then answers for each key.
abbrev pub name_after : String → World → Option String
name_after nick w = if is_refused nick w then w.self.nickname else some nick

abbrev pub answer_after : String → World → String → Option ClientId
answer_after nick w key =
    if is_refused nick w
    then Assoc.get key w.server.nickname_map
    else if has_key w key
    then none
    else if w.env.to_lowercase nick == key
    then some w.self.id
    else Assoc.get key w.server.nickname_map

abbrev Answers : String → World → Outcome (Unit {0}) × World → Type 0
Answers nick w r =
    (r.1.self.nickname ≡ name_after nick w)
    × ((key : String) → Assoc.get key r.1.server.nickname_map ≡ answer_after nick w key)

Answers-refused :
    (nick : String) (w : World) (o : Outcome (Unit {0}))
    → is_refused nick w ≡ true
    → Answers nick w (o, w)
Answers-refused nick w o t = rw t (refl, λ key. refl)

Answers-claimed :
    (nick : String) (w : World)
    → is_refused nick w ≡ false
    → Answers nick w (check_registration (claimed w nick))
Answers-claimed nick w f =
    let (n, t) =
      check_registration-HasNames (some nick) (claimed_map w nick) (claimed w nick) (refl, refl) in
    rw f (n, λ key. rw t (claimed_map_lem w nick key))

refused_lem :
    (nick : String) (more : List String) (w : World)
    → is_refused nick w ≡ true
    → (e : IrcError) × (handle_nick (nick ∷ more) w ≡ (fail e, w))
unfolding handle_nick take_nick register_nickname ◌>>=◌
refused_lem nick more w t = elim (Bool-cases w.self.cap_negotiating) [
  | inl c ↦ (protocol "Must complete capability negotiation first (CAP END)", ground arith)
  | inr c ↦ (protocol "Nickname is already in use", ground arith)
]

accepted_lem :
    (nick : String) (more : List String) (w : World)
    → is_refused nick w ≡ false
    → handle_nick (nick ∷ more) w ≡ check_registration (claimed w nick)
unfolding handle_nick ◌>>=◌
accepted_lem nick more w f = ground (arith, take_nick_lem nick w)

-- NICK, however its handler ends. During the negotiation of capabilities, or if the lower case of the
-- name is in the table, the client keeps its name and the table answers as before. Otherwise the client
-- has the new name, and the table answers nothing for the lower case of the old one, the client for
-- that of the new one, if they differ, and as before for every other key.
pub handle_nick_lem :
    (nick : String) (more : List String) (w : World)
    → ((handle_nick (nick ∷ more) w).1.self.nickname ≡ name_after nick w)
      × ((key : String)
          → Assoc.get key (handle_nick (nick ∷ more) w).1.server.nickname_map
            ≡ answer_after nick w key)
handle_nick_lem nick more w = elim (Bool-cases (is_refused nick w)) [
  | inl t ↦
      let (e, q) = refused_lem nick more w t in
      subst (Answers nick w) (sym q) (Answers-refused nick w (fail e) t)
  | inr f ↦ subst (Answers nick w) (sym (accepted_lem nick more w f)) (Answers-claimed nick w f)
]
