-- ===== src/Client/Registration/Order.antt =====
-- NICK and USER of a client that has sent neither.
use clandestine.Prelude.{
  ℕ, String, true, false, List, [], ◌∷◌, none, some, ◌≡◌, refl, sym, ap, ◌∙◌, subst, arith,
}
use clandestine.Prelude.Assoc
use clandestine.Prelude.Eq.{string_eq}
use clandestine.World.{World}
use clandestine.Act
use clandestine.Act.{
  Outcome, done, fail, panic, blocked, Act, ◌>>=◌, ◌>>◌, unwrap, modify, gets, pure,
}
use clandestine.Invariant.{claimed}
use clandestine.Server.Registration.{register_nickname, unregister_nickname}
use clandestine.Client.Registration.{
  send_motd, send_welcome, send_lusers, start_ping_timer, send_registration, complete_registration,
  check_registration, mark_registered,
}
use clandestine.Client.Registration.Burst.{
  Bursts, numerics, codes_of, queue_up, Bursts-append, Bursts-send_welcome, Bursts-send_lusers,
  Bursts-send_motd,
}
use clandestine.Client.User.{
  unregister_old, take_nick, nick_params, handle_nick, name_user, user_params, handle_user,
}

-- A client that has only connected, and a name that is free.
pub record Fresh (nick : String) (w : World) : Type 0 where
  pub no_nickname : w.self.nickname ≡ none
  pub no_username : w.self.username ≡ none
  pub unregistered : w.self.registered ≡ false
  pub not_negotiating : w.self.cap_negotiating ≡ false
  pub is_free : Assoc.get (w.env.to_lowercase nick) w.server.nickname_map ≡ none
  pub open_queue : w.self.writer_open ≡ true

module _ (nick username mode unused realname : String) where
  abbrev pub nick_first : Act (Unit {0})
  nick_first = handle_nick (nick ∷ []) >> handle_user (username ∷ mode ∷ unused ∷ realname ∷ [])

  abbrev pub user_first : Act (Unit {0})
  user_first = handle_user (username ∷ mode ∷ unused ∷ realname ∷ []) >> handle_nick (nick ∷ [])

  -- the world when the client has both names
  abbrev pub both_named : World → World
  both_named w = record (claimed w nick) {
    self = name_user username realname (claimed w nick).self;
  }

  nick_first_lem : (w : World) → Fresh nick w → nick_first w ≡ complete_registration (both_named w)
  unfolding handle_nick nick_params take_nick unregister_old register_nickname unregister_nickname
      handle_user user_params check_registration ◌>>=◌
  nick_first_lem w f =
      ground (arith, f.no_nickname, f.no_username, f.unregistered, f.not_negotiating, f.is_free)

  user_first_lem : (w : World) → Fresh nick w → user_first w ≡ complete_registration (both_named w)
  unfolding handle_nick nick_params take_nick unregister_old register_nickname unregister_nickname
      handle_user user_params check_registration ◌>>=◌
  user_first_lem w f =
      ground (arith, f.no_nickname, f.no_username, f.unregistered, f.not_negotiating, f.is_free)

-- The numerics of a registration.
abbrev pub registration_codes : List ℕ
registration_codes = 1 ∷ 2 ∷ 3 ∷ 4 ∷ 5 ∷ 251 ∷ 252 ∷ 254 ∷ 255 ∷ 265 ∷ 266 ∷ 375 ∷ 372 ∷ 376 ∷ []

-- the world when the ping task has begun
abbrev pub timed : World → World
timed w = record w { self = record w.self { ping_timer = true; pong_tx = 0 } }

abbrev pub marked : World → World
marked w = record w { self = mark_registered w.self }

-- A registration: the client is marked, the numerics of a registration are put in its queue, in their
-- order, and its ping task begins.
pub record Registers (w : World) (r : Outcome (Unit {0}) × World) : Type 0 where
  pub messages : List (ℕ × List String)
  pub same_codes : codes_of messages ≡ registration_codes
  pub result : r ≡ (done tt, timed (queue_up (numerics (marked w).self messages) (marked w)))

module _ (m n k : Act (Unit {0})) where
  continue_assoc :
      (r : Outcome (Unit {0}) × World)
      → Act.continue (Act.continue r.0 (λ u. n) r.1).0 (λ u. k) (Act.continue r.0 (λ u. n) r.1).1
        ≡ Act.continue r.0 (λ u. n >> k) r.1
  unfolding ◌>>=◌
  continue_assoc (done u, w) = refl
  continue_assoc (fail e, w) = refl
  continue_assoc (panic, w) = refl
  continue_assoc (blocked, w) = refl

  then_assoc : (m >> n) >> k ≡ m >> (n >> k)
  unfolding ◌>>=◌
  then_assoc i w = continue_assoc (m w) i

texts : Act (Unit {0})
texts = send_welcome >> (send_lusers >> send_motd)

texts_first : send_registration ≡ texts >> start_ping_timer
unfolding send_registration texts
texts_first =
    ap (λ m. send_welcome >> m) (sym (then_assoc send_lusers send_motd start_ping_timer))
    ∙ sym (then_assoc send_welcome (send_lusers >> send_motd) start_ping_timer)

Bursts-texts : Bursts registration_codes texts
unfolding texts
Bursts-texts =
    Bursts-append send_welcome (send_lusers >> send_motd) Bursts-send_welcome
      (Bursts-append send_lusers send_motd Bursts-send_lusers Bursts-send_motd)

marked_first :
    (w : World) (nick : String)
    → w.self.nickname ≡ some nick
    → complete_registration w ≡ send_registration (marked w)
unfolding complete_registration ◌>>=◌
marked_first w nick n = ground (arith, n)

complete_registration-Registers :
    (w : World) (nick : String)
    → w.self.nickname ≡ some nick
    → w.self.writer_open ≡ true
    → Registers w (complete_registration w)
unfolding start_ping_timer ◌>>=◌
complete_registration-Registers w nick n o =
    let b = Bursts-texts (marked w) o in
    record {
      messages = b.messages;
      same_codes = b.same_codes;
      result =
          marked_first w nick n
          ∙ ap (λ (m : Act (Unit {0})). m (marked w)) texts_first
          ∙ ap (λ r. Act.continue r.0 (λ u. start_ping_timer) r.1) b.queues;
    }

-- A client that has only connected, whose writer task runs, and a name that is free: whether it sends
-- NICK first or USER first, the outcome and the world are the same after both, and the client is
-- registered then: with both names and the nickname in the table, with the numerics of a registration
-- in its queue, each once and in their order, and with its ping task running.
pub registration_order :
    (nick username mode unused realname : String) (w : World)
    → Fresh nick w
    → (nick_first nick username mode unused realname w
        ≡ user_first nick username mode unused realname w)
      × Registers
          (both_named nick username mode unused realname w)
          (nick_first nick username mode unused realname w)
registration_order nick username mode unused realname w f = (
  nick_first_lem nick username mode unused realname w f
      ∙ sym (user_first_lem nick username mode unused realname w f),
  subst (Registers (both_named nick username mode unused realname w))
      (sym (nick_first_lem nick username mode unused realname w f))
      (complete_registration-Registers (both_named nick username mode unused realname w) nick refl
        f.open_queue),
)
