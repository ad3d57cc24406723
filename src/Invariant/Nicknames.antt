-- ===== src/Invariant/Nicknames.antt =====
-- The table of nicknames against the clients.
use clandestine.Prelude.{
  String, ◌≡◌, ◌≢◌, List, Option, none, some, arith, eq_iff, sym, ◌∙◌, if◌then◌else◌, inl, inr,
  Bool-cases, ==_iff, ap, subst,
}
use clandestine.Prelude.Assoc
use clandestine.Prelude.Assoc.{get-insert, get-remove}
use clandestine.Prelude.Eq.{◌==◌, nat_eq, string_eq, beq_refl, ne_of_beq-false}
use mathlib.Core.Option.{some-injective}
use clandestine.Channel.{ClientId}
use clandestine.World.{World}
use clandestine.Invariant.{Stable, claimed, without_old}
use clandestine.Invariant.Lines.{Keeps-handle_connection_with_reader}
use clandestine.Client.Dispatch.{handle_connection_with_reader}

-- The nickname of the client with an id: the task's own, or another.
abbrev pub nick_at : World → ClientId → Option String
nick_at w j = if j == w.self.id then w.self.nickname else (w.peers j).nickname

-- The table leads from the lower case of a nickname to the id.
abbrev pub Leads : World → Option String → ClientId → Type 0
Leads w none id = Unit
Leads w (some nick) id = Assoc.get (w.env.to_lowercase nick) w.server.nickname_map ≡ some id

-- Every nickname leads to its client.
pub record OwnNames (w : World) : Type 0 where
  pub leads : (j : ClientId) → Leads w (nick_at w j) j

module _ (w : World) (nick : String)
    (free : Assoc.get (w.env.to_lowercase nick) w.server.nickname_map ≡ none) where
  -- A name that leads to the client itself or to another before.
  kept_name :
      (old : Option String) (name : String) (j : ClientId)
      → Leads w old w.self.id
      → j ≢ w.self.id
      → Leads w (some name) j
      → Assoc.get (w.env.to_lowercase name) (
          without_old w old
            (Assoc.insert (w.env.to_lowercase nick) w.self.id w.server.nickname_map))
        ≡ some j
  kept_name none name j l n h = ground (
    arith,
    get-insert (w.env.to_lowercase nick) (w.env.to_lowercase name) w.self.id w.server.nickname_map,
    eq_iff (w.env.to_lowercase nick) (w.env.to_lowercase name),
  )
  kept_name (some old) name j l n h = ground (
    arith,
    get-remove (w.env.to_lowercase old) (w.env.to_lowercase name)
        (Assoc.insert (w.env.to_lowercase nick) w.self.id w.server.nickname_map),
    get-insert (w.env.to_lowercase nick) (w.env.to_lowercase name) w.self.id w.server.nickname_map,
    eq_iff (w.env.to_lowercase nick) (w.env.to_lowercase name),
    eq_iff (w.env.to_lowercase old) (w.env.to_lowercase name),
  )

  new_name :
      (old : Option String)
      → Leads w old w.self.id
      → Assoc.get (w.env.to_lowercase nick) (
          without_old w old
            (Assoc.insert (w.env.to_lowercase nick) w.self.id w.server.nickname_map))
        ≡ some w.self.id
  new_name none l = ground (
    arith,
    get-insert (w.env.to_lowercase nick) (w.env.to_lowercase nick) w.self.id w.server.nickname_map,
    eq_iff (w.env.to_lowercase nick) (w.env.to_lowercase nick),
  )
  new_name (some old) l = ground (
    arith,
    get-remove (w.env.to_lowercase old) (w.env.to_lowercase nick)
        (Assoc.insert (w.env.to_lowercase nick) w.self.id w.server.nickname_map),
    get-insert (w.env.to_lowercase nick) (w.env.to_lowercase nick) w.self.id w.server.nickname_map,
    eq_iff (w.env.to_lowercase nick) (w.env.to_lowercase nick),
    eq_iff (w.env.to_lowercase old) (w.env.to_lowercase nick),
  )

  kept-Leads :
      (o : Option String) (j : ClientId)
      → Leads w w.self.nickname w.self.id
      → j ≢ w.self.id
      → Leads w o j
      → Leads (claimed w nick) o j
  kept-Leads none j l n h = tt
  kept-Leads (some name) j l n h = kept_name w.self.nickname name j l n h

pub own-Leads : {w : World} → OwnNames w → Leads w w.self.nickname w.self.id
own-Leads {w} h = rw (beq_refl w.self.id) at (h.leads w.self.id)

claimed-Leads :
    (nick : String) (w : World)
    → Assoc.get (w.env.to_lowercase nick) w.server.nickname_map ≡ none
    → OwnNames w
    → (j : ClientId) → Leads (claimed w nick) (nick_at (claimed w nick) j) j
claimed-Leads nick w free h j = elim (Bool-cases (j == w.self.id)) [
  | inl e ↦
      let p : j ≡ w.self.id = (==_iff j w.self.id).0 e in
      rw e (rw p (new_name w nick free w.self.nickname (own-Leads h)))
  | inr e ↦ rw e (
      kept-Leads w nick free (w.peers j).nickname j (own-Leads h) (ne_of_beq-false j w.self.id e)
        (rw e at (h.leads j)))
]

pub OwnNames-Stable : Stable OwnNames
OwnNames-Stable = record {
  sends = record {
    quiet = record {
      locks = λ l w h. record { leads = h.leads };
      peer_queue = λ id q w h. record { leads = λ j. ground (arith, h.leads j) };
    };
    self_queue = λ q w h. record { leads = h.leads };
    self_tx = λ q w h. record { leads = h.leads };
    channels = λ m w h. record { leads = h.leads };
    timer = λ b n w h. record { leads = h.leads };
  };
  modes = λ m w h. record { leads = h.leads };
  negotiating = λ b w h. record { leads = h.leads };
  registers = λ w r h. record { leads = h.leads };
  names_user = λ u r w h. record { leads = h.leads };
  claims = λ nick w free h. record { leads = claimed-Leads nick w free h };
}

-- Two clients whose nicknames have one lower case are one client.
pub names_unique :
    (w : World)
    → OwnNames w
    → (i j : ClientId) (n m : String) → nick_at w i ≡ some n
    → nick_at w j ≡ some m
    → w.env.to_lowercase n ≡ w.env.to_lowercase m
    → i ≡ j
names_unique w h i j n m p q e =
    let a : Assoc.get (w.env.to_lowercase n) w.server.nickname_map ≡ some i =
      subst (λ o. Leads w o i) p (h.leads i) in
    let b : Assoc.get (w.env.to_lowercase m) w.server.nickname_map ≡ some j =
      subst (λ o. Leads w o j) q (h.leads j) in
    some-injective i j (sym a ∙ ap (λ k. Assoc.get k w.server.nickname_map) e ∙ b)

pub lines-OwnNames :
    (lines : List String) (w : World)
    → OwnNames w
    → OwnNames (handle_connection_with_reader lines w).1
lines-OwnNames lines w h = (Keeps-handle_connection_with_reader OwnNames-Stable lines).at w h

-- If the table leads from the lower case of every nickname to its client, then after any lines of a
-- client, however the handling ends, it still does, and two clients whose nicknames have one lower
-- case are one client.
pub lines-names_unique :
    (lines : List String) (w : World)
    → OwnNames w
    → (i j : ClientId) (n m : String) → nick_at (handle_connection_with_reader lines w).1 i ≡ some n
    → nick_at (handle_connection_with_reader lines w).1 j ≡ some m
    → (handle_connection_with_reader lines w).1.env.to_lowercase n
      ≡ (handle_connection_with_reader lines w).1.env.to_lowercase m
    → (i ≡ j) × OwnNames (handle_connection_with_reader lines w).1
lines-names_unique lines w h i j n m p q e =
    let after = lines-OwnNames lines w h in
    (names_unique (handle_connection_with_reader lines w).1 after i j n m p q e, after)
