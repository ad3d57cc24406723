-- ===== src/Invariant/Tasks.antt =====
-- The connections of src/server/mod.rs together: what every event keeps.
use clandestine.Prelude.{
  ℕ, ◌≤◌, ◌<◌, String, true, List, Option, none, some, ◌≡◌, refl, sym, ◌∙◌, subst, arith, ==_iff,
  if◌then◌else◌, inl, inr, Bool-cases,
}
use clandestine.Prelude.Set
use clandestine.Prelude.Assoc
use clandestine.Prelude.Eq.{◌==◌, nat_eq, string_eq}
use clandestine.Channel.{ClientId}
use clandestine.World.{World, Client, Env, update}
use clandestine.Invariant.{Stable}
use clandestine.Invariant.Registered.{IsNamed, IsNamed-Stable}
use clandestine.Invariant.Nicknames.{nick_at, Leads, OwnNames, OwnNames-Stable}
use clandestine.Server.Run.{Process, world_for, store}

-- The object of an id, where ids from `n` on have not been given out.
abbrev pub ObjectOk : ℕ → ClientId → Client → Type 0
ObjectOk n j c = (c.id ≡ j) × IsNamed c × (n ≤ j → c.nickname ≡ none)

-- The ids below `n` have been given out. Every object has its id, a registered one has its names, and
-- the table leads from the lower case of every nickname to its client.
pub record Sound (n : ℕ) (p : Process) : Type 0 where
  pub next : p.next_client_id ≡ n
  pub objects_ok : (j : ClientId) → ObjectOk n j (p.objects j)
  pub leads : (j : ClientId) → Leads (world_for j p) (p.objects j).nickname j
  pub live : (j : ClientId) → Set.contains j p.reading ≡ true → j < n

pub and-Stable : {P Q : World → Type 0} → Stable P → Stable Q → Stable (λ w. P w × Q w)
and-Stable s t = record {
  sends = record {
    quiet = record {
      locks = λ l w h. (s.locks l w h.0, t.locks l w h.1);
      peer_queue = λ id q w h. (s.peer_queue id q w h.0, t.peer_queue id q w h.1);
    };
    self_queue = λ q w h. (s.self_queue q w h.0, t.self_queue q w h.1);
    self_tx = λ q w h. (s.self_tx q w h.0, t.self_tx q w h.1);
    channels = λ m w h. (s.channels m w h.0, t.channels m w h.1);
    timer = λ b k w h. (s.timer b k w h.0, t.timer b k w h.1);
  };
  modes = λ m w h. (s.modes m w h.0, t.modes m w h.1);
  negotiating = λ b w h. (s.negotiating b w h.0, t.negotiating b w h.1);
  registers = λ w r h. (s.registers w r h.0, t.registers w r h.1);
  names_user = λ u r w h. (s.names_user u r w h.0, t.names_user u r w h.1);
  claims = λ nick w free h. (s.claims nick w free h.0, t.claims nick w free h.1);
}

-- What a task knows of the others, and what it cannot change.
abbrev Frame : ℕ → Env → ClientId → World → Type 0
Frame n env i w = (w.self.id ≡ i) × (w.env ≡ env) × ((j : ClientId) → ObjectOk n j (w.peers j))

update-ObjectOk :
    (n : ℕ) (id j : ClientId) (peers : ClientId → Client) (q : List String)
    → ((j : ClientId) → ObjectOk n j (peers j))
    → ObjectOk n j (update peers id (record (peers id) { sendq_tx = q }) j)
update-ObjectOk n id j peers q h = elim (Bool-cases (j == id)) [
  | inl e ↦ rw e (subst (λ k. ObjectOk n k (peers id)) (sym ((==_iff j id).0 e)) (h id))
  | inr e ↦ rw e (h j)
]

Frame-Stable : (n : ℕ) (env : Env) (i : ClientId) → Stable (Frame n env i)
Frame-Stable n env i = record {
  sends = record {
    quiet = record {
      locks = λ l w h. h;
      peer_queue = λ id q w h. (h.0, h.1, λ j. update-ObjectOk n id j w.peers q h.2);
    };
    self_queue = λ q w h. h;
    self_tx = λ q w h. h;
    channels = λ m w h. h;
    timer = λ b k w h. h;
  };
  modes = λ m w h. h;
  negotiating = λ b w h. h;
  registers = λ w r h. h;
  names_user = λ u r w h. h;
  claims = λ nick w free h. h;
}

-- What the task of a client keeps.
abbrev pub Task : ℕ → Env → ClientId → World → Type 0
Task n env i w = OwnNames w × (IsNamed w.self × Frame n env i w)

pub Task-Stable : (n : ℕ) (env : Env) (i : ClientId) → Stable (Task n env i)
Task-Stable n env i = and-Stable OwnNames-Stable (and-Stable IsNamed-Stable (Frame-Stable n env i))

object_name :
    (w : World) (j : ClientId)
    → Leads w (nick_at w j) j
    → Leads w (if j == w.self.id then w.self else w.peers j).nickname j
object_name w j l = elim (Bool-cases (j == w.self.id)) [
  | inl e ↦ rw e (rw e at l)
  | inr e ↦ rw e (rw e at l)
]

module _ {n : ℕ} {p : Process} where
  pub Sound-Task : Sound n p → (i : ClientId) → Task n p.env i (world_for i p)
  Sound-Task h i = (
    record { leads = λ j. own_or_other j },
    ((h.objects_ok i).1, ((h.objects_ok i).0, refl, h.objects_ok)),
  )
    where
      same_table :
          (o : Option String) (j : ClientId) → Leads (world_for j p) o j → Leads (world_for i p) o j
      same_table none j l = tt
      same_table (some nick) j l = l

      own_or_other : (j : ClientId) → Leads (world_for i p) (nick_at (world_for i p) j) j
      own_or_other j = elim (Bool-cases (j == (p.objects i).id)) [
        | inl e ↦
            let q : j ≡ i = (==_iff j (p.objects i).id).0 e ∙ (h.objects_ok i).0 in
            rw e (
              subst (λ k. Leads (world_for i p) (p.objects k).nickname j) q
                (same_table (p.objects j).nickname j (h.leads j)))
        | inr e ↦ rw e (same_table (p.objects j).nickname j (h.leads j))
      ]

  -- The task of a client leaves the process as sound as it was.
  pub store-Sound :
      Sound n p → (i : ClientId) (w : World) → i < n → Task n p.env i w → Sound n (store i w p)
  store-Sound h i w b (names, (named, (own, same_env, others))) = record {
    next = h.next;
    objects_ok = objects_ok;
    leads = leads;
    live = h.live;
  }
    where
      objects_ok : (j : ClientId) → ObjectOk n j (update w.peers i w.self j)
      objects_ok j = elim (Bool-cases (j == i)) [
        | inl e ↦
            rw e
              (own ∙ sym ((==_iff j i).0 e), named, λ le. absurd (omega (arith, (==_iff j i).0 e)))
        | inr e ↦ rw e (others j)
      ]

      same_table :
          (o : Option String) (j : ClientId) → Leads w o j → Leads (world_for j (store i w p)) o j
      same_table none j l = tt
      same_table (some nick) j l =
          subst (λ e. Assoc.get (e.to_lowercase nick) w.server.nickname_map ≡ some j) same_env l

      leads :
          (j : ClientId) → Leads (world_for j (store i w p)) (update w.peers i w.self j).nickname j
      leads j = same_table (update w.peers i w.self j).nickname j (
          subst (λ k. Leads w (if j == k then w.self else w.peers j).nickname j) own
            (object_name w j (names.leads j)))
