-- ===== src/Invariant/Idle.antt =====
-- A client of src/server/mod.rs whose task reads no lines: it has ended, or waits for a lock.
use clandestine.Prelude.{
  ℕ, ◌+◌, ◌^◌, ◌<◌, String, Bool, false, List, [], ◌∷◌, ◌≡◌, refl, arith, ==_iff, inl, inr,
  Bool-cases, ◌≤◌, ap, subst, ◌∙◌, some,
}
use clandestine.Prelude.Set
use clandestine.Prelude.Assoc
use clandestine.Invariant.Connections.{led_to}
use clandestine.Prelude.Set.{contains-insert, contains-remove}
use clandestine.Prelude.Eq.{◌==◌, nat_eq, string_eq}
use clandestine.Channel.{ClientId, DateTime}
use clandestine.World.{World, Client, Env, Server, update}
use clandestine.Act.{◌>>=◌}
use clandestine.Invariant.{Stable}
use clandestine.Invariant.Ending.{Keeps-finish}
use clandestine.Invariant.Tasks.{Sound}
use clandestine.Invariant.Upkeep.{Upkeep, Reads, end_of_cases, step_keeps}
use clandestine.Invariant.Events.{own_ids, accepts, step-Sound, run-Sound, start-Sound}
use clandestine.Server.Clients.{add_client}
use clandestine.Server.Run.{
  Event, accepted, Process, world_for, store, finish, gone, waits, end_connection,
  generate_client_id, connect, step, run, start,
}

-- A client but for what others queue for it.
abbrev pub without_queue : Client → Client
without_queue c = record c { sendq_tx = [] }

-- The task of the client reads no lines, whether it waits for a lock or not, and the client is as it
-- was but for its queue.
pub record Idle (i : ClientId) (is_waiting : Bool) (c : Client) (p : Process) : Type 0 where
  pub reads_nothing : Set.contains i p.reading ≡ false
  pub waits_for_lock : Set.contains i p.waiting ≡ is_waiting
  pub same_client : without_queue (p.objects i) ≡ c

module _ (i : ClientId) (is_waiting : Bool) (c : Client) where
  -- Other tasks only put messages into the queue of the client.
  abbrev Untouched : World → Type 0
  Untouched w = without_queue (w.peers i) ≡ c

  Untouched-queue :
      (id : ClientId) (q : List String) (w : World)
      → Untouched w
      → without_queue (update w.peers id (record (w.peers id) { sendq_tx = q }) i) ≡ c
  Untouched-queue id q w h = elim (Bool-cases (i == id)) [
    | inl e ↦ rw e (subst (λ k. without_queue (w.peers k) ≡ c) ((==_iff i id).0 e) h)
    | inr e ↦ rw e h
  ]

  Untouched-Stable : Stable Untouched
  Untouched-Stable = record {
    sends = record {
      quiet = record { locks = λ l w h. h; peer_queue = Untouched-queue };
      self_queue = λ q w h. h;
      self_tx = λ q w h. h;
      channels = λ m w h. h;
      timer = λ b k w h. h;
    };
    modes = λ m w h. h;
    negotiating = λ b w h. h;
    registers = λ w r h. h;
    names_user = λ u r w h. h;
    claims = λ nick w free h. h;
  }

  -- A client whose task reads is another one.
  another : (id : ClientId) (p : Process) → Reads id p → Idle i is_waiting c p → (i == id) ≡ false
  another id p m h = ground (arith, ==_iff i id, h.reads_nothing)

  gone-Idle :
      (id : ClientId) (p : Process) → Idle i is_waiting c p → Idle i is_waiting c (gone id p)
  gone-Idle id p h = record {
    waits_for_lock = h.waits_for_lock;
    reads_nothing = ground (arith, contains-remove id i p.reading, h.reads_nothing);
    same_client = h.same_client;
  }

  waits-Idle :
      (id : ClientId)
      → (i == id) ≡ false
      → (p : Process) → Idle i is_waiting c p
      → Idle i is_waiting c (waits id p)
  waits-Idle id n p h = record {
    waits_for_lock =
        ground (arith, contains-insert id i p.waiting, h.waits_for_lock, ==_iff i id, ==_iff id i);
    reads_nothing = ground (arith, contains-remove id i p.reading, h.reads_nothing);
    same_client = h.same_client;
  }

  store-Idle :
      (id : ClientId) (w : World) (p : Process)
      → (i == id) ≡ false
      → Untouched w
      → Idle i is_waiting c p
      → Idle i is_waiting c (store id w p)
  store-Idle id w p n s h = record {
    waits_for_lock = h.waits_for_lock;
    reads_nothing = h.reads_nothing;
    same_client = rw n s;
  }

  end_connection-Idle :
      (id : ClientId) (p : Process)
      → Reads id p
      → Idle i is_waiting c p
      → Idle i is_waiting c (end_connection id p)
  unfolding end_connection
  end_connection-Idle id p m h =
      end_of_cases id p _ (gone-Idle id) (waits-Idle id (another id p m h)) (
        store-Idle id (finish id (world_for id p)).1 p (another id p m h)
          ((Keeps-finish Untouched-Stable id (λ w s. s) (λ ids keys w s. s)).at (world_for id p)
            h.same_client)
          h)

  Idle-Upkeep : Upkeep (Idle i is_waiting c) (λ id p. Untouched)
  Idle-Upkeep = record {
    gone_keeps = λ id p m h. gone-Idle id p h;
    waits_keeps = λ id p m h. waits-Idle id (another id p m h) p h;
    begins = λ id p m h. h.same_client;
    stable = λ id p. Untouched-Stable;
    store_keeps = λ id w p m t h. store-Idle id w p (another id p m h) t h;
    end_keeps = end_connection-Idle;
    clock_keeps = λ now p h. record {
      waits_for_lock = h.waits_for_lock;
      reads_nothing = h.reads_nothing;
      same_client = h.same_client;
    };
  }

  connect-Idle :
      {k : ℕ} {p : Process} (ip : String)
      → Sound k p
      → i < k
      → Idle i is_waiting c p
      → Idle i is_waiting c (connect ip p)
  unfolding connect generate_client_id add_client Set.contains ◌>>=◌
  connect-Idle {p = p} ip o b h = record {
    waits_for_lock = h.waits_for_lock;
    reads_nothing = ground (arith, o.next, ==_iff p.next_client_id i, h.reads_nothing);
    same_client = ground (arith, o.next, ==_iff i p.next_client_id, h.same_client);
  }

  step-Idle :
      {k : ℕ} {p : Process} (e : Event)
      → Sound k p
      → i < k
      → Idle i is_waiting c p
      → Idle i is_waiting c (step e p)
  unfolding step
  step-Idle (accepted ip) o b h = connect-Idle ip o b h
  step-Idle {p = p} e o b h = step_keeps Idle-Upkeep p e refl (own_ids o) h

  pub run-Idle :
      (es : List Event) {k : ℕ} {p : Process}
      → Sound k p
      → i < k
      → k + accepts es < 2 ^ 32
      → Idle i is_waiting c p
      → Idle i is_waiting c (run es p)
  unfolding run accepts
  run-Idle [] o b l h = h
  run-Idle (e ∷ es) o b l h =
      run-Idle es (step-Sound e o refl (omega arith)) (omega arith) (omega arith)
        (step-Idle e o b h)

-- The nickname of a client whose connection has ended, by an end, an error or a panic, is never given
-- back: whatever happens to the server from then on, the client still has it, and the table leads from
-- its lower case to the client.
pub names_never_freed :
    (es later : List Event) (env : Env) (now : DateTime) (server : Server) (i : ClientId)
    (nick : String)
    → 1 + accepts es + accepts later < 2 ^ 32
    → i ≤ accepts es
    → Set.contains i (run es (start env now server)).reading ≡ false
    → Set.contains i (run es (start env now server)).waiting ≡ false
    → ((run es (start env now server)).objects i).nickname ≡ some nick
    → (((run later (run es (start env now server))).objects i).nickname ≡ some nick)
      × (Assoc.get
            ((run later (run es (start env now server))).env.to_lowercase nick)
            (run later (run es (start env now server))).server.nickname_map
          ≡ some i)
names_never_freed es later env now server i nick l b r v q =
    let o = run-Sound es (start-Sound env now server) refl (omega arith) in
    let h =
      run-Idle i false (without_queue ((run es (start env now server)).objects i)) later o
        (omega (arith, b)) (omega arith)
        (record { reads_nothing = r; waits_for_lock = v; same_client = refl }) in
    let e : ((run later (run es (start env now server))).objects i).nickname ≡ some nick =
      ap (λ (c : Client). c.nickname) h.same_client ∙ q in
    (e, led_to i nick (run-Sound later o refl (omega arith)) e)
