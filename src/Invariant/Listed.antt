-- ===== src/Invariant/Listed.antt =====
-- What a step of src/server/mod.rs makes of the tables of clients.
use clandestine.Prelude.{ℕ, ◌<◌, true, false, ◌≡◌, refl, sym, subst, arith, ==_iff}
use clandestine.Prelude.Set
use clandestine.Prelude.Set.{Distinct, contains-insert, contains-remove}
use clandestine.Prelude.Eq.{nat_eq}
use clandestine.Channel.{ClientId}
use clandestine.World.{World, Server}
use clandestine.Act
use clandestine.Act.{Outcome, done, fail, panic, blocked, ◌>>=◌}
use clandestine.Invariant.{Stable}
use clandestine.Invariant.Ending.{Keeps-cleanup}
use clandestine.Invariant.Upkeep.{Upkeep}
use clandestine.Server.Clients.{remove_client}
use clandestine.Server.Clients.InSync.{InSync, remove_client-InSync}
use clandestine.Server.Run.{Process, world_for, store, gone, waits, end_of, finish, end_connection}
use clandestine.Client.Dispatch.{cleanup}

-- The list and the map of clients have the same ids, each once, all of which have been given out; and
-- every client whose task runs is in them, and waits for one thing only.
pub record Listed (n : ℕ) (p : Process) : Type 0 where
  pub synced : InSync p.server
  pub known : (j : ClientId) → Set.contains j p.server.client_map ≡ true → j < n
  pub reading_listed :
      (j : ClientId)
      → Set.contains j p.reading ≡ true
      → (Set.contains j p.server.client_map ≡ true) × (Set.contains j p.waiting ≡ false)
  pub waiting_listed :
      (j : ClientId) → Set.contains j p.waiting ≡ true → Set.contains j p.server.client_map ≡ true

-- No handler changes the tables.
abbrev SameTables : Server → World → Type 0
SameTables s w = (w.server.clients ≡ s.clients) × (w.server.client_map ≡ s.client_map)

SameTables-Stable : (s : Server) → Stable (SameTables s)
SameTables-Stable s = record {
  sends = record {
    quiet = record { locks = λ l w h. h; peer_queue = λ id q w h. h };
    self_queue = λ q w h. h;
    self_tx = λ q w h. h;
    channels = λ m w h. h;
    timer = λ b k w h. h;
  };
  modes = λ m w h. h;
  negotiating = λ b w h. h;
  registers = λ w r h. h;
  names_user = λ u r w h. h;
  claims = λ nick w free h. h;
}

same-InSync : (s : Server) (w : World) → InSync s → SameTables s w → InSync w.server
same-InSync s w h (c, m) = record {
  distinct = subst Distinct (sym c) h.distinct;
  same_ids = λ id. rw c (rw m (h.same_ids id));
}

module _ {n : ℕ} {p : Process} (h : Listed n p) where
  store-Listed : (id : ClientId) (w : World) → SameTables p.server w → Listed n (store id w p)
  store-Listed id w t = record {
    synced = same-InSync p.server w h.synced t;
    known = λ j. rw (t.1) (h.known j);
    reading_listed = λ j. rw (t.1) (h.reading_listed j);
    waiting_listed = λ j. rw (t.1) (h.waiting_listed j);
  }

  gone-Listed : (id : ClientId) → Listed n (gone id p)
  gone-Listed id = record {
    synced = h.synced;
    known = h.known;
    reading_listed = λ j m. ground (arith, contains-remove id j p.reading, h.reading_listed j);
    waiting_listed = h.waiting_listed;
  }

  waits-Listed : (id : ClientId) → Set.contains id p.reading ≡ true → Listed n (waits id p)
  waits-Listed id r = record {
    synced = h.synced;
    known = h.known;
    reading_listed = λ j m.
        ground (
          arith,
          contains-remove id j p.reading,
          contains-insert id j p.waiting,
          h.reading_listed j,
        );
    waiting_listed = λ j m. ground (
      arith,
      contains-insert id j p.waiting,
      h.waiting_listed j,
      h.reading_listed id,
      ==_iff id j,
    );
  }

  -- The end of a connection takes its client out of both tables.
  removed-Listed :
      (id : ClientId) (w : World)
      → Set.contains id p.reading ≡ true
      → SameTables p.server w
      → Listed n (gone id (store id (remove_client id w).1 p))
  unfolding remove_client ◌>>=◌
  removed-Listed id w r t = record {
    synced = remove_client-InSync id w (same-InSync p.server w h.synced t);
    known = λ j m. ground (arith, t.1, contains-remove id j w.server.client_map, h.known j);
    reading_listed = λ j m. ground (
      arith,
      t.1,
      contains-remove id j p.reading,
      contains-remove id j w.server.client_map,
      h.reading_listed j,
    );
    waiting_listed = λ j m. ground (
      arith,
      t.1,
      contains-remove id j w.server.client_map,
      h.waiting_listed j,
      h.reading_listed id,
      ==_iff id j,
    );
  }

module _ {n : ℕ} {p : Process} (h : Listed n p) (id : ClientId)
    (r : Set.contains id p.reading ≡ true) where
  ended-Listed :
      (o : Outcome (Unit {0}) × World)
      → SameTables p.server o.1
      → Listed n (end_of id (Act.continue o.0 (λ u. remove_client id) o.1) p)
  unfolding remove_client
  ended-Listed (done u, w) t = removed-Listed h id w r t
  ended-Listed (fail e, w) t = gone-Listed (store-Listed h id w t) id
  ended-Listed (panic, w) t = gone-Listed (store-Listed h id w t) id
  ended-Listed (blocked, w) t = waits-Listed (store-Listed h id w t) id r

  end_connection-Listed : Listed n (end_connection id p)
  unfolding end_connection finish ◌>>=◌
  end_connection-Listed =
      ended-Listed (cleanup (world_for id p))
        ((Keeps-cleanup (SameTables-Stable p.server) (λ w t. t)).at (world_for id p) (refl, refl))

pub Listed-Upkeep : (n : ℕ) → Upkeep (Listed n) (λ id p. SameTables p.server)
Listed-Upkeep n = record {
  gone_keeps = λ id p m h. gone-Listed h id;
  waits_keeps = λ id p m h. waits-Listed h id m;
  begins = λ id p m h. (refl, refl);
  stable = λ id p. SameTables-Stable p.server;
  store_keeps = λ id w p m t h. store-Listed h id w t;
  end_keeps = λ id p m h. end_connection-Listed h id m;
  clock_keeps = λ now p h. record {
    synced = h.synced;
    known = h.known;
    reading_listed = h.reading_listed;
    waiting_listed = h.waiting_listed;
  };
}
