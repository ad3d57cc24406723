-- ===== src/Server/Clients/InSync.antt =====
-- The two tables of clients that src/server/client.rs keeps: the list of ids and the map.
use clandestine.Prelude.{
  false, ◌||◌, List, [], ◌∷◌, ◌++◌, ◌≡◌, refl, ◌∙◌, arith, if◌then◌else◌, ==_iff,
}
use clandestine.Prelude.Set
use clandestine.Prelude.Set.{Distinct, contains-insert, contains-remove}
use clandestine.Prelude.Eq.{◌==◌, nat_eq}
use clandestine.Channel.{ClientId}
use clandestine.World.{World, Server}
use clandestine.Act.{◌>>=◌}
use clandestine.Server.Clients.{split_last, replace_by_last, swap_remove, add_client, remove_client}

-- The list has no id twice, and the same ids as the map.
pub record InSync (s : Server) : Type 0 where
  pub distinct : Distinct s.clients
  pub same_ids : (id : ClientId) → Set.contains id s.clients ≡ Set.contains id s.client_map

contains-split_last :
    (b y : ClientId) (ys : List ClientId)
    → Set.contains b ((split_last y ys).0 ∷ (split_last y ys).1) ≡ Set.contains b (y ∷ ys)
unfolding Set.contains split_last
contains-split_last b y [] = refl
contains-split_last b y (z ∷ zs) = ground (arith, contains-split_last b z zs)

split_last-Distinct :
    (y : ClientId) (ys : List ClientId)
    → Distinct (y ∷ ys)
    → Distinct ((split_last y ys).0 ∷ (split_last y ys).1)
unfolding Set.contains split_last
split_last-Distinct y [] d = d
split_last-Distinct y (z ∷ zs) (d, e) = ground (
  arith,
  split_last-Distinct z zs e,
  contains-split_last y z zs,
  ==_iff (split_last z zs).0 y,
  ==_iff y (split_last z zs).0,
)

-- The list with the last entry put in front.
contains-replace_by_last :
    (b : ClientId) (xs : List ClientId) → Set.contains b (replace_by_last xs) ≡ Set.contains b xs
contains-replace_by_last b [] = refl
contains-replace_by_last b (x ∷ xs) = contains-split_last b x xs

replace_by_last-Distinct : (xs : List ClientId) → Distinct xs → Distinct (replace_by_last xs)
replace_by_last-Distinct [] d = tt
replace_by_last-Distinct (x ∷ xs) d = split_last-Distinct x xs d

pub contains-swap_remove :
    (id b : ClientId) (xs : List ClientId)
    → Distinct xs
    → Set.contains b (swap_remove id xs) ≡ (if id == b then false else Set.contains b xs)
unfolding Set.contains swap_remove
contains-swap_remove id b [] d = ground arith
contains-swap_remove id b (x ∷ xs) d =
    ground (arith, contains-swap_remove id b xs d.1, contains-replace_by_last b xs)

swap_remove-Distinct :
    (id : ClientId) (xs : List ClientId) → Distinct xs → Distinct (swap_remove id xs)
unfolding swap_remove
swap_remove-Distinct id [] d = tt
swap_remove-Distinct id (x ∷ xs) d = ground (
  arith,
  swap_remove-Distinct id xs d.1,
  contains-swap_remove id x xs d.1,
  replace_by_last-Distinct xs d.1,
)

pub remove_client-InSync :
    (id : ClientId) (w : World) → InSync w.server → InSync (remove_client id w).1.server
unfolding remove_client ◌>>=◌
remove_client-InSync id w h = record {
  distinct = swap_remove-Distinct id w.server.clients h.distinct;
  same_ids = λ b. ground (
    arith,
    contains-swap_remove id b w.server.clients h.distinct,
    contains-remove id b w.server.client_map,
    h.same_ids b,
  );
}

pub contains-append_one :
    (id b : ClientId) (xs : List ClientId)
    → Set.contains b (xs ++ id ∷ []) ≡ (id == b || Set.contains b xs)
unfolding Set.contains
contains-append_one id b [] = refl
contains-append_one id b (x ∷ xs) = ground (arith, contains-append_one id b xs)

append_one-Distinct :
    (id : ClientId) (xs : List ClientId)
    → Set.contains id xs ≡ false
    → Distinct xs
    → Distinct (xs ++ id ∷ [])
unfolding Set.contains
append_one-Distinct id [] n d = (refl, tt)
append_one-Distinct id (x ∷ xs) n d =
    ground (arith, append_one-Distinct id xs, contains-append_one id x xs, ==_iff x id, ==_iff id x)

pub add_client-InSync :
    (id : ClientId) (w : World)
    → Set.contains id w.server.client_map ≡ false
    → InSync w.server
    → InSync (add_client id w).1.server
unfolding add_client ◌>>=◌
add_client-InSync id w n h = record {
  distinct = append_one-Distinct id w.server.clients (h.same_ids id ∙ n) h.distinct;
  same_ids = λ b. ground (
    arith,
    contains-append_one id b w.server.clients,
    contains-insert id b w.server.client_map,
    h.same_ids b,
  );
}

-- A client that is not in the map yet is added, and any client is removed, such that the list and the
-- map keep the same ids, each once, if they had; an added client is in both, a removed one in
-- neither, and the others are where they were.
pub clients-InSync :
    (id : ClientId) (w : World)
    → Set.contains id w.server.client_map ≡ false
    → InSync w.server
    → InSync (add_client id w).1.server
      × InSync (remove_client id w).1.server
      × ((b : ClientId)
          → (Set.contains b (add_client id w).1.server.clients
              ≡ (id == b || Set.contains b w.server.clients))
            × (Set.contains b (remove_client id w).1.server.clients
                ≡ (if id == b then false else Set.contains b w.server.clients)))
unfolding add_client remove_client ◌>>=◌
clients-InSync id w n h = (
  add_client-InSync id w n h,
  remove_client-InSync id w h,
  λ b. (
    contains-append_one id b w.server.clients,
    contains-swap_remove id b w.server.clients h.distinct,
  ),
)
