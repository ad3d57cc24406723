-- ===== src/Server/Clients.antt =====
-- src/server/client.rs: the table of clients, and how a task takes another client's mutex.
pub mod InSync
use clandestine.Prelude.{String, List, [], ◌∷◌, ◌++◌, Option, none, some, if◌then◌else◌}
use clandestine.Prelude.Assoc
use clandestine.Prelude.Assoc.{Assoc}
use clandestine.Prelude.Set
use clandestine.Prelude.Eq.{◌==◌, nat_eq, string_eq}
use clandestine.Channel.{ClientId}
use clandestine.World.{WhoisInfo}
use clandestine.Act.{Act, done, blocked, panics, gets, set_server, modify, ◌>>=◌}

-- `client.lock().await`: it waits if the client is the task's own, whose mutex the task holds, or
-- one whose mutex another task holds.
unfoldable pub lock : ClientId → Act (Unit {0})
lock id w =
    if id == w.self.id
    then (blocked, w)
    else if Set.contains id w.locks.busy
    then (blocked, w)
    else (done tt, w)

abbrev pub find_id : ClientId → List ClientId → Option ClientId
find_id id ids = if Set.contains id ids then some id else none

unfoldable pub get_client : ClientId → Act (Option ClientId)
get_client id = gets (λ w. find_id id w.server.client_map)

-- Called before the task takes the client's mutex for the connection.
unfoldable pub add_client : ClientId → Act (Unit {0})
unfolding modify
add_client id =
    set_server
      (λ s. record s { clients = s.clients ++ id ∷ []; client_map = Set.insert id s.client_map })

-- the last entry, and the entries before it
unfoldable pub split_last {ℓ} : {A : Type ℓ} → A → List A → A × List A
split_last x [] = (x, [])
split_last x (y ∷ ys) = let (last, front) = split_last y ys in (last, x ∷ front)

abbrev replace_by_last {ℓ} : {A : Type ℓ} → List A → List A
replace_by_last [] = []
replace_by_last (y ∷ ys) = let (last, front) = split_last y ys in last ∷ front

-- `position` and `swap_remove`: the first entry with the id is replaced by the last entry
unfoldable pub swap_remove : ClientId → List ClientId → List ClientId
unfolding split_last
swap_remove id [] = []
swap_remove id (x ∷ xs) =
    let rest = swap_remove id xs in if x == id then replace_by_last xs else x ∷ rest

unfoldable pub remove_client : ClientId → Act (Unit {0})
unfolding modify swap_remove
remove_client id =
    set_server (λ s. record s {
      clients = swap_remove id s.clients;
      client_map = Set.remove id s.client_map;
    })

abbrev pub answer : Option (Assoc String WhoisInfo) → String → Act (Option WhoisInfo)
answer none nickname = panics
answer (some table) nickname = gets (λ w. Assoc.get (w.env.to_lowercase nickname) table)

-- The request goes to the server task, which looks the name up in its own table (`server_task`
-- of src/server/mod.rs); if the task's receiver is gone, `expect` panics.
unfoldable pub find_client_info : String → Act (Option WhoisInfo)
find_client_info nickname = do tx ← gets (λ w. w.server.tx); answer tx nickname

abbrev pub of_id : List ClientId → Option ClientId → Option ClientId
of_id ids none = none
of_id ids (some id) = find_id id ids

unfoldable pub find_client_by_nick : String → Act (Option ClientId)
find_client_by_nick nickname =
    gets (λ w.
      of_id w.server.client_map (Assoc.get (w.env.to_lowercase nickname) w.server.nickname_map))
