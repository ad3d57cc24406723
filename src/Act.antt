-- ===== src/Act.antt =====
-- The code of a task as actions on the world. An action comes to an end, with a value or an error,
-- or panics, or waits for a lock that is held; what it changed before stays changed.
pub mod Keeps
pub mod Ends
use clandestine.Prelude.{String, Bool, true, false, List, [], ◌∷◌, Option, none, some}
use clandestine.Error.{IrcError, Result, ok, err}
use clandestine.World.{World, Client, Server, Locks}

pub data Outcome {ℓ} (A : Type ℓ) : Type ℓ where
  done : A → Outcome A
  fail : IrcError → Outcome A
  panic blocked : Outcome A

abbrev pub Act {ℓ} : Type ℓ → Type ℓ
Act A = World → Outcome A × World

module _ {ℓ} {A : Type ℓ} where
  unfoldable pub pure : A → Act A
  pure a w = (done a, w)

  unfoldable pub raise : IrcError → Act A
  raise e w = (fail e, w)

  unfoldable pub panics : Act A
  panics w = (panic, w)

  unfoldable pub blocks : Act A
  blocks w = (blocked, w)

  unfoldable pub gets : (World → A) → Act A
  gets f w = (done (f w), w)

  -- `Option::unwrap`
  unfoldable pub unwrap : Option A → Act A
  unfolding pure panics
  unwrap none = panics
  unwrap (some a) = pure a

  -- a result as the outcome
  unfoldable pub from_result : Result A IrcError → Act A
  unfolding pure raise
  from_result (ok a) = pure a
  from_result (err e) = raise e

  -- `opt.ok_or(e)?`
  unfoldable pub ok_or : Option A → IrcError → Act A
  unfolding pure raise
  ok_or none e = raise e
  ok_or (some a) e = pure a

unfoldable pub modify : (World → World) → Act (Unit {0})
modify f w = (done tt, f w)

abbrev pub set_self : (Client → Client) → Act (Unit {0})
set_self f = modify (λ w. record w { self = f w.self })

abbrev pub set_server : (Server → Server) → Act (Unit {0})
set_server f = modify (λ w. record w { server = f w.server })

module _ {ℓ κ} {A : Type ℓ} {B : Type κ} where
  abbrev pub continue : Outcome A → (A → Act B) → Act B
  continue (done a) f w = f a w
  continue (fail e) f w = (fail e, w)
  continue panic f w = (panic, w)
  continue blocked f w = (blocked, w)

  infixl 10 ◌>>=◌ ◌>>◌
  -- opening this opens the actions above too
  unfoldable pub ◌>>=◌ : Act A → (A → Act B) → Act B
  unfolding pure raise panics blocks gets unwrap from_result ok_or modify
  ◌>>=◌ m f w = let (r, w') = m w in continue r f w'

  abbrev pub ◌>>◌ : Act A → Act B → Act B
  m >> n = m >>= λ _. n

module _ {ℓ} {A : Type ℓ} where
  abbrev pub as_result : Outcome A → World → Outcome (Result A IrcError) × World
  as_result (done a) w = (done (ok a), w)
  as_result (fail e) w = (done (err e), w)
  as_result panic w = (panic, w)
  as_result blocked w = (blocked, w)

  -- the result of an action as a value, not taken by `?`
  unfoldable pub attempt : Act A → Act (Result A IrcError)
  attempt m w = let (r, w') = m w in as_result r w'

-- A block that holds more locks. They are released when it ends in any way, by a panic too, and stay
-- held while it waits.
module _ {ℓ} {A : Type ℓ} where
  abbrev pub release : Locks → Outcome A × World → Outcome A × World
  release before (done a, w) = (done a, record w { locks = before })
  release before (fail e, w) = (fail e, record w { locks = before })
  release before (panic, w) = (panic, record w { locks = before })
  release before (blocked, w) = (blocked, w)

  unfoldable pub with_locks : (Locks → Locks) → Act A → Act A
  with_locks take m w = release w.locks (m (record w { locks = take w.locks }))

-- `for a in xs { … }`
unfoldable pub for_each {ℓ} : {A : Type ℓ} → List A → (A → Act (Unit {0})) → Act (Unit {0})
unfolding pure
for_each [] f = pure tt
for_each (x ∷ xs) f = do f x; for_each xs f
