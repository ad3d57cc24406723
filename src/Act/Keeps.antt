-- ===== src/Act/Keeps.antt =====
-- Invariants of actions, one rule for each way to build an action.
use clandestine.Prelude.{Bool, true, false, List, [], ◌∷◌, Option, none, some, if◌then◌else◌}
use clandestine.Error.{IrcError, Result, ok, err}
use clandestine.World.{World, Locks}
use clandestine.Act
use clandestine.Act.{
  Outcome, done, fail, panic, blocked, Act, pure, raise, panics, blocks, gets, unwrap, from_result,
  ok_or, modify, ◌>>=◌, attempt, as_result, for_each, with_locks, release,
}

-- However it ends, the action leaves a world with `P` if it began in one.
pub record Keeps {ℓ} {A : Type ℓ} (P : World → Type 0) (m : Act A) : Type ℓ where
  pub at : (w : World) → P w → P (m w).1

module _ {ℓ} {A : Type ℓ} {P : World → Type 0} where
  pub Keeps-pure : (a : A) → Keeps P (pure a)
  unfolding pure
  Keeps-pure a = record { at = λ w h. h }

  pub Keeps-raise : (e : IrcError) → Keeps P (raise {A = A} e)
  unfolding raise
  Keeps-raise e = record { at = λ w h. h }

  pub Keeps-panics : Keeps P (panics {A = A})
  unfolding panics
  Keeps-panics = record { at = λ w h. h }

  pub Keeps-blocks : Keeps P (blocks {A = A})
  unfolding blocks
  Keeps-blocks = record { at = λ w h. h }

  pub Keeps-gets : (f : World → A) → Keeps P (gets f)
  unfolding gets
  Keeps-gets f = record { at = λ w h. h }

  pub Keeps-unwrap : (o : Option A) → Keeps P (unwrap o)
  unfolding unwrap
  Keeps-unwrap none = Keeps-panics
  Keeps-unwrap (some a) = Keeps-pure a

  pub Keeps-from_result : (r : Result A IrcError) → Keeps P (from_result r)
  unfolding from_result
  Keeps-from_result (ok a) = Keeps-pure a
  Keeps-from_result (err e) = Keeps-raise e

  pub Keeps-ok_or : (o : Option A) (e : IrcError) → Keeps P (ok_or o e)
  unfolding ok_or
  Keeps-ok_or none e = Keeps-raise e
  Keeps-ok_or (some a) e = Keeps-pure a

  pub Keeps-if : (b : Bool) (m n : Act A) → Keeps P m → Keeps P n → Keeps P (if b then m else n)
  Keeps-if true m n km kn = km
  Keeps-if false m n km kn = kn

  pub Keeps-attempt : (m : Act A) → Keeps P m → Keeps P (attempt m)
  unfolding attempt
  Keeps-attempt m km = record { at = λ w h. let (r, w') = m w in kept r w' (km.at w h) }
    where
      kept : (r : Outcome A) (w : World) → P w → P (as_result r w).1
      kept (done a) w h = h
      kept (fail e) w h = h
      kept panic w h = h
      kept blocked w h = h

module _ {ℓ} {A : Type ℓ} {P : World → Type 0} where
  -- for a property that does not speak of the locks
  pub Keeps-with_locks :
      (take : Locks → Locks) (m : Act A)
      → ((l : Locks) (w : World) → P w → P (record w { locks = l }))
      → Keeps P m
      → Keeps P (with_locks take m)
  unfolding with_locks
  Keeps-with_locks take m free km = record {
    at = λ w h. kept w.locks (m (record w { locks = take w.locks })) (km.at _ (free _ w h));
  }
    where
      kept : (before : Locks) (r : Outcome A × World) → P r.1 → P (release before r).1
      kept before (done a, w) h = free before w h
      kept before (fail e, w) h = free before w h
      kept before (panic, w) h = free before w h
      kept before (blocked, w) h = h

module _ {ℓ κ} {A : Type ℓ} {B : Type κ} {P : World → Type 0} where
  pub Keeps-bind :
      (m : Act A) (f : A → Act B) → Keeps P m → ((a : A) → Keeps P (f a)) → Keeps P (m >>= f)
  unfolding ◌>>=◌
  Keeps-bind m f km kf = record { at = λ w h. let (r, w') = m w in kept r w' (km.at w h) }
    where
      kept : (r : Outcome A) (w : World) → P w → P (Act.continue r f w).1
      kept (done a) w h = (kf a).at w h
      kept (fail e) w h = h
      kept panic w h = h
      kept blocked w h = h

module _ {P : World → Type 0} where
  pub Keeps-modify : (f : World → World) → ((w : World) → P w → P (f w)) → Keeps P (modify f)
  unfolding modify
  Keeps-modify f h = record { at = h }

  pub Keeps-for_each {ℓ} :
      {A : Type ℓ} (xs : List A) (f : A → Act (Unit {0}))
      → ((a : A) → Keeps P (f a))
      → Keeps P (for_each xs f)
  unfolding for_each
  Keeps-for_each [] f kf = Keeps-pure tt
  Keeps-for_each (x ∷ xs) f kf = Keeps-bind (f x) _ (kf x) (λ u. Keeps-for_each xs f kf)

pub ruleset keeps_rules = (
  Keeps-pure, Keeps-raise, Keeps-panics, Keeps-blocks, Keeps-gets, Keeps-unwrap, Keeps-from_result,
  Keeps-ok_or, Keeps-if, Keeps-attempt, Keeps-bind, Keeps-for_each, Keeps-with_locks,
)
