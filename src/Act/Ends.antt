-- ===== src/Act/Ends.antt =====
-- Actions that come to an end in every world, one rule for each way to build an action.
use clandestine.Prelude.{Bool, true, false, ◌≡◌, refl, Option, none, some, if◌then◌else◌}
use clandestine.Error.{IrcError, Result, ok, err}
use clandestine.World.{World}
use clandestine.Act
use clandestine.Act.{
  Outcome, done, fail, panic, blocked, Act, pure, raise, panics, gets, unwrap, from_result, ok_or,
  modify, ◌>>=◌, attempt, as_result, for_each,
}

-- The action did not wait for a lock that is held.
abbrev pub has_ended {ℓ} : {A : Type ℓ} → Outcome A → Bool
has_ended (done a) = true
has_ended (fail e) = true
has_ended panic = true
has_ended blocked = false

pub record Ends {ℓ} {A : Type ℓ} (m : Act A) : Type ℓ where
  pub at : (w : World) → has_ended (m w).0 ≡ true

module _ {ℓ} {A : Type ℓ} where
  pub Ends-pure : (a : A) → Ends (pure a)
  unfolding pure
  Ends-pure a = record { at = λ w. refl }

  pub Ends-raise : (e : IrcError) → Ends (raise {A = A} e)
  unfolding raise
  Ends-raise e = record { at = λ w. refl }

  pub Ends-panics : Ends (panics {A = A})
  unfolding panics
  Ends-panics = record { at = λ w. refl }

  pub Ends-gets : (f : World → A) → Ends (gets f)
  unfolding gets
  Ends-gets f = record { at = λ w. refl }

  pub Ends-unwrap : (o : Option A) → Ends (unwrap o)
  unfolding unwrap
  Ends-unwrap none = Ends-panics
  Ends-unwrap (some a) = Ends-pure a

  pub Ends-from_result : (r : Result A IrcError) → Ends (from_result r)
  unfolding from_result
  Ends-from_result (ok a) = Ends-pure a
  Ends-from_result (err e) = Ends-raise e

  pub Ends-if : (b : Bool) (m n : Act A) → Ends m → Ends n → Ends (if b then m else n)
  Ends-if true m n em en = em
  Ends-if false m n em en = en

  pub Ends-attempt : (m : Act A) → Ends m → Ends (attempt m)
  unfolding attempt
  Ends-attempt m em = record { at = λ w. let (r, w') = m w in ended r w' (em.at w) }
    where
      ended : (r : Outcome A) (w : World) → has_ended r ≡ true → has_ended (as_result r w).0 ≡ true
      ended (done a) w h = refl
      ended (fail e) w h = refl
      ended panic w h = refl
      ended blocked w h = h

module _ {ℓ κ} {A : Type ℓ} {B : Type κ} where
  pub Ends-bind : (m : Act A) (f : A → Act B) → Ends m → ((a : A) → Ends (f a)) → Ends (m >>= f)
  unfolding ◌>>=◌
  Ends-bind m f em ef = record { at = λ w. let (r, w') = m w in ended r w' (em.at w) }
    where
      ended :
          (r : Outcome A) (w : World) → has_ended r ≡ true → has_ended (Act.continue r f w).0 ≡ true
      ended (done a) w h = (ef a).at w
      ended (fail e) w h = refl
      ended panic w h = refl
      ended blocked w h = h

pub Ends-modify : (f : World → World) → Ends (modify f)
unfolding modify
Ends-modify f = record { at = λ w. refl }

pub ruleset ends_rules = (
  Ends-pure, Ends-raise, Ends-panics, Ends-gets, Ends-unwrap, Ends-from_result, Ends-if,
  Ends-attempt, Ends-bind, Ends-modify,
)
