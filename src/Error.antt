-- ===== src/Error.antt =====
-- src/error.rs: the error type, and the results of fallible code.
use clandestine.Prelude.{String}

pub data IrcError : Type 0 where
  io config protocol client channel server_link parse : String → IrcError

-- `Result<A, E>`
pub data Result {ℓ κ} (A : Type ℓ) (E : Type κ) : Type (ℓ ⊔ κ) where
  ok : A → Result A E
  err : E → Result A E

infixl 5 ◌>>=◌
abbrev pub ◌>>=◌ {ℓ κ υ} :
    {A : Type ℓ} {B : Type κ} {E : Type υ} → Result A E → (A → Result B E) → Result B E
ok a >>= f = f a
err e >>= f = err e
