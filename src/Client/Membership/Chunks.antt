-- ===== src/Client/Membership/Chunks.antt =====
-- The chunks in which the list of names is sent.

use clandestine.Prelude.{
  ℕ, zero, suc, ◌≤◌, ◌<◌, List, [], ◌∷◌, ◌++◌, ◌≡◌, refl, ap, ◌∙◌, arith, take, drop, length, All,
}
use clandestine.Client.Membership.{chunks_of, chunks}

abbrev pub flatten {ℓ} : {A : Type ℓ} → List (List A) → List A
flatten [] = []
flatten (xs ∷ xss) = xs ++ flatten xss

module _ {ℓ} {A : Type ℓ} where
  take-drop : (n : ℕ) (xs : List A) → take n xs ++ drop n xs ≡ xs
  take-drop zero xs = refl
  take-drop (suc n) [] = refl
  take-drop (suc n) (x ∷ xs) = ap (λ ys. x ∷ ys) (take-drop n xs)

  length-take : (n : ℕ) (xs : List A) → length (take n xs) ≤ n
  length-take zero xs = omega arith
  length-take (suc n) [] = omega arith
  length-take (suc n) (x ∷ xs) = omega (arith, length-take n xs)

  length-drop : (n : ℕ) (xs : List A) → length (drop n xs) ≤ length xs
  length-drop zero xs = omega arith
  length-drop (suc n) [] = omega arith
  length-drop (suc n) (x ∷ xs) = omega (arith, length-drop n xs)

  flatten-chunks_of : (fuel : ℕ) (xs : List A) → length xs ≤ fuel → flatten (chunks_of fuel xs) ≡ xs
  unfolding chunks_of
  flatten-chunks_of zero [] h = refl
  flatten-chunks_of zero (x ∷ xs) h = ground arith
  flatten-chunks_of (suc fuel) [] h = refl
  flatten-chunks_of (suc fuel) (x ∷ xs) h =
      ap (λ ys. take 10 (x ∷ xs) ++ ys)
        (flatten-chunks_of fuel (drop 10 (x ∷ xs)) (omega (arith, length-drop 9 xs)))
      ∙ take-drop 10 (x ∷ xs)

  -- A chunk has at least one entry and at most ten.
  abbrev pub FitsLine : List A → Type 0
  FitsLine xs = (0 < length xs) × (length xs ≤ 10)

  chunks_of-FitsLine : (fuel : ℕ) (xs : List A) → All FitsLine (chunks_of fuel xs)
  unfolding chunks_of
  chunks_of-FitsLine zero xs = tt
  chunks_of-FitsLine (suc fuel) [] = tt
  chunks_of-FitsLine (suc fuel) (x ∷ xs) =
      ((omega arith, omega (arith, length-take 9 xs)), chunks_of-FitsLine fuel (drop 10 (x ∷ xs)))

  -- The chunks of the list of names, one after another, are the list; each has at least one entry and
  -- at most ten.
  pub flatten-chunks : (xs : List A) → (flatten (chunks xs) ≡ xs) × All FitsLine (chunks xs)
  unfolding chunks
  flatten-chunks xs =
      (flatten-chunks_of (length xs) xs (omega arith), chunks_of-FitsLine (length xs) xs)
