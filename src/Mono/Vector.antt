-- ===== src/Mono/Vector.antt =====
-- tests/dev/bcp_mono/_vector.cpp: a list of received values, with the lowest and the most frequent.
-- The operators of the element type are arguments.
pub mod Majority
pub mod Extremes
use bcp_concept_prototype.Prelude.{
  ℕ, ◌+◌, Bool, Option, none, some, List, [], ◌∷◌, ◌++◌, ltb, if◌then◌else◌,
}

module _ {ℓ} {T : Type ℓ} where
  unfoldable pub add : T → List T → List T
  add value values = values ++ (value ∷ [])

  -- The loop of max_value() and of low_value(): a value that is better takes the place.
  unfoldable pub pick : (T → T → Bool) → T → List T → T
  pick better best [] = best
  pick better best (v ∷ vs) = pick better (if better v best then v else best) vs

  -- none where it returns false; the argument is operator> or operator<
  unfoldable pub max_value : (T → T → Bool) → List T → Option T
  max_value gt [] = none
  max_value gt (v ∷ vs) = some (pick gt v vs)

  unfoldable pub low_value : (T → T → Bool) → List T → Option T
  low_value lt [] = none
  low_value lt (v ∷ vs) = some (pick lt v vs)

  -- The argument is operator==.
  unfoldable pub count : (T → T → Bool) → T → List T → ℕ
  count eq value [] = 0
  count eq value (v ∷ vs) = (if eq v value then 1 else 0) + count eq value vs

  -- The loop over the rest of the data.
  unfoldable pub exceeding : (T → T → Bool) → ℕ → List T → List T → Option T
  exceeding eq cnt values [] = none
  exceeding eq cnt values (v ∷ vs) =
      let rest = exceeding eq cnt values vs in if ltb cnt (count eq v values) then some v else rest

  unfoldable pub get_value_if_count_exceeds : (T → T → Bool) → ℕ → List T → Option T
  get_value_if_count_exceeds eq cnt values = exceeding eq cnt values values
