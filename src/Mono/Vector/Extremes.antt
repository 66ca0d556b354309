-- ===== src/Mono/Vector/Extremes.antt =====
-- What low_value() and max_value() of _vector.cpp return, for an order of the element type.
use mathlib.Core.Path.{subst}
use bcp_concept_prototype.Prelude.{
  ◌≡◌, refl, sym, Bool, true, false, none, some, List, [], ◌∷◌, Bool-cases, ◌⊎◌, inl, inr,
}
use bcp_concept_prototype.Mono.Vector.{pick, max_value, low_value}

-- The value stands in the list.
abbrev pub Occurs : {T : Type 0} → T → List T → Type 0
Occurs v [] = ⊥
Occurs v (w ∷ vs) = (v ≡ w) ⊎ Occurs v vs

-- No element of the list is better.
abbrev pub NoBetter {ℓ} : {T : Type ℓ} → (T → T → Bool) → T → List T → Type 0
NoBetter better v [] = Unit {0}
NoBetter better v (w ∷ vs) = (better w v ≡ false) × NoBetter better v vs

module _ {T : Type 0} (better : T → T → Bool) (irreflexive : (a : T) → better a a ≡ false)
    (negatively_transitive : (a b d : T)
      → better a b ≡ false
      → better b d ≡ false
      → better a d ≡ false)
    (asymmetric : (a b : T) → better a b ≡ true → better b a ≡ false) where
  pick-start : (b : T) (vs : List T) → better b (pick better b vs) ≡ false
  unfolding pick
  pick-start b [] = irreflexive b
  pick-start b (v ∷ vs) = elim (Bool-cases (better v b)) [
    | inl up ↦ rw up (negatively_transitive b v _ (asymmetric v b up) (pick-start v vs))
    | inr down ↦ rw down (pick-start b vs)
  ]

  pick-up : (b v : T) (vs : List T) → better v b ≡ true → pick better b (v ∷ vs) ≡ pick better v vs
  unfolding pick
  pick-up b v vs e = rw e refl

  pick-down :
      (b v : T) (vs : List T) → better v b ≡ false → pick better b (v ∷ vs) ≡ pick better b vs
  unfolding pick
  pick-down b v vs e = rw e refl

  pick-NoBetter : (b : T) (vs : List T) → NoBetter better (pick better b vs) vs
  pick-NoBetter b [] = tt
  pick-NoBetter b (v ∷ vs) = elim (Bool-cases (better v b)) [
    | inl up ↦
        subst (λ x. NoBetter better x (v ∷ vs)) (sym (pick-up b v vs up))
          (pick-start v vs, pick-NoBetter v vs)
    | inr down ↦
        subst (λ x. NoBetter better x (v ∷ vs)) (sym (pick-down b v vs down))
          (negatively_transitive v b _ down (pick-start b vs), pick-NoBetter b vs)
  ]

  pick-Occurs : (b : T) (vs : List T) → Occurs (pick better b vs) (b ∷ vs)
  unfolding pick
  pick-Occurs b [] = inl refl
  pick-Occurs b (v ∷ vs) = elim (Bool-cases (better v b)) [
    | inl up ↦ subst (λ x. Occurs x (b ∷ v ∷ vs)) (sym (pick-up b v vs up)) (inr (pick-Occurs v vs))
    | inr down ↦
        subst (λ x. Occurs x (b ∷ v ∷ vs)) (sym (pick-down b v vs down))
          (elim (pick-Occurs b vs) [ inl e ↦ inl e | inr o ↦ inr (inr o) ])
  ]

  -- For an operator< that is irreflexive, asymmetric and negatively transitive, the value that
  -- low_value() returns stands in the list and no value of the list is lower; there is none exactly
  -- for the empty list.
  pub low_value-NoBetter :
      (values : List T)
      → ((low_value better values ≡ none) × (values ≡ []))
        ⊎ ((v : T) × (low_value better values ≡ some v)
            × Occurs v values
            × NoBetter better v values)
  unfolding low_value
  low_value-NoBetter [] = inl (refl, refl)
  low_value-NoBetter (v ∷ vs) =
      inr (pick better v vs, refl, pick-Occurs v vs, (pick-start v vs, pick-NoBetter v vs))

  -- The same of max_value(), with greater for lower.
  pub max_value-NoBetter :
      (values : List T)
      → ((max_value better values ≡ none) × (values ≡ []))
        ⊎ ((v : T) × (max_value better values ≡ some v)
            × Occurs v values
            × NoBetter better v values)
  unfolding max_value
  max_value-NoBetter [] = inl (refl, refl)
  max_value-NoBetter (v ∷ vs) =
      inr (pick better v vs, refl, pick-Occurs v vs, (pick-start v vs, pick-NoBetter v vs))
