-- ===== src/Mono/Vector/Majority.antt =====
-- What get_value_if_count_exceeds() of _vector.cpp finds, for an operator== that is equality.
use bcp_concept_prototype.Prelude.{
  ℕ, ◌+◌, ◌≤◌, ◌<◌, ◌≡◌, sym, ap, ◌∙◌, Bool, true, false, some, List, [], ◌∷◌, arith, ltb,
  Bool-cases, inl, inr, length, ◌↔◌,
}
use bcp_concept_prototype.Mono.Vector.{count, exceeding, get_value_if_count_exceeds}

module _ {ℓ} {T : Type ℓ} (eq : T → T → Bool) where
  exceeding_sound :
      (n : ℕ) (values vs : List T) (v : T)
      → exceeding eq n values vs ≡ some v
      → n < count eq v values
  unfolding exceeding
  exceeding_sound n values [] v e = cc
  exceeding_sound n values (w ∷ vs) v e = ground (arith, exceeding_sound n values vs v)

  pub get_value_if_count_exceeds_sound :
      (n : ℕ) (values : List T) (v : T)
      → get_value_if_count_exceeds eq n values ≡ some v
      → n < count eq v values
  unfolding get_value_if_count_exceeds
  get_value_if_count_exceeds_sound n values v e = exceeding_sound n values values v e

module _ {ℓ} {T : Type ℓ} (eq : T → T → Bool) (is_eq : (a b : T) → (eq a b ≡ true) ↔ (a ≡ b)) where
  exceeding_complete :
      (n : ℕ) (values vs : List T) (w : T)
      → n < count eq w values
      → 0 < count eq w vs
      → (v : T) × (exceeding eq n values vs ≡ some v)
  unfolding exceeding count
  exceeding_complete n values [] w more here = absurd (omega arith)
  exceeding_complete n values (u ∷ vs) w more here = elim (Bool-cases (ltb n (count eq u values))) [
    | inl found ↦ (u, ground arith)
    | inr missed ↦ elim (Bool-cases (eq u w)) [
      | inl same ↦ absurd (clash ((is_eq u w).0 same) missed)
      | inr other ↦
          let (v, e) = exceeding_complete n values vs w more (ground arith) in (v, ground arith)
    ]
  ]
    where
      clash : u ≡ w → ltb n (count eq u values) ≡ false → ⊥
      clash p m = ground (arith, ap (λ x. count eq x values) p)

  -- Different values share no place of the list.
  count-disjoint :
      (a b : T) (vs : List T) → eq a b ≡ false → count eq a vs + count eq b vs ≤ length vs
  unfolding count
  count-disjoint a b [] d = omega arith
  count-disjoint a b (v ∷ vs) d = elim (Bool-cases (eq v a)) [
    | inl for_a ↦ elim (Bool-cases (eq v b)) [
      | inl for_b ↦
          let same : eq a b ≡ true =
            (is_eq a b).1 (sym ((is_eq v a).0 for_a) ∙ (is_eq v b).0 for_b) in
          cc
      | inr against ↦ ground (arith, count-disjoint a b vs d)
    ]
    | inr against ↦ ground (arith, count-disjoint a b vs d)
  ]

  -- For an operator== that is equality, if the list is not longer than twice the bound and one, a
  -- value is returned exactly if it occurs more often than the bound.
  pub get_value_if_count_exceeds_iff :
      (n : ℕ) (values : List T) (v : T)
      → length values ≤ n + n + 1
      → (get_value_if_count_exceeds eq n values ≡ some v) ↔ (n < count eq v values)
  unfolding get_value_if_count_exceeds
  get_value_if_count_exceeds_iff n values v short = (exceeding_sound eq n values values v, found)
    where
      found : n < count eq v values → exceeding eq n values values ≡ some v
      found more =
          let (w, e) = exceeding_complete n values values v more (omega arith) in
          elim (Bool-cases (eq w v)) [
            | inl same ↦ e ∙ ap some ((is_eq w v).0 same)
            | inr other ↦ absurd (
                omega
                  (arith, exceeding_sound eq n values values w e, count-disjoint w v values other))
          ]
