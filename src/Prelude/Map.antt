-- ===== src/Prelude/Map.antt =====
-- std::map with numbers for keys: an association list in ascending key order.
-- Peer ids, round and block indices and hashes are numbers here; iteration runs along the list.
use bcp_concept_prototype.Prelude.{
  ℕ, suc, ◌+◌, ◌≤◌, ◌<◌, ◌≡◌, refl, Bool, true, false, Option, none, some, List, [], ◌∷◌, arith,
  Bool-cases, inl, inr, ltb, ◌==◌, Bool-cases, inl, inr, if◌then◌else◌, length, Bool-cases, inl,
  inr,
}

abbrev pub Map {ℓ} : Type ℓ → Type ℓ
Map V = List (ℕ × V)

abbrev pub is_some {ℓ} : {A : Type ℓ} → Option A → Bool
is_some none = false
is_some (some a) = true

module _ {ℓ} {V : Type ℓ} where
  unfoldable pub lookup : ℕ → Map V → Option V
  lookup k [] = none
  lookup k ((j, v) ∷ m) = if j == k then some v else lookup k m

  -- m[k] = v
  unfoldable pub put : ℕ → V → Map V → Map V
  put k v [] = (k, v) ∷ []
  put k v ((j, w) ∷ m) =
      if j == k then (j, v) ∷ m else (if ltb k j then (k, v) ∷ (j, w) ∷ m else (j, w) ∷ put k v m)

  -- m.count(k) > 0
  abbrev pub contains : ℕ → Map V → Bool
  contains k m = is_some (lookup k m)

  -- Every key lies above `n`, and the keys ascend.
  abbrev pub Above : ℕ → Map V → Type 0
  Above n [] = Unit {0}
  Above n ((j, v) ∷ m) = (n < j) × Above j m

  abbrev pub IsSorted : Map V → Type 0
  IsSorted [] = Unit {0}
  IsSorted ((j, v) ∷ m) = Above j m

  pub lookup-put :
      (j k : ℕ) (v : V) (m : Map V) → lookup j (put k v m) ≡ (if k == j then some v else lookup j m)
  unfolding lookup put
  lookup-put j k v [] = refl
  lookup-put j k v ((i, w) ∷ m) = ground (arith, lookup-put j k v m)

  put-Above : (n k : ℕ) (v : V) (m : Map V) → n < k → Above n m → Above n (put k v m)
  unfolding put
  put-Above n k v [] h a = (h, tt)
  put-Above n k v ((j, w) ∷ m) h a = ground (arith, put-Above j k v m)

  pub put-IsSorted : (k : ℕ) (v : V) (m : Map V) → IsSorted m → IsSorted (put k v m)
  unfolding put
  put-IsSorted k v [] s = tt
  put-IsSorted k v ((j, w) ∷ m) s = ground (arith, put-Above j k v m)

  -- A new key makes one more entry.
  pub length-put :
      (k : ℕ) (v : V) (m : Map V) → lookup k m ≡ none → length (put k v m) ≡ suc (length m)
  unfolding lookup put
  length-put k v [] h = refl
  length-put k v ((j, w) ∷ m) h = ground (arith, length-put k v m)

  pub lookup-Above : (n k : ℕ) (m : Map V) → Above n m → k ≤ n → lookup k m ≡ none
  unfolding lookup
  lookup-Above n k [] a h = refl
  lookup-Above n k ((j, v) ∷ m) a h = ground (arith, lookup-Above j k m)

  -- How many entries pass a test.
  unfoldable pub count : (V → Bool) → Map V → ℕ
  count p [] = 0
  count p ((j, v) ∷ m) = (if p v then 1 else 0) + count p m

  pub count-le : (p : V → Bool) (m : Map V) → count p m ≤ length m
  unfolding count
  count-le p [] = omega arith
  count-le p ((j, v) ∷ m) = ground (arith, count-le p m)

  -- A new entry is counted if it passes.
  pub count-put :
      (p : V → Bool) (k : ℕ) (v : V) (m : Map V)
      → lookup k m ≡ none
      → count p (put k v m) ≡ count p m + (if p v then 1 else 0)
  unfolding count lookup put
  count-put p k v [] h = ground arith
  count-put p k v ((j, w) ∷ m) h = ground (arith, count-put p k v m)

  -- Two tests that no value passes together are met by disjoint sets of entries.
  pub count-disjoint :
      (p q : V → Bool) (m : Map V)
      → ((v : V) → p v ≡ true → q v ≡ false)
      → count p m + count q m ≤ length m
  unfolding count
  count-disjoint p q [] d = omega arith
  count-disjoint p q ((j, v) ∷ m) d = ground (arith, count-disjoint p q m d, d v)

  -- m.insert( make_pair( k, v ) ): an entry that stands there is kept
  unfoldable pub insert : ℕ → V → Map V → Map V
  insert k v m = if contains k m then m else put k v m

  pub lookup-insert :
      (j k : ℕ) (v : V) (m : Map V)
      → lookup j (insert k v m)
        ≡ (if k == j then elim (lookup k m) [ none ↦ some v | some w ↦ some w ] else lookup j m)
  unfolding insert
  lookup-insert j k v m = elim (Bool-cases (k == j)) [
    | inl same ↦ rw (same) (let e : k ≡ j = ground arith in ground (arith, lookup-put j k v m))
    | inr other ↦ ground (arith, lookup-put j k v m)
  ]

  -- Every key lies below `n`.
  abbrev pub Below : ℕ → Map V → Type 0
  Below n [] = Unit {0}
  Below n ((j, v) ∷ m) = (j < n) × Below n m

  pub put-Below : (n k : ℕ) (v : V) (m : Map V) → k < n → Below n m → Below n (put k v m)
  unfolding put
  put-Below n k v [] h b = (h, tt)
  put-Below n k v ((j, w) ∷ m) h b = ground (arith, put-Below n k v m)

  length-Above : (j n : ℕ) (m : Map V) → j < n → Above j m → Below n m → length m + suc j ≤ n
  length-Above j n [] h a b = omega arith
  length-Above j n ((i, v) ∷ m) h a b = omega (arith, length-Above i n m b.0 a.1 b.1)

  -- A map with keys below `n` has at most `n` entries.
  pub length-Below : (n : ℕ) (m : Map V) → IsSorted m → Below n m → length m ≤ n
  length-Below n [] s b = omega arith
  length-Below n ((i, v) ∷ m) s b = omega (arith, length-Above i n m b.0 s b.1)
