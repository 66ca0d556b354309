-- ===== src/Bcp/Tally.antt =====
-- The counting that new-round messages and votes share in bcp_server.cpp: a box with one entry for
-- each peer, a map from a value to its count, and the loop that looks for a qualified count.
use bcp_concept_prototype.Prelude.{
  ℕ, ◌+◌, ◌≤◌, ◌<◌, ◌≡◌, refl, Bool, true, Option, none, some, [], ◌∷◌, arith, ◌==◌, if◌then◌else◌,
  length, Bool-cases, inl, inr,
}
use bcp_concept_prototype.Prelude.Map.{
  Map, lookup, put, Above, IsSorted, lookup-put, put-IsSorted, count, count-put, count-disjoint,
}

-- m[k], where a missing count reads 0
unfoldable pub votes : ℕ → Map ℕ → ℕ
votes k m = elim (lookup k m) [ none ↦ 0 | some n ↦ n ]

-- m.count(k) == 0 ? m[k] = 1 : m[k]++
-- A peer id counts once, so the count stays below the number of ids and does not wrap.
unfoldable pub add_vote : ℕ → Map ℕ → Map ℕ
add_vote k m = elim (lookup k m) [ none ↦ put k 1 m | some n ↦ put k (n + 1) m ]

-- for( auto& pair : m ): the first key whose entry passes the test
unfoldable pub first_passing : (ℕ → ℕ → Bool) → Map ℕ → Option ℕ
first_passing test [] = none
first_passing test ((k, n) ∷ m) = if test k n then some k else first_passing test m

pub votes-add_vote :
    (j k : ℕ) (m : Map ℕ) → votes j (add_vote k m) ≡ votes j m + (if k == j then 1 else 0)
unfolding votes add_vote
votes-add_vote j k m = go (lookup k m) refl
  where
    go :
        (o : Option ℕ)
        → lookup k m ≡ o
        → votes j (elim o [ none ↦ put k 1 m | some n ↦ put k (n + 1) m ])
          ≡ votes j m + (if k == j then 1 else 0)
    go none e = ground (arith, lookup-put j k 1 m)
    go (some n) e = ground (arith, lookup-put j k (n + 1) m)

pub add_vote-IsSorted : (k : ℕ) (m : Map ℕ) → IsSorted m → IsSorted (add_vote k m)
unfolding add_vote
add_vote-IsSorted k m s = grind (arith, put-IsSorted k 1 m s, λ (n : ℕ). put-IsSorted k (n + 1) m s)

first_passing-Above :
    (test : ℕ → ℕ → Bool) (m : Map ℕ) (j k : ℕ) → Above j m → first_passing test m ≡ some k → j < k
unfolding first_passing
first_passing-Above test [] j k a h = cc
first_passing-Above test ((i, n) ∷ m) j k a h = ground (arith, first_passing-Above test m i k)

Above-IsSorted : (j : ℕ) (m : Map ℕ) → Above j m → IsSorted m
Above-IsSorted j [] a = tt
Above-IsSorted j ((i, n) ∷ m) a = a.1

-- A key that the loop returns passes the test with its count.
pub first_passing_sound :
    (test : ℕ → ℕ → Bool) (m : Map ℕ) (k : ℕ)
    → IsSorted m
    → first_passing test m ≡ some k
    → test k (votes k m) ≡ true
unfolding first_passing votes lookup
first_passing_sound test [] k s h = cc
first_passing_sound test ((j, n) ∷ m) k s h =
    ground
      (arith, first_passing_sound test m k (Above-IsSorted j m s), first_passing-Above test m j k s)

-- The loop misses no key that passes with a count of at least one.
pub first_passing_complete :
    (test : ℕ → ℕ → Bool) (m : Map ℕ) (k : ℕ)
    → 0 < votes k m
    → test k (votes k m) ≡ true
    → (j : ℕ) × (first_passing test m ≡ some j)
unfolding first_passing votes lookup
first_passing_complete test [] k p h = absurd (omega arith)
first_passing_complete test ((j, n) ∷ m) k p h = elim (Bool-cases (test j n)) [
  | inl yes' ↦ (j, rw yes')
  | inr no' ↦ rw no' (first_passing_complete test m k (ground arith) (ground arith))
]

module _ {ℓ} {V : Type ℓ} (key : V → ℕ) where
  -- The counts are those of the box.
  pub record IsTally (box : Map V) (counts : Map ℕ) : Type ℓ where
    pub sorted : IsSorted counts
    pub counted : (k : ℕ) → votes k counts ≡ count (λ v. key v == k) box

  pub IsTally-empty : IsTally [] []
  unfolding votes lookup count
  IsTally-empty = record { sorted = tt; counted = λ k. refl }

  -- A first vote of a peer keeps them so.
  pub IsTally-vote :
      (peer : ℕ) (v : V) (box : Map V) (counts : Map ℕ)
      → lookup peer box ≡ none
      → IsTally box counts
      → IsTally (put peer v box) (add_vote (key v) counts)
  IsTally-vote peer v box counts h t = record {
    sorted = add_vote-IsSorted (key v) counts t.sorted;
    counted = λ k. omega (
      arith,
      votes-add_vote k (key v) counts,
      count-put (λ w. key w == k) peer v box h,
      t.counted k,
    );
  }

  -- Two values cannot both be held by more than half of the peers.
  pub IsTally-majority :
      (box : Map V) (counts : Map ℕ) (n j k : ℕ)
      → IsTally box counts
      → length box ≤ n
      → n < votes j counts + votes j counts
      → n < votes k counts + votes k counts
      → j ≡ k
  IsTally-majority box counts n j k t h hj hk = elim (Bool-cases (j == k)) [
    | inl same ↦ ground arith
    | inr other ↦ absurd (
        omega (
          arith,
          t.counted j,
          t.counted k,
          count-disjoint (λ v. key v == j) (λ v. key v == k) box (λ v. ground arith),
        ))
  ]
