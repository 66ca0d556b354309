-- ===== src/Prelude/Total.antt =====
-- The sum of the numbers that a map holds: the money in a map of balances.
use bcp_concept_prototype.Prelude.{ℕ, ◌+◌, ◌≤◌, ◌≡◌, none, some, [], ◌∷◌, arith}
use bcp_concept_prototype.Prelude.Map.{Map, lookup, put, Above, IsSorted, lookup-Above}

unfoldable pub total : Map ℕ → ℕ
total [] = 0
total ((k, v) ∷ m) = v + total m

pub total-put_new : (k v : ℕ) (m : Map ℕ) → lookup k m ≡ none → total (put k v m) ≡ total m + v
unfolding total lookup put
total-put_new k v [] h = omega arith
total-put_new k v ((j, w) ∷ m) h = ground (arith, total-put_new k v m)

total-put-Above :
    (n k v w : ℕ) (m : Map ℕ)
    → Above n m
    → lookup k m ≡ some w
    → total (put k v m) + w ≡ total m + v
unfolding total lookup put
total-put-Above n k v w [] s h = cc
total-put-Above n k v w ((j, u) ∷ m) s h =
    ground (arith, total-put-Above j k v w m s.1, lookup-Above j k m s.1)

-- Writing over an entry changes the sum by the difference.
pub total-put_old :
    (k v w : ℕ) (m : Map ℕ) → IsSorted m → lookup k m ≡ some w → total (put k v m) + w ≡ total m + v
unfolding total lookup put
total-put_old k v w [] s h = cc
total-put_old k v w ((j, u) ∷ m) s h =
    ground (arith, total-put-Above j k v w m s, lookup-Above j k m s)

pub lookup-le-total : (k w : ℕ) (m : Map ℕ) → lookup k m ≡ some w → w ≤ total m
unfolding total lookup
lookup-le-total k w [] h = cc
lookup-le-total k w ((j, u) ∷ m) h = ground (arith, lookup-le-total k w m)
