-- ===== src/Bcp/Agreement.antt =====
-- Two consensus servers of bcp_server.cpp agree: the majorities of two elections share a peer.
use bcp_concept_prototype.Prelude.{
  ℕ, zero, suc, ◌+◌, ◌≤◌, ◌<◌, ◌≡◌, refl, Bool, true, false, Option, none, some, [], ◌∷◌, arith,
  ◌==◌, if◌then◌else◌, Bool-cases, Option-cases, inl, inr,
}
use bcp_concept_prototype.Prelude.Map.{Map, lookup, count, IsSorted, Above, Below, lookup-Above}
use bcp_concept_prototype.Core.{Core}
use bcp_concept_prototype.Bcp.{BcpServer}
use bcp_concept_prototype.Bcp.Votes.{get_elected_block_header}
use bcp_concept_prototype.Bcp.Election.{elected_iff, supporters}
use bcp_concept_prototype.Bcp.Sound.{IsSound}

-- Whether the entry of a peer passes.
abbrev passes {ℓ} : {V : Type ℓ} → (V → Bool) → Option V → Bool
passes p none = false
passes p (some v) = p v

-- How many of the peers below `n` have an entry that passes.
peers_passing {ℓ} : {V : Type ℓ} → (V → Bool) → Map V → ℕ → ℕ
peers_passing p m zero = 0
peers_passing p m (suc n) = (if passes p (lookup n m) then 1 else 0) + peers_passing p m n

module _ {ℓ} {V : Type ℓ} (p : V → Bool) where
  peers_passing-cons_below :
      (j : ℕ) (v : V) (m : Map V) (n : ℕ)
      → n ≤ j
      → peers_passing p ((j, v) ∷ m) n ≡ peers_passing p m n
  unfolding peers_passing lookup
  peers_passing-cons_below j v m zero h = refl
  peers_passing-cons_below j v m (suc n) h =
      ground (arith, peers_passing-cons_below j v m n (omega arith))

  peers_passing-cons :
      (j : ℕ) (v : V) (m : Map V) (n : ℕ)
      → lookup j m ≡ none
      → j < n
      → peers_passing p ((j, v) ∷ m) n ≡ (if p v then 1 else 0) + peers_passing p m n
  unfolding peers_passing lookup
  peers_passing-cons j v m zero free h = absurd (omega arith)
  peers_passing-cons j v m (suc n) free h = elim (Bool-cases (j == n)) [
    | inl same ↦ let e : j ≡ n = ground arith in ground (arith, peers_passing-cons_below j v m n)
    | inr other ↦ ground (arith, peers_passing-cons j v m n free)
  ]

  peers_passing-empty : (n : ℕ) → peers_passing p [] n ≡ 0
  unfolding peers_passing lookup
  peers_passing-empty zero = refl
  peers_passing-empty (suc n) = omega (arith, peers_passing-empty n)

  -- In a map over the peers below `n`, these are all that pass.
  count-eq-peers_passing :
      (m : Map V) (n : ℕ) → IsSorted m → Below n m → count p m ≡ peers_passing p m n
  unfolding count
  count-eq-peers_passing [] n s b = omega (arith, peers_passing-empty n)
  count-eq-peers_passing ((j, v) ∷ m) n s b = ground (
    arith,
    peers_passing-cons j v m n (lookup-Above j j m s (omega arith)) b.0,
    count-eq-peers_passing m n (tail_sorted m s) b.1,
  )
    where
      tail_sorted : (r : Map V) → Above j r → IsSorted r
      tail_sorted [] a = tt
      tail_sorted ((i, w) ∷ r) a = a.1

one_more :
    (x y : Bool) (a b n : ℕ)
    → (x ≡ true → y ≡ false)
    → a + b ≤ n
    → ((if x then 1 else 0) + a) + ((if y then 1 else 0) + b) ≤ suc n
one_more true true a b n d h = absurd (ground (arith, d refl))
one_more true false a b n d h = omega arith
one_more false true a b n d h = omega arith
one_more false false a b n d h = omega arith

-- No peer passes for both, then not more than `n` pass for either.
peers_disjoint {ℓ κ} :
    {V : Type ℓ} {W : Type κ} (p : V → Bool) (q : W → Bool) (m : Map V) (r : Map W) (n : ℕ)
    → ((k : ℕ) → k < n → passes p (lookup k m) ≡ true → passes q (lookup k r) ≡ false)
    → peers_passing p m n + peers_passing q r n ≤ n
unfolding peers_passing
peers_disjoint p q m r zero d = omega arith
peers_disjoint p q m r (suc n) d =
    one_more _ _ _ _ n (d n (omega arith)) (peers_disjoint p q m r n (λ k lt. d k (omega arith)))

module _ ⦃c : Core⦄ where
  open c use {Header, header_hash}

  abbrev voted_for : ℕ → Header → Bool
  voted_for k h = header_hash h == k

  all_supporters :
      (n k : ℕ) (s : BcpServer)
      → IsSound n s
      → supporters k s ≡ peers_passing (voted_for k) s.vote_box n
  all_supporters n k s v = count-eq-peers_passing (voted_for k) s.vote_box n v.voters.0 v.voters.1

  -- Different hashes have no peer for both.
  rivals :
      (n j k : ℕ) (s t : BcpServer)
      → ((p : ℕ) (a b : Header)
          → p < n
          → lookup p s.vote_box ≡ some a
          → lookup p t.vote_box ≡ some b
          → header_hash a ≡ header_hash b)
      → ¬ j ≡ k
      → (p : ℕ) → p < n
      → passes (voted_for j) (lookup p s.vote_box) ≡ true
      → passes (voted_for k) (lookup p t.vote_box) ≡ false
  rivals n j k s t honest differ p h e = elim (Option-cases (lookup p s.vote_box)) [
    | inl none' ↦ absurd (ground arith)
    | inr (a, ea) ↦ elim (Option-cases (lookup p t.vote_box)) [
      | inl none' ↦ rw none' refl
      | inr (b, eb) ↦ ground (arith, honest p a b h ea eb)
    ]
  ]

  -- In two sound servers among the same `n` peers, if no peer has sent the two servers votes for
  -- headers with different hashes, then the headers that the two elect have the same hash.
  pub get_elected_block_header-agree :
      (n : ℕ) (s t : BcpServer) (a b : Header)
      → IsSound n s
      → IsSound n t
      → ((p : ℕ) (u w : Header)
          → p < n
          → lookup p s.vote_box ≡ some u
          → lookup p t.vote_box ≡ some w
          → header_hash u ≡ header_hash w)
      → (get_elected_block_header n s).1 ≡ some a
      → (get_elected_block_header n t).1 ≡ some b
      → header_hash a ≡ header_hash b
  get_elected_block_header-agree n s t a b vs vt honest ea eb =
      elim (Bool-cases (header_hash a == header_hash b)) [
        | inl same ↦ ground arith
        | inr other ↦
            let differ : ¬ header_hash a ≡ header_hash b = λ e. ground arith in
            let for_a =
              (elected_iff n (header_hash a) s vs.certified.election vs.certified.room).0
                (a, ea, refl) in
            let for_b =
              (elected_iff n (header_hash b) t vt.certified.election vt.certified.room).0
                (b, eb, refl) in
            absurd (
              omega (
                arith,
                for_a,
                for_b,
                all_supporters n (header_hash a) s vs,
                all_supporters n (header_hash b) t vt,
                peers_disjoint (voted_for (header_hash a)) (voted_for (header_hash b)) s.vote_box
                    t.vote_box n (rivals n (header_hash a) (header_hash b) s t honest differ),
              ))
      ]
