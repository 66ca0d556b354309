-- ===== src/Bcp/Select.antt =====
-- bcp_server.cpp: the user-signed headers of the proof of participation and the headers that peers
-- propose, and the choice of the lowest hash among either.
use bcp_concept_prototype.Prelude.{
  ℕ, ◌≤◌, ◌<◌, ◌≡◌, refl, Bool, true, false, Option, none, some, [], ◌∷◌, arith, ltb, if◌then◌else◌,
  Bool-cases, ◌⊎◌, inl, inr,
}
use bcp_concept_prototype.Prelude.Map.{Map, lookup, put, contains, IsSorted, Above, lookup-Above}
use bcp_concept_prototype.Core.{Core}
use bcp_concept_prototype.Bcp.{BcpServer}

Above-le {ℓ} : {V : Type ℓ} (j i : ℕ) (m : Map V) → j ≤ i → Above i m → Above j m
Above-le j i [] h a = tt
Above-le j i ((k, v) ∷ m) h a = (omega arith, a.1)

module _ ⦃c : Core⦄ where
  open c use {Header, hash_string}

  -- The second header of an address, or of a peer, is refused.
  unfoldable pub append_user_block_header_for : ℕ → Header → BcpServer → BcpServer × Bool
  append_user_block_header_for address header s =
      if contains address s.user_block_headers
      then (s, false)
      else (record s { user_block_headers = put address header s.user_block_headers }, true)

  unfoldable pub append_proposed_block_header_for : ℕ → Header → BcpServer → BcpServer × Bool
  append_proposed_block_header_for peer header s =
      if contains peer s.proposed_block_headers
      then (s, false)
      else (record s { proposed_block_headers = put peer header s.proposed_block_headers }, true)

  -- The body of the loop over a map of headers: the first is taken, then each with a lower hash.
  unfoldable pub lower : Option (ℕ × Header) → ℕ → Header → Option (ℕ × Header)
  lower none k header = some (k, header)
  lower (some (j, best)) k header =
      if ltb (hash_string header) (hash_string best) then some (k, header) else some (j, best)

  unfoldable pub lowest : Option (ℕ × Header) → Map Header → Option (ℕ × Header)
  lowest best [] = best
  lowest best ((k, header) ∷ m) = lowest (lower best k header) m

  -- The out-parameters and the result in one: none where it returns false.
  unfoldable pub select_user_block_header : BcpServer → Option (ℕ × Header)
  select_user_block_header s = lowest none s.user_block_headers

  unfoldable pub select_proposed_block_header : BcpServer → Option Header
  select_proposed_block_header s = elim (lowest none s.proposed_block_headers) [
    | none ↦ none
    | some (peer, header) ↦ some header
  ]

  -- `h` under `k` comes before `w` under `j`: by a lower hash, or by the key at equal hashes.
  abbrev pub Before : ℕ → Header → ℕ → Header → Type 0
  Before k h j w = (hash_string h < hash_string w) ⊎ ((hash_string h ≡ hash_string w) × (k ≤ j))

  lowest-best :
      (j k : ℕ) (b h : Header) (m : Map Header)
      → Above j m
      → lowest (some (j, b)) m ≡ some (k, h)
      → Before k h j b
  unfolding lowest lower
  lowest-best j k b h [] a e = ground arith
  lowest-best j k b h ((i, w) ∷ m) a e = elim (Bool-cases (ltb (hash_string w) (hash_string b))) [
    | inl less ↦ ground (arith, lowest-best i k w h m a.1)
    | inr more ↦ ground (arith, lowest-best j k b h m (Above-le j i m (omega arith) a.1))
  ]

  lowest-entry :
      (j k i : ℕ) (b h w : Header) (m : Map Header)
      → Above j m
      → lowest (some (j, b)) m ≡ some (k, h)
      → lookup i m ≡ some w
      → Before k h i w
  unfolding lowest lower lookup
  lowest-entry j k i b h w [] a e l = cc
  lowest-entry j k i b h w ((o, x) ∷ m) a e l =
      elim (Bool-cases (ltb (hash_string x) (hash_string b))) [
        | inl less ↦ ground (arith, lowest-best o k x h m a.1, lowest-entry o k i x h w m a.1)
        | inr more ↦ ground (
          arith,
          lowest-best j k b h m (Above-le j o m (omega arith) a.1),
          lowest-entry j k i b h w m (Above-le j o m (omega arith) a.1),
        )
      ]

  lowest-from :
      (j k : ℕ) (b h : Header) (m : Map Header)
      → Above j m
      → lowest (some (j, b)) m ≡ some (k, h)
      → ((k ≡ j) × (h ≡ b)) ⊎ (lookup k m ≡ some h)
  unfolding lowest lower lookup
  lowest-from j k b h [] a e = inl (ground arith, ground arith)
  lowest-from j k b h ((o, x) ∷ m) a e = elim (Bool-cases (ltb (hash_string x) (hash_string b))) [
    | inl less ↦ ground (arith, lowest-from o k x h m a.1, lookup-Above o k m a.1)
    | inr more ↦
        ground
          (arith, lowest-from j k b h m (Above-le j o m (omega arith) a.1), lookup-Above o k m a.1)
  ]

  lowest-some :
      (j : ℕ) (b : Header) (m : Map Header)
      → (k : ℕ) × (h : Header) × (lowest (some (j, b)) m ≡ some (k, h))
  unfolding lowest lower
  lowest-some j b [] = (j, b, refl)
  lowest-some j b ((o, x) ∷ m) = elim (Bool-cases (ltb (hash_string x) (hash_string b))) [
    | inl less ↦ rw less (lowest-some o x m)
    | inr more ↦ rw more (lowest-some j b m)
  ]

  -- What the choice from a map returns: an entry that comes before every entry.
  pub record IsLowest (m : Map Header) (k : ℕ) (h : Header) : Type 0 where
    pub entry : lookup k m ≡ some h
    pub first : (j : ℕ) (w : Header) → lookup j m ≡ some w → Before k h j w

  lowest-IsLowest :
      (m : Map Header) (k : ℕ) (h : Header)
      → IsSorted m
      → lowest none m ≡ some (k, h)
      → IsLowest m k h
  unfolding lowest lower
  lowest-IsLowest [] k h s e = cc
  lowest-IsLowest ((o, x) ∷ m) k h s e = record {
    entry = unfold lookup in ground (arith, lowest-from o k x h m s e, lookup-Above o k m s);
    first = λ j w l. head_or_tail j w l;
  }
    where
      head_or_tail : (j : ℕ) (w : Header) → lookup j ((o, x) ∷ m) ≡ some w → Before k h j w
      head_or_tail j w l =
          unfold lookup in ground (arith, lowest-best o k x h m s e, lowest-entry o k j x h w m s e)

  lowest_total :
      (m : Map Header)
      → IsSorted m
      → ((lowest none m ≡ none) × (m ≡ []))
        ⊎ ((k : ℕ) × (h : Header) × (lowest none m ≡ some (k, h)) × IsLowest m k h)
  lowest_total [] s = inl (unfold lowest in refl, refl)
  lowest_total ((o, x) ∷ m) s =
      let (k, h, e) = lowest-some o x m in
      let e' : lowest none ((o, x) ∷ m) ≡ some (k, h) = unfold lowest lower in e in
      inr (k, h, e', lowest-IsLowest ((o, x) ∷ m) k h s e')

  -- With the user headers in address order, the user header chosen for the proposal is that of an
  -- entry whose hash string is lowest of all, at the lowest address among equals; there is none
  -- exactly if no user has signed.
  pub select_user_block_header-IsLowest :
      (s : BcpServer)
      → IsSorted s.user_block_headers
      → ((select_user_block_header s ≡ none) × (s.user_block_headers ≡ []))
        ⊎ ((k : ℕ) × (h : Header) × (select_user_block_header s ≡ some (k, h))
            × IsLowest s.user_block_headers k h)
  unfolding select_user_block_header
  select_user_block_header-IsLowest s sorted = lowest_total s.user_block_headers sorted

  -- With the proposals in the order of the peers, the header that a server votes for is the
  -- proposal whose hash string is lowest of all, of the lowest peer id among equals; there is none
  -- exactly if nothing is proposed.
  pub select_proposed_block_header-IsLowest :
      (s : BcpServer)
      → IsSorted s.proposed_block_headers
      → ((select_proposed_block_header s ≡ none) × (s.proposed_block_headers ≡ []))
        ⊎ ((k : ℕ) × (h : Header) × (select_proposed_block_header s ≡ some h)
            × IsLowest s.proposed_block_headers k h)
  unfolding select_proposed_block_header
  select_proposed_block_header-IsLowest s sorted =
      elim (lowest_total s.proposed_block_headers sorted) [
        | inl (e, empty) ↦ inl (rw (e, select_proposed_block_header), empty)
        | inr (k, h, e, least) ↦ inr (k, h, rw (e, select_proposed_block_header), least)
      ]
