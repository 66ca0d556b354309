-- ===== src/Message/Text.antt =====
-- bryllite-core/message.inl: what the address of a balance message reads back.
use bcp_concept_prototype.Prelude.{
  ℕ, zero, suc, ◌≤◌, ◌<◌, ◌≡◌, refl, ◌∙◌, inl, inr, none, some, List, [], ◌∷◌, arith, length, ltb,
  leb, if◌then◌else◌, Bool-cases, tests,
}
use bcp_concept_prototype.Message.{memset_zero, memcpy, copy_string, c_string}
use bcp_concept_prototype.Message.Carried.{Carried}
use bcp_concept_prototype.Message.Common.{
  new_balance_req, req_address, new_balance_ack, ack_address, ack_balance,
}

-- No character is zero.
pub data IsText : List ℕ → Type 0 where
  empty : IsText []
  char : {c : ℕ} {cs : List ℕ} → 0 < c → IsText cs → IsText (c ∷ cs)

c_string-zeros : (n : ℕ) → 0 < n → c_string (memset_zero n) ≡ some []
unfolding c_string
c_string-zeros zero p = absurd (omega arith)
c_string-zeros (suc n) p = refl

c_string-cons :
    (c : ℕ) (cs : List ℕ)
    → 0 < c
    → c_string (c ∷ cs) ≡ elim (c_string cs) [ none ↦ none | some s ↦ some (c ∷ s) ]
unfolding c_string
c_string-cons c cs p = ground arith

-- A text that is shorter than the array comes back.
c_string-short :
    (n : ℕ) (s : List ℕ)
    → IsText s
    → length s < n
    → c_string (memcpy (memset_zero n) s (length s)) ≡ some s
unfolding memcpy
c_string-short n [] t l = c_string-zeros n (omega arith)
c_string-short zero (c ∷ cs) t l = absurd (omega arith)
c_string-short (suc n) (c ∷ cs) (char p t) l =
    rw
      (
        c_string-cons c (memcpy (memset_zero n) cs (length cs)) p,
        c_string-short n cs t (omega arith),
      )
      refl

-- A text that fills the array leaves no terminator.
c_string-long :
    (n : ℕ) (s : List ℕ) → IsText s → n ≤ length s → c_string (memcpy (memset_zero n) s n) ≡ none
unfolding memcpy c_string
c_string-long zero s t l = refl
c_string-long (suc n) [] t l = absurd (omega arith)
c_string-long (suc n) (c ∷ cs) (char p t) l =
    rw (c_string-cons c (memcpy (memset_zero n) cs n) p, c_string-long n cs t (omega arith)) refl

pub copy_string-c_string :
    (n : ℕ) (s : List ℕ)
    → IsText s
    → c_string (copy_string n s (length s)) ≡ (if ltb (length s) n then some s else none)
unfolding copy_string
copy_string-c_string n s t = elim (Bool-cases (ltb (length s) n)) [
  | inl e ↦ rw e (c_string-short n s t (omega (tests, e)))
  | inr e ↦ rw e (c_string-long n s t (ground (arith, e)))
]

-- For a text without a zero character, the address that a balance request or a balance answer
-- was built with reads back whole where it has at most 35 characters; a longer one fills the
-- array, and reading it back runs past the end of the array. The balance is kept in both cases.
pub address-new_balance :
    (c : Carried) (s : List ℕ) (balance : ℕ)
    → IsText s
    → let kept = (if leb (length s) 35 then some s else none) in
      (req_address c (new_balance_req c s) ≡ kept)
      × (ack_address c (new_balance_ack c s balance) ≡ kept)
      × (ack_balance c (new_balance_ack c s balance) ≡ balance)
unfolding new_balance_req req_address new_balance_ack ack_address ack_balance
address-new_balance c s balance t = let e = copy_string-c_string 36 s t ∙ room s in (e, e, refl)
  where
    room :
        (s : List ℕ)
        → (if ltb (length s) 36 then some s else none)
          ≡ (if leb (length s) 35 then some s else none)
    room s = ground arith
