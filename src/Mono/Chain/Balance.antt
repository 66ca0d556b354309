-- ===== src/Mono/Chain/Balance.antt =====
-- What build_balance_for() of tests/dev/bcp_mono/block_chain.cpp does to the sum of all balances.
use bcp_concept_prototype.Prelude.{
  ℕ, ◌+◌, ◌-◌, ◌≤◌, ◌<◌, ◌≡◌, ◌≢◌, refl, ◌∙◌, true, false, not, ◌&&◌, none, some, List, [], ◌∷◌,
  arith, ◌==◌, leb, Option-cases, Bool-cases, inl, inr, ◌⊎◌,
}
use bcp_concept_prototype.Prelude.Map.{Map, lookup, put, IsSorted, put-IsSorted}
use bcp_concept_prototype.Prelude.Total.{total, total-put_new, total-put_old, lookup-le-total}
use bcp_concept_prototype.Core.{Core}
use bcp_concept_prototype.Mono.{MonoCore}
use bcp_concept_prototype.Ledger.{u64_mod, add64, sub64}
use bcp_concept_prototype.Ledger.Balance.{sub64_small, add64_small}
use bcp_concept_prototype.Mono.Chain.{pay, earn, apply_transaction, build_balance_for}

module _ ⦃c : Core⦄ ⦃k : MonoCore⦄ where
  open c use {Transaction, value, from, to}
  open k use {address_empty}

  pay_ends :
      (a v : ℕ) (m : Map ℕ)
      → (pay a v m ≡ none)
        ⊎ ((w : ℕ) × (lookup a m ≡ some w) × (v ≤ w) × (pay a v m ≡ some (put a (sub64 w v) m)))
  unfolding pay
  pay_ends a v m = elim (Option-cases (lookup a m)) [
    | inl e ↦ inl (rw (e, pay) refl)
    | inr (w, e) ↦ elim (Bool-cases (leb v w)) [
      | inl enough ↦ inr (w, e, ground arith, rw (e, enough, pay) refl)
      | inr short ↦ inl (rw (e, short, pay) refl)
    ]
  ]

  earn-IsSorted : (a v : ℕ) (m : Map ℕ) → IsSorted m → IsSorted (earn a v m)
  unfolding earn
  earn-IsSorted a v m s = elim (Bool-cases (address_empty a)) [
    | inl nobody ↦ rw (nobody, earn) s
    | inr known ↦ elim (Option-cases (lookup a m)) [
      | inl e ↦ rw (known, e, earn) (put-IsSorted a v m s)
      | inr (w, e) ↦ rw (known, e, earn) (put-IsSorted a (add64 w v) m s)
    ]
  ]

  earn-total :
      (a v : ℕ) (m : Map ℕ)
      → IsSorted m
      → address_empty a ≡ false
      → total m + v < u64_mod
      → total (earn a v m) ≡ total m + v
  unfolding earn
  earn-total a v m s known small = elim (Option-cases (lookup a m)) [
    | inl e ↦ rw (known, e, earn) (total-put_new a v m e)
    | inr (w, e) ↦
        rw (known, e, earn, add64_small w v (omega (arith, lookup-le-total a w m e)))
          (omega (arith, total-put_old a (w + v) w m s e))
  ]

  -- What a payment that is made takes out of the sum.
  paid_total :
      (a v w : ℕ) (m : Map ℕ)
      → IsSorted m
      → lookup a m ≡ some w
      → v ≤ w
      → total m < u64_mod
      → total (put a (sub64 w v) m) + v ≡ total m
  paid_total a v w m s e h small =
      rw (sub64_small w v h (omega (arith, lookup-le-total a w m e)))
        (omega (arith, total-put_old a (w - v) w m s e))

  -- A transfer between two accounts: the sender is known and is not the receiver.
  abbrev pub IsTransfer : Transaction → Type 0
  IsTransfer tx =
      (address_empty (from tx) ≡ false) × (address_empty (to tx) ≡ false) × (from tx ≢ to tx)

  abbrev pub AllTransfers : List Transaction → Type 0
  AllTransfers [] = Unit {0}
  AllTransfers (tx ∷ txs) = IsTransfer tx × AllTransfers txs

  differs : (a b : ℕ) → a ≢ b → (a == b) ≡ false
  differs a b h = ground arith

  same_account : (a b : ℕ) → a ≡ b → (a == b) ≡ true
  same_account a b h = ground arith

  transferred :
      (tx : Transaction) (m : Map ℕ)
      → IsTransfer tx
      → (apply_transaction tx m ≡ m)
        ⊎ ((w : ℕ) × (lookup (from tx) m ≡ some w)
            × (value tx ≤ w)
            × (apply_transaction tx m
                ≡ earn (to tx) (value tx) (put (from tx) (sub64 w (value tx)) m)))
  unfolding apply_transaction
  transferred tx m t = elim (Bool-cases (value tx == 0)) [
    | inl nothing ↦ inl (rw (nothing, apply_transaction) refl)
    | inr some' ↦ elim (pay_ends (from tx) (value tx) m) [
      | inl poor ↦
          inl (rw (some', t.0, differs (from tx) (to tx) t.2, poor, apply_transaction) refl)
      | inr (w, e, enough, paid) ↦ inr (
        w,
        e,
        enough,
        rw (some', t.0, differs (from tx) (to tx) t.2, paid, apply_transaction) refl,
      )
    ]
  ]

  transfer-total :
      (tx : Transaction) (m : Map ℕ)
      → IsTransfer tx
      → IsSorted m
      → total m < u64_mod
      → IsSorted (apply_transaction tx m) × (total (apply_transaction tx m) ≡ total m)
  transfer-total tx m t s small = elim (transferred tx m t) [
    | inl e ↦ rw e (s, refl)
    | inr (w, e, enough, paid) ↦
        let sorted = put-IsSorted (from tx) (sub64 w (value tx)) m s in
        let less = paid_total (from tx) (value tx) w m s e enough small in
        rw paid (
          earn-IsSorted (to tx) (value tx) _ sorted,
          earn-total (to tx) (value tx) _ sorted t.1 (omega (arith, less)) ∙ less,
        )
  ]

  -- In a map in key order, transfers between different accounts leave the sum of all balances as it
  -- is, whether the senders have the amounts or not, if the sum fits 64 bits.
  pub build_balance_for-total :
      (txs : List Transaction) (m : Map ℕ)
      → AllTransfers txs
      → IsSorted m
      → total m < u64_mod
      → total (build_balance_for txs m) ≡ total m
  unfolding build_balance_for
  build_balance_for-total [] m t s small = refl
  build_balance_for-total (tx ∷ txs) m t s small =
      let (sorted, kept) = transfer-total tx m t.0 s small in
      build_balance_for-total txs (apply_transaction tx m) t.1 sorted (rw kept small) ∙ kept

  -- In a map in key order, a payment of an account to itself makes money: the sum of all balances
  -- grows by its amount, whatever the account has, while the sum fits 64 bits.
  pub apply_transaction_self :
      (tx : Transaction) (m : Map ℕ)
      → IsSorted m
      → from tx ≡ to tx
      → address_empty (to tx) ≡ false
      → total m + value tx < u64_mod
      → total (apply_transaction tx m) ≡ total m + value tx
  unfolding apply_transaction
  apply_transaction_self tx m s self known small = elim (Bool-cases (value tx == 0)) [
    | inl nothing ↦ rw (nothing, apply_transaction) (ground arith)
    | inr some' ↦
        let alone : (not (address_empty (from tx)) && not (from tx == to tx)) ≡ false =
          ground (arith, same_account (from tx) (to tx) self) in
        rw (some', alone, apply_transaction) (earn-total (to tx) (value tx) m s known small)
  ]
