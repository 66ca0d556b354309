-- ===== src/Ledger/Balance.antt =====
-- What update_balance() of tests/dev/node-server-mono/block_chain.cpp does to the sum of all balances.
use bcp_concept_prototype.Prelude.{
  ℕ, ◌+◌, ◌-◌, ◌≤◌, ◌<◌, ◌≡◌, ◌≢◌, ap, ◌∙◌, false, none, some, List, [], ◌∷◌, arith, Option-cases,
  Bool-cases, inl, inr, if◌then◌else◌,
}
use bcp_concept_prototype.Prelude.Map.{Map, lookup, IsSorted, put-IsSorted, lookup-put}
use bcp_concept_prototype.Prelude.Total.{total, total-put_new, total-put_old, lookup-le-total}
use bcp_concept_prototype.Core.{Core}
use bcp_concept_prototype.Ledger.{
  u64_mod, add64, sub64, debit, credit, apply_transaction, update_balance, balance_of,
}

pub sub64_small : (a b : ℕ) → b ≤ a → a < u64_mod → sub64 a b ≡ a - b
unfolding sub64
sub64_small a b h k = omega arith

pub add64_small : (a b : ℕ) → a + b < u64_mod → add64 a b ≡ a + b
unfolding add64
add64_small a b h = omega arith

debit-IsSorted : (a v : ℕ) (m : Map ℕ) → IsSorted m → IsSorted (debit a v m)
unfolding debit
debit-IsSorted a v m s = elim (Option-cases (lookup a m)) [
  | inl e ↦ rw (e, debit) (put-IsSorted a 0 m s)
  | inr (w, e) ↦ rw (e, debit) (put-IsSorted a (sub64 w v) m s)
]

credit-IsSorted : (a v : ℕ) (m : Map ℕ) → IsSorted m → IsSorted (credit a v m)
unfolding credit
credit-IsSorted a v m s = elim (Option-cases (lookup a m)) [
  | inl e ↦ rw (e, credit) (put-IsSorted a v m s)
  | inr (w, e) ↦ rw (e, credit) (put-IsSorted a (add64 w v) m s)
]

-- A debit of an account that has the amount takes it out of the sum.
pub debit-total :
    (a v w : ℕ) (m : Map ℕ)
    → IsSorted m
    → lookup a m ≡ some w
    → v ≤ w
    → total m < u64_mod
    → total (debit a v m) + v ≡ total m
unfolding debit
debit-total a v w m s e h small =
    rw (e, debit, sub64_small w v h (omega (arith, lookup-le-total a w m e)))
      (omega (arith, total-put_old a (w - v) w m s e))

-- A credit adds the amount to the sum, unless the sum would leave 64 bits.
pub credit-total :
    (a v : ℕ) (m : Map ℕ) → IsSorted m → total m + v < u64_mod → total (credit a v m) ≡ total m + v
unfolding credit
credit-total a v m s small = elim (Option-cases (lookup a m)) [
  | inl e ↦ rw (e, credit) (total-put_new a v m e)
  | inr (w, e) ↦
      rw (e, credit, add64_small w v (omega (arith, lookup-le-total a w m e)))
        (omega (arith, total-put_old a (w + v) w m s e))
]

debit-total_missing : (a v : ℕ) (m : Map ℕ) → lookup a m ≡ none → total (debit a v m) ≡ total m
unfolding debit
debit-total_missing a v m e = rw (e, debit) (omega (arith, total-put_new a 0 m e))

debit-lookup :
    (a v w : ℕ) (m : Map ℕ) → lookup a m ≡ some w → lookup a (debit a v m) ≡ some (sub64 w v)
unfolding debit
debit-lookup a v w m e = rw (e, debit) (ground (arith, lookup-put a a (sub64 w v) m))

credit-lookup : (j a v : ℕ) (m : Map ℕ) → a ≢ j → lookup j (credit a v m) ≡ lookup j m
unfolding credit
credit-lookup j a v m h = elim (Option-cases (lookup a m)) [
  | inl e ↦ rw (e, credit) (ground (arith, lookup-put j a v m))
  | inr (w, e) ↦ rw (e, credit) (ground (arith, lookup-put j a (add64 w v) m))
]

sub64_wrapped : (a b : ℕ) → a < b → b < u64_mod → sub64 a b ≡ a + u64_mod - b
unfolding sub64
sub64_wrapped a b h k = omega arith

module _ ⦃c : Core⦄ where
  open c use {Transaction, value, from, to, coinbase}

  -- A coinbase transaction, or one whose sender has the amount.
  abbrev pub IsFunded : Transaction → Map ℕ → Type 0
  IsFunded tx m = coinbase tx ≡ false → value tx ≤ balance_of (from tx) m

  -- The money that a list of transactions makes: the amounts of its coinbase transactions.
  unfoldable pub minted : List Transaction → ℕ
  minted [] = 0
  minted (tx ∷ txs) = (if coinbase tx then value tx else 0) + minted txs

  -- Each transaction is funded when its turn comes, and has an amount.
  abbrev pub AllFunded : List Transaction → Map ℕ → Type 0
  AllFunded [] m = Unit {0}
  AllFunded (tx ∷ txs) m = (0 < value tx) × IsFunded tx m × AllFunded txs (apply_transaction tx m)

  apply_transaction-IsSorted :
      (tx : Transaction) (m : Map ℕ) → IsSorted m → IsSorted (apply_transaction tx m)
  unfolding apply_transaction
  apply_transaction-IsSorted tx m s = elim (Bool-cases (coinbase tx)) [
    | inl new' ↦ rw (new', apply_transaction) (credit-IsSorted (to tx) (value tx) m s)
    | inr old ↦
        rw (old, apply_transaction)
          (credit-IsSorted (to tx) (value tx) _ (debit-IsSorted (from tx) (value tx) m s))
  ]

  debit_funded :
      (tx : Transaction) (m : Map ℕ)
      → IsSorted m
      → 0 < value tx
      → value tx ≤ balance_of (from tx) m
      → total m < u64_mod
      → total (debit (from tx) (value tx) m) + value tx ≡ total m
  debit_funded tx m s pos f small = elim (Option-cases (lookup (from tx) m)) [
    | inl e ↦ absurd (unfold balance_of in ground arith)
    | inr (w, e) ↦
        debit-total (from tx) (value tx) w m s e (unfold balance_of in ground arith) small
  ]

  pub apply_transaction-total :
      (tx : Transaction) (m : Map ℕ)
      → IsSorted m
      → 0 < value tx
      → IsFunded tx m
      → total m + (if coinbase tx then value tx else 0) < u64_mod
      → total (apply_transaction tx m) ≡ total m + (if coinbase tx then value tx else 0)
  unfolding apply_transaction
  apply_transaction-total tx m s pos f small = elim (Bool-cases (coinbase tx)) [
    | inl new' ↦ rw (new', apply_transaction) (credit-total (to tx) (value tx) m s (ground arith))
    | inr old ↦
        let paid = debit_funded tx m s pos (f old) (ground arith) in
        rw (old, apply_transaction)
          (omega (
            arith,
            paid,
            credit-total (to tx) (value tx) _ (debit-IsSorted (from tx) (value tx) m s)
                (omega (arith, paid, (let p : total m < u64_mod = ground arith in p))),
          ))
  ]

  -- In a map in key order, if every transaction of a block is funded when its turn comes and has an
  -- amount, and the sum stays within 64 bits, the sum of all balances grows by the block's coinbase
  -- amounts: nothing else makes money or destroys it.
  pub update_balance-total :
      (txs : List Transaction) (m : Map ℕ)
      → IsSorted m
      → AllFunded txs m
      → total m + minted txs < u64_mod
      → total (update_balance txs m) ≡ total m + minted txs
  unfolding update_balance minted
  update_balance-total [] m s f small = omega arith
  update_balance-total (tx ∷ txs) m s f small =
      let one = apply_transaction-total tx m s f.0 f.1 (omega arith) in
      omega (
        arith,
        one,
        update_balance-total txs (apply_transaction tx m) (apply_transaction-IsSorted tx m s) f.2
            (omega (arith, one)),
      )

  -- In a map in key order, a transfer from an account that holds no entry makes money: the sum
  -- grows by its amount, while it stays within 64 bits.
  pub apply_transaction-unknown_sender :
      (tx : Transaction) (m : Map ℕ)
      → IsSorted m
      → coinbase tx ≡ false
      → lookup (from tx) m ≡ none
      → total m + value tx < u64_mod
      → total (apply_transaction tx m) ≡ total m + value tx
  unfolding apply_transaction
  apply_transaction-unknown_sender tx m s old e small =
      let kept = debit-total_missing (from tx) (value tx) m e in
      rw (old, apply_transaction)
        (omega (
          arith,
          kept,
          credit-total (to tx) (value tx) _ (debit-IsSorted (from tx) (value tx) m s)
              (omega (arith, kept)),
        ))

  -- A transfer that is no coinbase, of less than 2^64 and of more than the sender's entry, leaves a
  -- sender that has an entry with the difference wrapped around in 64 bits, if the receiver is
  -- another account.
  pub apply_transaction-overdraft :
      (tx : Transaction) (m : Map ℕ) (w : ℕ)
      → coinbase tx ≡ false
      → lookup (from tx) m ≡ some w
      → w < value tx
      → value tx < u64_mod
      → to tx ≢ from tx
      → lookup (from tx) (apply_transaction tx m) ≡ some (w + u64_mod - value tx)
  unfolding apply_transaction
  apply_transaction-overdraft tx m w old e less small other =
      rw (old, apply_transaction)
        (credit-lookup (from tx) (to tx) (value tx) _ other
          ∙ debit-lookup (from tx) (value tx) w m e
          ∙ ap some (sub64_wrapped w (value tx) less small))
