-- ===== src/Message/Carried.antt =====
-- bryllite-core/message.inl: what the messages use of the closed classes CBlockHeader, CSecret,
-- PeerData, CBlock and CTransactions. Their code is not in the repository, so they are a parameter
-- with no laws. A serialize() is given a buffer with what it held before, and returns what it
-- holds afterwards with the number of bytes; an unserialize() changes the object that it is
-- called on.
use bcp_concept_prototype.Prelude.{ℕ, ◌+◌, ◌-◌, ◌%◌, ◌^◌, List, ltb, if◌then◌else◌}
use bcp_concept_prototype.Prelude.Ints.{ℤ, pos, negsuc}
use bcp_concept_prototype.Message.Layout.{Sizes}

pub record Carried : Type 1 where
  pub sizes : Sizes
  pub BlockHeader : Type 0
  pub Secret : Type 0
  pub null_secret : Secret
  pub PeerData : Type 0
  pub Block : Type 0
  pub null_block : Block
  pub serialize : Block → List ℕ → List ℕ × ℕ
  pub unserialize : List ℕ → Block → Block × ℕ
  pub Transactions : Type 0
  pub serialize_transactions : Transactions → List ℕ → List ℕ × ℕ
  pub unserialize_transactions : List ℕ → Transactions → Transactions × ℕ

-- The int that the conversion of a size_t to BlockIdx gives.
unfoldable pub int_of_word : ℕ → ℤ
int_of_word n =
    if ltb (n % 2 ^ 32) (2 ^ 31) then pos (n % 2 ^ 32) else negsuc (2 ^ 32 - (n % 2 ^ 32 + 1))
