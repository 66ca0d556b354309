-- ===== src/Tests/Messages.antt =====
-- The theorems on message.inl at messages of small values, with the sizes that the fields of the
-- closed classes add up to on a 64-bit platform.
use bcp_concept_prototype.Prelude.{ℕ, ◌≡◌, true, List, [], ◌∷◌, some, arith}
use bcp_concept_prototype.Message.{valid}
use bcp_concept_prototype.Message.Classes.{node_message_commit}
use bcp_concept_prototype.Message.Layout.{Member, Sizes, sizeof, members, ctor}
use bcp_concept_prototype.Message.Objects.{declared_sizes, ctor-declared_sizes}
use bcp_concept_prototype.Message.Carried.{Carried}
use bcp_concept_prototype.Message.Common.{
  new_balance_req, req_address, new_balance_ack, ack_address, ack_balance,
}
use bcp_concept_prototype.Message.Text.{IsText, empty, char, address-new_balance}

-- CBlockHeader takes 288 bytes, CSecret 97 and PeerData 48.
abbrev sizes : Sizes
sizes = record {
  block_header = record { size = 288; align = 8 };
  secret = record { size = 97; align = 1 };
  peer_data = record { size = 48; align = 8 };
}

-- A std::string of 32 bytes.
abbrev string : Member
string = record { size = 32; align = 8 }

ctor-declared_sizes_example :
    let s = declared_sizes string in
    (s.secret.size ≡ 97)
    × (s.block_header.size ≡ 288)
    × (valid (ctor s node_message_commit) ≡ true)
    × ((ctor s node_message_commit).size ≡ sizeof (members s node_message_commit))
ctor-declared_sizes_example =
    ctor-declared_sizes string node_message_commit
      (record { positive = omega arith; within = omega arith }) (omega arith)

-- A number for each closed object; a block fills its buffer with itself.
abbrev carried : Carried
carried = record {
  sizes = sizes;
  BlockHeader = ℕ;
  Secret = ℕ;
  null_secret = 0;
  PeerData = ℕ;
  Block = ℕ;
  null_block = 0;
  serialize = λ b memory. (b ∷ [], 1);
  unserialize = λ memory b. (b, 0);
  Transactions = ℕ;
  serialize_transactions = λ t memory. (t ∷ [], 1);
  unserialize_transactions = λ memory t. (t, 0);
}

abbrev name : List ℕ
name = 49 ∷ 65 ∷ 98 ∷ []

name-IsText : IsText name
name-IsText = char (omega arith) (char (omega arith) (char (omega arith) empty))

address-new_balance_example :
    (req_address carried (new_balance_req carried name) ≡ some name)
    × (ack_address carried (new_balance_ack carried name 5) ≡ some name)
    × (ack_balance carried (new_balance_ack carried name 5) ≡ 5)
address-new_balance_example = address-new_balance carried name 5 name-IsText
