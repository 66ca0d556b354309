-- ===== src/Node/Commit.antt =====
-- What node_server::main() does to the chain of a node in its commit step.
use bcp_concept_prototype.Prelude.{ℕ, ◌≡◌, ◌⊎◌}
use bcp_concept_prototype.Core.{Core, Chain}
use bcp_concept_prototype.Bcp.{BcpServer}
use bcp_concept_prototype.Bcp.Commit.{HasElected}
use bcp_concept_prototype.Bcp.Senders.{IsMajority}
use bcp_concept_prototype.Node.{NodeManager}

module _ ⦃c : Core⦄ ⦃ch : Chain⦄ where
  open c use {Block}
  open ch use {append_block}

  abbrev pub chain_at : ℕ → NodeManager → ch.Blocks
  chain_at me m = (m.node_servers me).block_chain

  -- The chain stays, or takes one block with the elected header, which more than half of the `n`
  -- nodes have verified.
  abbrev pub Extends : ℕ → BcpServer → ch.Blocks → ch.Blocks → Type 0
  Extends n s old new =
      (new ≡ old)
      ⊎ ((b : Block) × (new ≡ (append_block b old).0) × IsMajority n s × HasElected n s b)
