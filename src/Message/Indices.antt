-- ===== src/Message/Indices.antt =====
-- bryllite-core/message.inl: the block index of a request, which the constructor takes as size_t.
use bcp_concept_prototype.Prelude.{ℕ, ◌+◌, ◌-◌, ◌^◌, ◌<◌, ◌≡◌, arith}
use bcp_concept_prototype.Prelude.Ints.{pos, negsuc}
use bcp_concept_prototype.Message.Carried.{Carried, int_of_word}
use bcp_concept_prototype.Message.NodeMessages.{new_block_req, req_idx}

-- A request for a block index below 2^31 asks for that index, and one for the
-- size_t 2^64 - n - 1, which an index of -n - 1 becomes on its way into the constructor, asks for
-- -n - 1 again.
pub req_idx-new_block_req :
    (c : Carried) (n : ℕ)
    → n < 2 ^ 31
    → (req_idx c (new_block_req c n) ≡ pos n)
      × (req_idx c (new_block_req c (2 ^ 64 - (n + 1))) ≡ negsuc n)
unfolding new_block_req req_idx int_of_word
req_idx-new_block_req c n l = ground arith
