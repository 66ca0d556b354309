-- ===== src/Declared/Schedule.antt =====
-- apps/node-server-lib/bcp/bcp_config.hpp, apps/node-server-lib/bcp.hpp and
-- bryllite-core/bcp_server.hpp: the steps of a round and their timeouts in milliseconds. Whether
-- the short block time is set is an argument.
use bcp_concept_prototype.Prelude.{ℕ, ◌<◌, ◌≡◌, refl, Bool, true, false, if◌then◌else◌, arith}
use bcp_concept_prototype.Prelude.Ints.{ℤ, negsuc}

abbrev pub invalid_round : ℤ
invalid_round = negsuc 0

-- enum class BcpStep
pub data BcpStep : Type 0 where
  waiting proof_of_participation propose vote commit : BcpStep

-- enum class bcp_steps
pub data BcpSteps : Type 0 where
  new_round propose vote verify commit : BcpSteps

-- the names of the timeouts
pub data Timeout : Type 0 where
  proof_of_participation propose vote commit block_time : Timeout

-- enum BcpTimeout of bcp_config.hpp
unfoldable pub bcp_timeout : Bool → Timeout → ℕ
bcp_timeout short proof_of_participation = if short then 2500 else 5000
bcp_timeout short propose = if short then 5000 else 10000
bcp_timeout short vote = if short then 7500 else 20000
bcp_timeout short commit = if short then 10000 else 30000
bcp_timeout short block_time = if short then 10000 else 30000

-- enum bcp_timeout of bcp.hpp
unfoldable pub worker_timeout : Bool → Timeout → ℕ
worker_timeout short proof_of_participation = if short then 2500 else 5000
worker_timeout short propose = if short then 5000 else 10000
worker_timeout short vote = if short then 7500 else 20000
worker_timeout short commit = if short then 10000 else 30000
worker_timeout short block_time = if short then 10000 else 30000

-- enum CBcpServer::bcp_timeout
unfoldable pub server_timeout : Bool → Timeout → ℕ
server_timeout short proof_of_participation = if short then 4000 else 5000
server_timeout short propose = if short then 6000 else 10000
server_timeout short vote = if short then 8000 else 20000
server_timeout short commit = if short then 10000 else 30000
server_timeout short block_time = if short then 10000 else 30000

-- the timer identifiers of CBcpServer
pub data TimerId : Type 0 where
  timeout_proof_of_participation timeout_propose timeout_vote timeout_commit : TimerId

-- The timeouts come in the order of the steps and the commit ends the block time, whether it is
-- short or not.
pub timeouts_ordered :
    (short : Bool)
    → (bcp_timeout short proof_of_participation < bcp_timeout short propose)
      × (bcp_timeout short propose < bcp_timeout short vote)
      × (bcp_timeout short vote < bcp_timeout short commit)
      × (bcp_timeout short commit ≡ bcp_timeout short block_time)
unfolding bcp_timeout
timeouts_ordered true = omega arith
timeouts_ordered false = omega arith

-- The three headers agree on the timeouts of the block time that is not short.
pub timeouts_agree :
    (t : Timeout)
    → (worker_timeout false t ≡ bcp_timeout false t)
      × (server_timeout false t ≡ bcp_timeout false t)
unfolding bcp_timeout worker_timeout server_timeout
timeouts_agree proof_of_participation = (refl, refl)
timeouts_agree propose = (refl, refl)
timeouts_agree vote = (refl, refl)
timeouts_agree commit = (refl, refl)
timeouts_agree block_time = (refl, refl)
