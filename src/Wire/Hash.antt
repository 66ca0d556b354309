-- ===== src/Wire/Hash.antt =====
-- bryllite-core/sha256.cpp: the wrappers of the SHA-256 of OpenSSL and of PicoSHA2, which are a
-- parameter, with uint256 of Bitcoin Core. A uint256 is the list of its bytes.
use bcp_concept_prototype.Prelude.{ℕ, List, ltb, replicate, if◌then◌else◌}
use bcp_concept_prototype.Message.{memcpy}

abbrev pub sha256_digest_length : ℕ
sha256_digest_length = 32

-- SHA256_Init, SHA256_Update and SHA256_Final of OpenSSL, hash256_hex_string of PicoSHA2, and
-- uint256::SetHex on a new uint256
pub record Hashes : Type 0 where
  pub digest : List ℕ → List ℕ
  pub hash256_hex_string : List ℕ → List ℕ
  pub set_hex : List ℕ → List ℕ

module _ (h : Hashes) where
  -- sha256( target, target_len, hash, hash_len ): what the memory at hash holds afterwards
  unfoldable pub sha256_into : List ℕ → List ℕ → ℕ → List ℕ
  unfolding memcpy
  sha256_into target hash hash_len =
      memcpy hash (h.digest target)
        (if ltb hash_len sha256_digest_length then hash_len else sha256_digest_length)

  -- sha256_hex_string of a string, and of data
  unfoldable pub sha256_hex_string : List ℕ → List ℕ
  sha256_hex_string str = h.hash256_hex_string str

  unfoldable pub sha256_hex_data : List ℕ → List ℕ
  sha256_hex_data bytes = h.hash256_hex_string bytes

  -- sha256 of a string, and of data into a new uint256
  unfoldable pub sha256_string : List ℕ → List ℕ
  sha256_string str = h.set_hex (h.hash256_hex_string str)

  unfoldable pub sha256_data : List ℕ → List ℕ
  unfolding sha256_into
  sha256_data bytes = sha256_into bytes (replicate sha256_digest_length 0) sha256_digest_length

  -- sha256s of a string, and of data
  unfoldable pub sha256s : List ℕ → List ℕ
  unfolding sha256_hex_string
  sha256s str = sha256_hex_string str

  unfoldable pub sha256s_data : List ℕ → List ℕ
  unfolding sha256_hex_data
  sha256s_data bytes = sha256_hex_data bytes
