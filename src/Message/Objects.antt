-- ===== src/Message/Objects.antt =====
-- bryllite-core/block_header.hpp, secret.hpp, peer_data.hpp and uint256.hpp: the sizes of the
-- objects that messages carry, from the fields that their classes declare. What the compiler makes
-- of std::string is an argument.
use bcp_concept_prototype.Prelude.{
  ℕ, ◌+◌, ◌*◌, ◌/◌, ◌≤◌, ◌<◌, ◌≡◌, refl, true, List, [], ◌∷◌, arith, length,
}
use bcp_concept_prototype.Message.{valid, message_header}
use bcp_concept_prototype.Message.Classes.{MessageClass}
use bcp_concept_prototype.Message.Layout.{
  Member, Sizes, word, int, chars, round_up, end_of, largest_align, sizeof, members, ctor,
}
use bcp_concept_prototype.Message.Sizes.{
  IsAligned, IsSmall, AllAligned, total, end_of-bounds, largest_align-bounds, round_up-bounds,
  members-AllAligned, members_fit, sizeof-bounds, ctor-valid,
}

-- a class without a base of these fields
unfoldable pub struct_of : List Member → Member
struct_of ms = record {
  size = round_up (end_of 0 ms) (largest_align 1 ms);
  align = largest_align 1 ms;
}

-- base_blob of Bitcoin Core, which uint256.hpp is a copy of: an array of a byte for eight bits
unfoldable pub base_blob : ℕ → Member
base_blob bits = chars (bits / 8)

abbrev short_int : Member
short_int = record { size = 2; align = 2 }

-- CSecret: a uint264 and a uint512
unfoldable pub secret : Member
secret = struct_of (base_blob 264 ∷ base_blob 512 ∷ [])

-- CBlockHeader
unfoldable pub block_header : Member
block_header =
    struct_of (int ∷ int ∷ word ∷ base_blob 256 ∷ base_blob 256 ∷ word ∷ secret ∷ secret ∷ [])

-- PeerData
unfoldable pub peer_data : Member → Member
peer_data string = struct_of (int ∷ string ∷ short_int ∷ [])

unfoldable pub declared_sizes : Member → Sizes
declared_sizes string = record {
  block_header = block_header;
  secret = secret;
  peer_data = peer_data string;
}

secret_layout : (secret.size ≡ 97) × (secret.align ≡ 1)
unfolding secret struct_of base_blob round_up end_of largest_align
secret_layout = (refl, refl)

block_header_layout : (block_header.size ≡ 288) × (block_header.align ≡ 8)
unfolding block_header secret struct_of base_blob round_up end_of largest_align
block_header_layout = (refl, refl)

struct_of-bounds :
    (ms : List Member)
    → AllAligned ms
    → IsAligned (struct_of ms) × ((struct_of ms).size < total ms + 8 * length ms + 8)
unfolding struct_of
struct_of-bounds ms h =
    let (p, l) = largest_align-bounds 1 ms (omega arith) (omega arith) h in
    (
      record { positive = p; within = l },
      omega (arith, end_of-bounds 0 ms h, round_up-bounds (end_of 0 ms) (largest_align 1 ms) p l),
    )

fields-AllAligned :
    (string : Member) → IsAligned string → AllAligned (int ∷ string ∷ short_int ∷ [])
fields-AllAligned string a = (
  record { positive = omega arith; within = omega arith },
  (a, (record { positive = omega arith; within = omega arith }, tt)),
)

declared_sizes-IsSmall :
    (string : Member) → IsAligned string → string.size ≤ 4096 → IsSmall (declared_sizes string)
unfolding declared_sizes peer_data total
declared_sizes-IsSmall string a l =
    let (pa, ps) = struct_of-bounds (int ∷ string ∷ short_int ∷ []) (fields-AllAligned string a) in
    record {
      header_aligned = record {
        positive = omega (arith, block_header_layout);
        within = omega (arith, block_header_layout);
      };
      secret_aligned = record {
        positive = omega (arith, secret_layout);
        within = omega (arith, secret_layout);
      };
      peer_aligned = pa;
      header_small = omega (arith, block_header_layout);
      secret_small = omega (arith, secret_layout);
      peer_small = omega (arith, ps);
    }

-- With the fields that the classes declare, a secret takes 97 bytes and a block header 288; where a
-- std::string takes at most 4096 bytes at an alignment of 1 to 8, every message that a constructor
-- builds has a valid header with the size of its class, not wrapped.
pub ctor-declared_sizes :
    (string : Member) (k : MessageClass)
    → IsAligned string
    → string.size ≤ 4096
    → let s = declared_sizes string in
      (s.secret.size ≡ 97)
      × (s.block_header.size ≡ 288)
      × (valid (ctor s k) ≡ true)
      × ((ctor s k).size ≡ sizeof (members s k))
unfolding ctor message_header declared_sizes secret
ctor-declared_sizes string k a l =
    let s = declared_sizes string in
    let h = declared_sizes-IsSmall string a l in
    (
      secret_layout.0,
      block_header_layout.0,
      ctor-valid s k h,
      omega (arith, sizeof-bounds (members s k) (members-AllAligned s k h), members_fit s k h),
    )
