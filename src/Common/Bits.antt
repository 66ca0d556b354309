-- ===== src/Common/Bits.antt =====
-- bryllite-common/enum.hpp: the operators on an enum class for which they are enabled. A value is
-- the number that the w bits of its underlying type spell; an assignment returns the new value.
use Prim.Native.Nat.{bit_and, bit_or, bit_xor}
use bcp_concept_prototype.Prelude.{ℕ, ◌+◌, ◌-◌, ◌^◌}

-- operator &, ^ and |
unfoldable pub enum_and : ℕ → ℕ → ℕ
enum_and lhs rhs = bit_and lhs rhs

unfoldable pub enum_xor : ℕ → ℕ → ℕ
enum_xor lhs rhs = bit_xor lhs rhs

unfoldable pub enum_or : ℕ → ℕ → ℕ
enum_or lhs rhs = bit_or lhs rhs

-- operator ~
unfoldable pub enum_not : ℕ → ℕ → ℕ
enum_not w rhs = 2 ^ w - (rhs + 1)

-- operator &=, ^= and |=: what lhs is set to
unfoldable pub and_assign : ℕ → ℕ → ℕ
and_assign lhs rhs = bit_and lhs rhs

unfoldable pub xor_assign : ℕ → ℕ → ℕ
xor_assign lhs rhs = bit_xor lhs rhs

unfoldable pub or_assign : ℕ → ℕ → ℕ
or_assign lhs rhs = bit_or lhs rhs
