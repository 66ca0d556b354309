-- ===== src/Message/Sizes.antt =====
-- bryllite-core/message.inl: bounds on the sizes that the constructors write into the header.
use bcp_concept_prototype.Prelude.{
  ℕ, ◌+◌, ◌-◌, ◌*◌, ◌%◌, ◌≤◌, ◌<◌, ◌≡◌, inl, inr, true, List, [], ◌∷◌, arith, length, ltb,
  Bool-cases,
}
use native.Mathlib.Nat.{mod-lt}
use bcp_concept_prototype.Message.{
  MessageHeader, max_message_length, header_size, message_header, payload_size, valid,
}
use bcp_concept_prototype.Message.Classes.{
  MessageClass, message_ping, message_pong, message_header_sign_req, message_header_sign_ack,
  message_balance_req, message_balance_ack, message_transactions_notify, node_message_peer_id,
  node_message_time_req, node_message_time_ack, node_message_block_req, node_message_block_notify,
  node_message_new_round, node_message_propose, node_message_vote, node_message_commit,
  node_message_verify_block,
}
use bcp_concept_prototype.Message.Ids.{number}
use bcp_concept_prototype.Message.Layout.{
  Member, Sizes, round_up, end_of, largest_align, sizeof, members, class_id, ctor,
}

-- An alignment of 1 to 8 bytes.
pub record IsAligned (m : Member) : Type 0 where
  pub positive : 0 < m.align
  pub within : m.align ≤ 8

abbrev pub AllAligned : List Member → Type 0
AllAligned [] = Unit
AllAligned (m ∷ ms) = IsAligned m × AllAligned ms

unfoldable pub total : List Member → ℕ
total [] = 0
total (m ∷ ms) = m.size + total ms

pub round_up-bounds : (n a : ℕ) → 0 < a → a ≤ 8 → (n ≤ round_up n a) × (round_up n a < n + 8)
unfolding round_up
round_up-bounds n a p l = omega (arith, mod-lt (a - n % a) p)

pub end_of-bounds :
    (at : ℕ) (ms : List Member)
    → AllAligned ms
    → (at ≤ end_of at ms) × (end_of at ms ≤ at + total ms + 8 * length ms)
unfolding end_of total
end_of-bounds at [] h = omega arith
end_of-bounds at (m ∷ ms) (k, h) = omega (
  arith,
  round_up-bounds at m.align k.positive k.within,
  end_of-bounds (round_up at m.align + m.size) ms h,
)

pub largest_align-bounds :
    (a : ℕ) (ms : List Member)
    → 0 < a
    → a ≤ 8
    → AllAligned ms
    → (0 < largest_align a ms) × (largest_align a ms ≤ 8)
unfolding largest_align
largest_align-bounds a [] p l h = (p, l)
largest_align-bounds a (m ∷ ms) p l (k, h) = elim (Bool-cases (ltb a m.align)) [
  | inl e ↦ rw e (largest_align-bounds m.align ms k.positive k.within h)
  | inr e ↦ rw e (largest_align-bounds a ms p l h)
]

pub sizeof-bounds :
    (ms : List Member)
    → AllAligned ms
    → (header_size ≤ sizeof ms) × (sizeof ms < header_size + total ms + 8 * length ms + 8)
unfolding sizeof
sizeof-bounds ms h =
    let (p, l) = largest_align-bounds 1 ms (omega arith) (omega arith) h in
    omega (
      arith,
      end_of-bounds header_size ms h,
      round_up-bounds (end_of header_size ms) (largest_align 1 ms) p l,
    )

-- A header, a secret and the data of a peer of a size that leaves room in a packet.
pub record IsSmall (s : Sizes) : Type 0 where
  pub header_aligned : IsAligned s.block_header
  pub secret_aligned : IsAligned s.secret
  pub peer_aligned : IsAligned s.peer_data
  pub header_small : s.block_header.size ≤ 16384
  pub secret_small : s.secret.size ≤ 1024
  pub peer_small : s.peer_data.size ≤ 16384

aligned : (a : ℕ) {n : ℕ} → 0 < a → a ≤ 8 → IsAligned (record { size = n; align = a })
aligned a p l = record { positive = p; within = l }

abbrev one : {n : ℕ} → IsAligned (record { size = n; align = 1 })
one = aligned 1 (omega arith) (omega arith)

abbrev four : {n : ℕ} → IsAligned (record { size = n; align = 4 })
four = aligned 4 (omega arith) (omega arith)

abbrev eight : {n : ℕ} → IsAligned (record { size = n; align = 8 })
eight = aligned 8 (omega arith) (omega arith)

pub members-AllAligned : (s : Sizes) (k : MessageClass) → IsSmall s → AllAligned (members s k)
unfolding members
members-AllAligned s message_ping h = (eight, tt)
members-AllAligned s message_pong h = (eight, tt)
members-AllAligned s node_message_time_req h = (eight, tt)
members-AllAligned s node_message_time_ack h = (eight, (eight, tt))
members-AllAligned s message_header_sign_req h =
    (h.header_aligned, (h.secret_aligned, (h.secret_aligned, tt)))
members-AllAligned s message_header_sign_ack h =
    (h.header_aligned, (h.secret_aligned, (h.secret_aligned, tt)))
members-AllAligned s message_balance_req h = (one, tt)
members-AllAligned s message_balance_ack h = (one, (eight, tt))
members-AllAligned s message_transactions_notify h = (eight, (one, tt))
members-AllAligned s node_message_peer_id h = (h.peer_aligned, (h.secret_aligned, (four, tt)))
members-AllAligned s node_message_block_req h = (four, tt)
members-AllAligned s node_message_block_notify h = (four, (one, tt))
members-AllAligned s node_message_new_round h = (four, tt)
members-AllAligned s node_message_propose h = (h.header_aligned, tt)
members-AllAligned s node_message_vote h = (h.header_aligned, tt)
members-AllAligned s node_message_commit h = (one, (h.secret_aligned, tt))
members-AllAligned s node_message_verify_block h = (one, tt)

pub members_fit :
    (s : Sizes) (k : MessageClass)
    → IsSmall s
    → total (members s k) + 8 * length (members s k) + 22 ≤ max_message_length
unfolding members total
members_fit s message_ping h = omega arith
members_fit s message_pong h = omega arith
members_fit s node_message_time_req h = omega arith
members_fit s node_message_time_ack h = omega arith
members_fit s message_header_sign_req h = omega arith
members_fit s message_header_sign_ack h = omega arith
members_fit s message_balance_req h = omega arith
members_fit s message_balance_ack h = omega arith
members_fit s message_transactions_notify h = omega arith
members_fit s node_message_peer_id h = omega arith
members_fit s node_message_block_req h = omega arith
members_fit s node_message_block_notify h = omega arith
members_fit s node_message_new_round h = omega arith
members_fit s node_message_propose h = omega arith
members_fit s node_message_vote h = omega arith
members_fit s node_message_commit h = omega arith
members_fit s node_message_verify_block h = omega arith

message_header-valid :
    (id n : ℕ) → header_size ≤ n → n ≤ max_message_length → valid (message_header id n) ≡ true
unfolding valid message_header
message_header-valid id n a b = ground arith

-- Where a block header and the data of a peer take at most 16384 bytes and a secret at most 1024,
-- each at an alignment of 1 to 8, every message that a constructor builds has a valid header: the
-- largest, a commit with its block buffer and secret, fits the packet too.
pub ctor-valid : (s : Sizes) (k : MessageClass) → IsSmall s → valid (ctor s k) ≡ true
unfolding ctor
ctor-valid s k h =
    let (a, b) = sizeof-bounds (members s k) (members-AllAligned s k h) in
    message_header-valid (number (class_id k)) (sizeof (members s k)) a
      (omega (arith, members_fit s k h))

-- In a valid header the payload is what the size has above the 14 bytes of the header, and takes
-- at most 65522 bytes.
pub payload_size-valid :
    (h : MessageHeader)
    → valid h ≡ true
    → (header_size + payload_size h ≡ h.size) × (payload_size h ≤ 65522)
unfolding valid payload_size
payload_size-valid h v = ground arith
