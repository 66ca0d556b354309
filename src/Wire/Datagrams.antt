-- ===== src/Wire/Datagrams.antt =====
-- bryllite-core/udp_client.hpp: which messages a datagram brings.
use bcp_concept_prototype.Prelude.{
  ℕ, zero, suc, ◌+◌, ◌<◌, ◌≡◌, refl, sym, ap, ◌∙◌, Bool, true, false, not, Bool-cases, inl, inr,
  if◌then◌else◌, none, some, arith, get_or, ltb, lt→ltb, ◌&&◌,
}
use bcp_concept_prototype.Message.{valid, header_size}
use bcp_concept_prototype.Message.Sizes.{payload_size-valid}
use bcp_concept_prototype.Wire.Udp.{
  Memory, number_at, cast_message, bytes_of, Asio, UdpClient, udp_sendto_message, udp_sendto,
  on_receive_from, callback,
}

get_or-bytes_of : (f : Memory) (at n i : ℕ) → i < n → get_or (bytes_of f at n) i 0 ≡ f (at + i)
unfolding bytes_of
get_or-bytes_of f at zero i l = absurd (omega arith)
get_or-bytes_of f at (suc n) zero l = ap f (omega arith)
get_or-bytes_of f at (suc n) (suc i) l =
    get_or-bytes_of f (suc at) n i (omega arith) ∙ ap f (omega arith)

-- Memories with the same first bytes agree on each of these.
bytes_of-same : (f g : Memory) (n i : ℕ) → bytes_of f 0 n ≡ bytes_of g 0 n → i < n → f i ≡ g i
bytes_of-same f g n i e l =
    let z : i ≡ 0 + i = omega arith in
    ap f z
    ∙ sym (get_or-bytes_of f 0 n i l)
    ∙ ap (λ bs. get_or bs i 0) e
    ∙ get_or-bytes_of g 0 n i l
    ∙ ap g (sym z)

number_at-same :
    (f g : Memory) (at n : ℕ)
    → ((i : ℕ) → i < at + n → f i ≡ g i)
    → number_at f at n ≡ number_at g at n
unfolding number_at
number_at-same f g at zero h = refl
number_at-same f g at (suc n) h =
    omega (arith, h at (omega arith), number_at-same f g (suc at) n (λ i l. h i (omega arith)))

pub cast_message-same :
    (f g : Memory) → ((i : ℕ) → i < header_size → f i ≡ g i) → cast_message f ≡ cast_message g
unfolding cast_message
cast_message-same f g h =
    rw
      (
        h 0 (omega arith),
        h 1 (omega arith),
        h 2 (omega arith),
        h 3 (omega arith),
        number_at-same f g 4 8 (λ i l. h i (omega arith)),
        number_at-same f g 12 2 (λ i l. h i (omega arith)),
      )
      refl

module _ (asio : Asio) where
  -- Where the buffer, once the received bytes are committed, has a memory at its pointer, the
  -- callback is called exactly if the completion has no error and at least one byte and the memory
  -- begins with a valid header. That the datagram is as long as its header, or as the message, is
  -- not asked: what lies behind its bytes in the buffer is read as part of the message.
  on_receive_from-valid :
      (error : Bool) (bytes : ℕ) (c : UdpClient asio) (memory : Memory)
      → asio.contents (asio.commit bytes c.read_buffer) ≡ some memory
      → (on_receive_from asio error bytes c).1 ≡ (
          if not error && ltb 0 bytes && valid (cast_message memory)
          then some (c.read_endpoint, memory)
          else none)
  unfolding on_receive_from callback
  on_receive_from-valid error bytes c memory e = elim (Bool-cases (not error && ltb 0 bytes)) [
    | inl q ↦ elim (Bool-cases (valid (cast_message memory))) [
      | inl v ↦ rw (on_receive_from, callback, q, e, v) refl
      | inr v ↦ rw (on_receive_from, callback, q, e, v) refl
    ]
    | inr q ↦ rw (on_receive_from, q) refl
  ]

  -- A message with a valid header that one client sends by udp_sendto( endpoint, msg ), and whose
  -- bytes another finds at its buffer, completed with their number and no error, reaches the
  -- callback of the other, with the header that it was sent with.
  pub on_receive_from-udp_sendto_message :
      (ep : asio.Endpoint) (msg : Memory) (sender receiver : UdpClient asio) (memory : Memory)
      → let size = (cast_message msg).size in
        valid (cast_message msg) ≡ true
        → asio.contents (asio.commit size receiver.read_buffer) ≡ some memory
        → bytes_of memory 0 size ≡ bytes_of msg 0 size
        → ((udp_sendto_message asio ep msg sender).1
            ≡ (asio.send_to (bytes_of memory 0 size) ep sender.world).1)
          × ((on_receive_from asio false size receiver).1 ≡ some (receiver.read_endpoint, memory))
          × (cast_message memory ≡ cast_message msg)
  unfolding udp_sendto_message udp_sendto
  on_receive_from-udp_sendto_message ep msg sender receiver memory v e same =
      let size = (cast_message msg).size in
      let (fits, small) = payload_size-valid (cast_message msg) v in
      let cast =
        cast_message-same memory msg (λ i l. bytes_of-same memory msg size i same (omega arith)) in
      (
        ap (λ bs. (asio.send_to bs ep sender.world).1) (sym same),
        on_receive_from-valid false size receiver memory e
            ∙ rw (lt→ltb 0 size (omega arith), ap valid cast ∙ v) refl,
        cast,
      )
