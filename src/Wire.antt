-- ===== src/Wire.antt =====
-- bryllite-core/socket_buffer.hpp, udp_client.hpp and sha256.cpp: the ring of buffers of a
-- connection, the client of datagrams and the hash functions.
pub mod Ring
pub mod Udp
pub mod Datagrams
pub mod Hash
use bcp_concept_prototype.Prelude.{ℕ, zero, suc, ◌+◌, ◌%◌, Option, none, some, ltb, if◌then◌else◌}

-- template socket_buffer; a row of _data is its index, and what lies in it is not read here
pub record SocketBuffer : Type 0 where
  pub current_pos : ℕ

unfoldable pub socket_buffer : SocketBuffer
socket_buffer = record { current_pos = 0 }

module _ (count_of : ℕ) (length_of : ℕ) where
  -- get( pos ), none for nullptr
  unfoldable pub get_at : ℕ → SocketBuffer → Option ℕ
  get_at pos b = if ltb pos count_of then some pos else none

  unfoldable pub get : SocketBuffer → Option ℕ
  get b = if ltb b.current_pos count_of then some b.current_pos else none

  -- next( pos ) with the position that it sets, and next()
  unfoldable pub next_pos : SocketBuffer → SocketBuffer × ℕ × Option ℕ
  unfolding get
  next_pos b =
      let b' : SocketBuffer = record b { current_pos = (b.current_pos + 1) % count_of } in
      (b', b'.current_pos, get b')

  unfoldable pub next : SocketBuffer → SocketBuffer × Option ℕ
  unfolding next_pos
  next b = let (b', pos, row) = next_pos b in (b', row)

  unfoldable pub count : SocketBuffer → ℕ
  count b = count_of

  unfoldable pub length : SocketBuffer → ℕ
  length b = length_of
