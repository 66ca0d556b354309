-- ===== src/P2p/Buffer.antt =====
-- tests/dev/p2p_server/byte_stream.hpp: the rows of buffers of a session (template session_buffer)
-- and of class byte_buffer. A row holds bytes from an offset on; a pointer to a row is its index.
use bcp_concept_prototype.Prelude.{
  ℕ, ◌+◌, ◌%◌, ◌<◌, ◌≡◌, refl, Option, none, some, List, ltb, leb, ◌==◌, arith, lt→ltb,
  if◌then◌else◌,
}
use native.Mathlib.Nat.{mod-lt}
use bcp_concept_prototype.Stream.{copy_to}
use bcp_concept_prototype.Wire.Udp.{Memory}

pub record SessionBuffer : Type 0 where
  pub rows : ℕ → Memory
  pub current_pos : ℕ

-- session_buffer(); what the rows hold is not set
unfoldable pub session_buffer : (ℕ → Memory) → SessionBuffer
session_buffer rows = record { rows = rows; current_pos = 0 }

module _ (count_of length_of : ℕ) where
  -- none for nullptr
  unfoldable pub get : SessionBuffer → Option ℕ
  get b = if ltb b.current_pos count_of then some b.current_pos else none

  unfoldable pub next : SessionBuffer → SessionBuffer × Option ℕ
  unfolding get
  next b =
      let b' : SessionBuffer = record b { current_pos = (b.current_pos + 1) % count_of } in
      (b', get b')

  unfoldable pub pos : SessionBuffer → ℕ
  pos b = b.current_pos

  unfoldable pub count : SessionBuffer → ℕ
  count b = count_of

  unfoldable pub length : SessionBuffer → ℕ
  length b = length_of

  pub get-inside : (b : SessionBuffer) → b.current_pos < count_of → get b ≡ some b.current_pos
  unfolding get
  get-inside b l = rw (lt→ltb _ _ l) refl

  -- next() never gives nullptr, and get() after it gives the same row.
  pub next-get :
      (b : SessionBuffer)
      → 0 < count_of
      → (get (next b).0 ≡ some ((b.current_pos + 1) % count_of))
        × ((next b).1 ≡ some ((b.current_pos + 1) % count_of))
  unfolding next
  next-get b p =
      let e =
        get-inside (record b { current_pos = (b.current_pos + 1) % count_of })
          (mod-lt (b.current_pos + 1) p) in
      (e, e)

-- Bytes put into a row at an offset, by memcpy or by a read of the socket.
unfoldable pub fill : ℕ → ℕ → List ℕ → SessionBuffer → SessionBuffer
unfolding copy_to
fill row at bytes b = record b {
  rows = λ r. if r == row then copy_to (b.rows r) at bytes else b.rows r;
}

pub fill-row :
    (row at : ℕ) (bytes : List ℕ) (b : SessionBuffer)
    → (fill row at bytes b).rows row ≡ copy_to (b.rows row) at bytes
unfolding fill
fill-row row at bytes b = ground arith

-- class byte_buffer: get( idx ) and get() refuse an index past the rows
abbrev pub max_buffer_cnt : ℕ
max_buffer_cnt = 16

unfoldable pub byte_buffer_get_at : ℕ → SessionBuffer → Option ℕ
byte_buffer_get_at idx b = if leb max_buffer_cnt idx then none else some idx

unfoldable pub byte_buffer_get : SessionBuffer → Option ℕ
byte_buffer_get b = if leb max_buffer_cnt b.current_pos then none else some b.current_pos

unfoldable pub byte_buffer_next : SessionBuffer → SessionBuffer × Option ℕ
unfolding byte_buffer_get
byte_buffer_next b =
    let b' : SessionBuffer = record b { current_pos = (b.current_pos + 1) % max_buffer_cnt } in
    (b', byte_buffer_get b')
