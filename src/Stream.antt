-- ===== src/Stream.antt =====
-- tests/dev/p2p_server/byte_stream.cpp: class byte_stream, a growing buffer with a read and a write
-- position. A buffer is a function from offsets to bytes, with its size beside it; the positions
-- stay below the size of the memory, so that their sums do not wrap. Locks are left out.
pub mod Contents
pub mod Queue
pub mod Reads
pub mod Shifts
use bcp_concept_prototype.Prelude.{
  ℕ, zero, suc, ◌+◌, ◌*◌, ◌-◌, Bool, true, false, not, ◌&&◌, ◌||◌, List, [], ◌∷◌, ◌==◌, ltb, leb,
  if◌then◌else◌, length,
}

abbrev pub min : ℕ → ℕ → ℕ
min a b = if leb a b then a else b

-- The bytes from an offset on, and memcpy of bytes to an offset.
unfoldable pub slice : (ℕ → ℕ) → ℕ → ℕ → List ℕ
slice buffer at zero = []
slice buffer at (suc n) = buffer at ∷ slice buffer (suc at) n

unfoldable pub copy_to : (ℕ → ℕ) → ℕ → List ℕ → ℕ → ℕ
copy_to buffer at [] i = buffer i
copy_to buffer at (b ∷ bs) i =
    let rest = copy_to buffer (suc at) bs i in if i == at then b else rest

-- class byte_stream; `has_buffer` tells whether _stream_buffer is not nullptr
pub record ByteStream : Type 0 where
  pub has_buffer : Bool
  pub stream_buffer : ℕ → ℕ
  pub buffer_size : ℕ
  pub read_pos : ℕ
  pub write_pos : ℕ

unfoldable pub allocated : ByteStream → Bool
allocated s = s.has_buffer && ltb 0 s.buffer_size

unfoldable pub available : ByteStream → ℕ
available s = if ltb s.read_pos s.write_pos then s.write_pos - s.read_pos else 0

unfoldable pub free_space : ByteStream → ℕ
free_space s = s.buffer_size - s.write_pos

unfoldable pub clear : ByteStream → ByteStream
clear s = record s { read_pos = 0; write_pos = 0 }

unfoldable pub read_commit : ℕ → ByteStream → ByteStream
unfolding available clear
read_commit bytes_read s =
    let moved : ByteStream = record s { read_pos = s.read_pos + bytes_read } in
    if ltb moved.buffer_size (moved.read_pos * 2) && (available moved == 0)
    then clear moved
    else moved

unfoldable pub write_commit : ℕ → ByteStream → ByteStream
write_commit bytes_write s = record s { write_pos = s.write_pos + bytes_write }

-- min( length(), len ) bytes from the read position; nothing changes where there are none
unfoldable pub read : ℕ → ByteStream → ByteStream × List ℕ
unfolding available read_commit
read len s =
    let copy_len = min (available s) len in
    if available s == 0
    then (s, [])
    else (read_commit copy_len s, slice s.stream_buffer s.read_pos copy_len)

-- What memory holds that new returns.
module _ (fresh : ℕ → ℕ) where
  unfoldable pub cleanup : ByteStream
  cleanup = record {
    has_buffer = false;
    stream_buffer = fresh;
    buffer_size = 0;
    read_pos = 0;
    write_pos = 0;
  }

  unfoldable pub prepare : ℕ → ByteStream
  unfolding cleanup
  prepare size =
      if ltb 0 size then record cleanup { has_buffer = true; buffer_size = size } else cleanup

  -- The data move to the front, as much of them as has room.
  unfoldable pub resize : ℕ → ByteStream → ByteStream
  unfolding allocated available prepare
  resize size s =
      let copy_len = min (available s) size in
      if size == 0 || s.buffer_size == size
      then s
      else (if allocated s
          then record {
            has_buffer = true;
            stream_buffer = copy_to fresh 0 (slice s.stream_buffer s.read_pos copy_len);
            buffer_size = size;
            read_pos = 0;
            write_pos = copy_len;
          }
          else prepare size)

  unfoldable pub room_for : ℕ → ByteStream → ByteStream
  unfolding resize
  room_for len s =
      if ltb s.buffer_size (s.write_pos + len) then resize (s.write_pos + len + 1) s else s

  unfoldable pub write : List ℕ → ByteStream → ByteStream
  unfolding room_for write_commit
  write bytes s =
      let s' = room_for (length bytes) s in
      write_commit (length bytes)
        (record s' { stream_buffer = copy_to s'.stream_buffer s'.write_pos bytes })
