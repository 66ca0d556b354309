-- ===== src/Stream/Queue.antt =====
-- tests/dev/p2p_server/byte_stream.cpp: the stream is a queue of bytes. Each operation against the list of
-- the bytes that wait.
use bcp_concept_prototype.Prelude.{
  ℕ, zero, suc, ◌+◌, ◌-◌, ◌≤◌, ◌<◌, ◌≡◌, refl, sym, ap, ◌∙◌, true, false, ◌||◌, List, [], ◌∷◌, ◌++◌,
  ◌==◌, ltb, leb, arith, length, take, Bool-cases, inl, inr, lt→ltb,
}
use bcp_concept_prototype.Stream.{
  min, slice, copy_to, ByteStream, allocated, available, write_commit, cleanup, prepare, resize,
  room_for, write,
}
use bcp_concept_prototype.Stream.Contents.{
  IsStream, contents, slice-past, slice-written, slice-split, slice-take, length-slice,
  available-length,
}

pub length-contents : (s : ByteStream) → length (contents s) ≡ s.write_pos - s.read_pos
unfolding contents
length-contents s = length-slice s.stream_buffer s.read_pos (s.write_pos - s.read_pos)

pub take_all {ℓ} : {A : Type ℓ} (n : ℕ) (xs : List A) → length xs ≤ n → take n xs ≡ xs
take_all zero [] h = refl
take_all zero (x ∷ xs) h = absurd (omega arith)
take_all (suc n) [] h = refl
take_all (suc n) (x ∷ xs) h = ap (λ r. x ∷ r) (take_all n xs (omega arith))

pub nothing : (s : ByteStream) → s.write_pos ≡ 0 → contents s ≡ []
unfolding contents slice
nothing s e = ap (slice s.stream_buffer s.read_pos) (none_left (s.write_pos) s.read_pos e)
  where
    none_left : (w r : ℕ) → w ≡ 0 → w - r ≡ 0
    none_left w r h = omega arith

-- The bytes that have room in a new buffer.
pub front :
    (size : ℕ) (s : ByteStream)
    → IsStream s
    → slice s.stream_buffer s.read_pos (min (available s) size) ≡ take size (contents s)
unfolding contents
front size s v = elim (Bool-cases (leb (available s) size)) [
  | inl all ↦
      let n : available s ≡ s.write_pos - s.read_pos = available-length s v in
      rw (all, n) (sym (take_all size _ (ground (arith, length-contents s))))
  | inr some' ↦ rw some' (
      slice-take s.stream_buffer s.read_pos size (s.write_pos - s.read_pos)
        (ground (arith, available-length s v)))
]

-- A stream holds these bytes.
abbrev pub Holds : ByteStream → List ℕ → Type 0
Holds s bytes = IsStream s × (contents s ≡ bytes)

nothing_left : (n : ℕ) {s : ByteStream} → Holds s [] → Holds s (take n [])
nothing_left zero h = h
nothing_left (suc n) h = h

module _ (fresh : ℕ → ℕ) where
  -- The data at the front of a new buffer.
  moved-Holds :
      (n size : ℕ) (bytes : List ℕ) (buffer : ℕ → ℕ) (p : ℕ)
      → n ≤ size
      → slice buffer p n ≡ bytes
      → Holds
          (record {
            has_buffer = true;
            stream_buffer = copy_to fresh 0 (slice buffer p n);
            buffer_size = size;
            read_pos = 0;
            write_pos = n;
          })
          bytes
  unfolding contents
  moved-Holds n size bytes buffer p h e = (
    record { ordered = omega arith; inside = h; owned = λ pos. refl },
    ap (slice (copy_to fresh 0 (slice buffer p n)) 0) (counted (length-slice buffer p n))
        ∙ slice-written fresh 0 (slice buffer p n)
        ∙ e,
  )
    where
      counted : length (slice buffer p n) ≡ n → n - 0 ≡ length (slice buffer p n)
      counted l = omega arith

  unallocated : (s : ByteStream) → IsStream s → allocated s ≡ false → s.write_pos ≡ 0
  unfolding allocated
  unallocated s v e = ground (arith, v.owned, v.inside)

  pub prepare-Holds : (size : ℕ) → 0 < size → Holds (prepare fresh size) []
  unfolding prepare cleanup contents slice
  prepare-Holds size h =
      rw (lt→ltb 0 size h, prepare)
        (record { ordered = omega arith; inside = omega arith; owned = λ pos. refl }, refl)

  -- In a stream whose positions lie in its buffer, resize() to a size that is not zero keeps the
  -- first bytes that have room in it.
  pub resize-Holds :
      (size : ℕ) (s : ByteStream)
      → 0 < size
      → IsStream s
      → Holds (resize fresh size s) (take size (contents s))
  unfolding resize
  resize-Holds size s pos v = elim (Bool-cases (size == 0 || s.buffer_size == size)) [
    | inl same ↦
        let fits : length (contents s) ≤ size =
          ground (arith, length-contents s, v.inside, v.ordered) in
        rw (same, resize) (v, sym (take_all size (contents s) fits))
    | inr other ↦ elim (Bool-cases (allocated s)) [
      | inl have ↦
          rw (other, have, resize)
            (moved-Holds (min (available s) size) size _ s.stream_buffer s.read_pos (ground arith)
              (front size s v))
      | inr none' ↦
          let empty : contents s ≡ [] = nothing s (unallocated s v none') in
          rw (other, none', empty, resize) (nothing_left size (prepare-Holds size pos))
    ]
  ]

  resize_sizes :
      (size : ℕ) (s : ByteStream)
      → 0 < size
      → s.buffer_size < size
      → IsStream s
      → ((resize fresh size s).buffer_size ≡ size) × ((resize fresh size s).write_pos ≤ s.write_pos)
  unfolding resize prepare cleanup available
  resize_sizes size s pos more v =
      let other : (size == 0 || s.buffer_size == size) ≡ false = ground arith in
      elim (Bool-cases (allocated s)) [
        | inl have ↦ rw (other, have, resize) (refl, ground (arith, v.ordered))
        | inr none' ↦ rw (other, none', lt→ltb 0 size pos, resize, prepare) (refl, omega arith)
      ]

  -- With room for the bytes to come.
  room_for-Holds :
      (n : ℕ) (s : ByteStream)
      → IsStream s
      → Holds (room_for fresh n s) (contents s)
        × ((room_for fresh n s).write_pos + n ≤ (room_for fresh n s).buffer_size)
  unfolding room_for
  room_for-Holds n s v = elim (Bool-cases (ltb s.buffer_size (s.write_pos + n))) [
    | inr room ↦ rw (room, room_for) ((v, refl), ground arith)
    | inl full ↦
        let k : ℕ = s.write_pos + n + 1 in
        let grown = resize-Holds k s (omega arith) v in
        let (sized, kept) = resize_sizes k s (omega arith) (ground arith) v in
        let all : take k (contents s) ≡ contents s =
          take_all k (contents s) (omega (arith, length-contents s)) in
        rw (full, room_for) ((grown.0, grown.1 ∙ all), omega (arith, sized, kept))
  ]

  put-Holds :
      (bytes : List ℕ) (s : ByteStream)
      → IsStream s
      → s.write_pos + length bytes ≤ s.buffer_size
      → Holds
          (record s {
            stream_buffer = copy_to s.stream_buffer s.write_pos bytes;
            write_pos = s.write_pos + length bytes;
          })
          (contents s ++ bytes)
  unfolding contents
  put-Holds bytes s v room = (
    record { ordered = omega (arith, v.ordered); inside = room; owned = v.owned },
    ap (slice after s.read_pos) (apart s.read_pos s.write_pos v.ordered)
        ∙ slice-split after s.read_pos (s.write_pos - s.read_pos) (length bytes)
        ∙ ap (λ r. r ++ slice after (s.read_pos + (s.write_pos - s.read_pos)) (length bytes))
            (slice-past s.stream_buffer s.write_pos s.read_pos (s.write_pos - s.read_pos) bytes
              (omega (arith, v.ordered)))
        ∙ ap (λ q. contents s ++ slice after q (length bytes))
            (behind s.read_pos s.write_pos v.ordered)
        ∙ ap (λ r. contents s ++ r) (slice-written s.stream_buffer s.write_pos bytes),
  )
    where
      after : ℕ → ℕ
      after = copy_to s.stream_buffer s.write_pos bytes

      apart : (r w : ℕ) → r ≤ w → w + length bytes - r ≡ (w - r) + length bytes
      apart r w h = omega arith

      behind : (r w : ℕ) → r ≤ w → r + (w - r) ≡ w
      behind r w h = omega arith

  -- In a stream whose positions lie in its buffer, write() adds the bytes behind those that wait,
  -- and the positions lie in the buffer again.
  pub write-Holds :
      (bytes : List ℕ) (s : ByteStream)
      → IsStream s
      → Holds (write fresh bytes s) (contents s ++ bytes)
  unfolding write write_commit
  write-Holds bytes s v =
      let ((stream, same), room) = room_for-Holds (length bytes) s v in
      let (put, all) = put-Holds bytes (room_for fresh (length bytes) s) stream room in
      (put, all ∙ ap (λ r. r ++ bytes) same)
