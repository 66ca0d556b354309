-- ===== src/Stream/Reads.antt =====
-- tests/dev/p2p_server/byte_stream.cpp: read() against the list of the bytes that wait.
use bcp_concept_prototype.Prelude.{
  ℕ, zero, suc, ◌+◌, ◌*◌, ◌-◌, ◌≤◌, ◌≡◌, refl, sym, ap, ◌∙◌, ◌&&◌, List, [], ◌∷◌, ◌==◌, ltb, leb,
  arith, length, take, drop, Bool-cases, inl, inr,
}
use bcp_concept_prototype.Stream.{min, slice, ByteStream, available, clear, read_commit, read}
use bcp_concept_prototype.Stream.Contents.{IsStream, contents, slice-drop, available-length}
use bcp_concept_prototype.Stream.Queue.{Holds, length-contents, front}

drop_all {ℓ} : {A : Type ℓ} (n : ℕ) (xs : List A) → length xs ≤ n → drop n xs ≡ []
drop_all zero [] h = refl
drop_all zero (x ∷ xs) h = absurd (omega arith)
drop_all (suc n) [] h = refl
drop_all (suc n) (x ∷ xs) h = drop_all n xs (omega arith)

take_none {ℓ} : {A : Type ℓ} (n : ℕ) → take {A = A} n [] ≡ []
take_none zero = refl
take_none (suc n) = refl

-- The read position passes the bytes that were read; an empty stream may start over.
read_commit-Holds :
    (m : ℕ) (s : ByteStream)
    → IsStream s
    → s.read_pos + m ≤ s.write_pos
    → Holds (read_commit m s) (drop m (contents s))
unfolding read_commit clear available contents slice
read_commit-Holds m s v h =
    elim (Bool-cases (
      ltb s.buffer_size ((s.read_pos + m) * 2)
      && (available (record s { read_pos = s.read_pos + m }) == 0))) [
        | inl over ↦
            rw (over, read_commit)
              (
                record { ordered = omega arith; inside = omega arith; owned = v.owned },
                sym (drop_all m (contents s) (ground (arith, length-contents s, v.ordered))),
              )
        | inr goes_on ↦
            rw (goes_on, read_commit)
              (
                record { ordered = h; inside = v.inside; owned = v.owned },
                ap (slice s.stream_buffer (s.read_pos + m)) (rest s.read_pos s.write_pos)
                    ∙ slice-drop s.stream_buffer s.read_pos m (s.write_pos - s.read_pos),
              )
      ]
  where
    rest : (r w : ℕ) → w - (r + m) ≡ (w - r) - m
    rest r w = omega arith

drop-min :
    (n : ℕ) (s : ByteStream)
    → IsStream s
    → drop (min (available s) n) (contents s) ≡ drop n (contents s)
drop-min n s v = elim (Bool-cases (leb (available s) n)) [
  | inl all ↦ rw all (
      drop_all (available s) (contents s) (omega (arith, length-contents s, available-length s v))
      ∙ sym (drop_all n (contents s) (ground (arith, length-contents s, available-length s v))))
  | inr some' ↦ rw some' refl
]

-- In a stream whose positions lie in its buffer, read() returns the first bytes that wait, at most
-- as many as it is asked for, and leaves the rest in the stream.
pub read-Holds :
    (n : ℕ) (s : ByteStream)
    → IsStream s
    → ((read n s).1 ≡ take n (contents s)) × Holds (read n s).0 (drop n (contents s))
unfolding read
read-Holds n s v = elim (Bool-cases (available s == 0)) [
  | inl none' ↦
      let empty : contents s ≡ [] =
        no_bytes (contents s) (ground (arith, length-contents s, available-length s v)) in
      rw (none', read)
        (
          sym (ap (take n) empty ∙ take_none n),
          (v, empty ∙ sym (drop_all n (contents s) (omega (arith, ap length empty)))),
        )
  | inr some' ↦
      let (stream, left) =
        read_commit-Holds (min (available s) n) s v
          (ground (arith, available-length s v, v.ordered)) in
      rw (some', read) (front n s v, (stream, left ∙ drop-min n s v))
]
  where
    no_bytes : (xs : List ℕ) → length xs ≡ 0 → xs ≡ []
    no_bytes [] e = refl
    no_bytes (x ∷ xs) e = absurd (omega arith)
