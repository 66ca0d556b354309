-- ===== src/Stream/Shifts.antt =====
-- tests/dev/p2p_server/byte_stream.cpp: the pointers into a byte_stream and its operators << and
-- >>. An int is its 32 bits as a number; a pointer is the memory from it on.
use bcp_concept_prototype.Prelude.{
  ℕ, zero, suc, ◌+◌, ◌*◌, ◌/◌, ◌%◌, ◌<◌, ◌≡◌, refl, sym, ap, ◌∙◌, List, [], ◌∷◌, ◌++◌, arith,
  length, take, drop,
}
use bcp_concept_prototype.Stream.{ByteStream, available, read, write}
use bcp_concept_prototype.Stream.Queue.{Holds, write-Holds}
use bcp_concept_prototype.Stream.Reads.{read-Holds}

unfoldable pub size : ByteStream → ℕ
size s = s.buffer_size

-- read_pos(), write_pos() and peek( len )
unfoldable pub read_pointer : ByteStream → ℕ → ℕ
read_pointer s i = s.stream_buffer (s.read_pos + i)

unfoldable pub write_pointer : ByteStream → ℕ → ℕ
write_pointer s i = s.stream_buffer (s.write_pos + i)

unfoldable pub peek : ByteStream → (ℕ → ℕ) × ℕ
peek s = (read_pointer s, available s)

-- the bytes of a number in memory, the lowest first, and the number of some bytes
unfoldable pub bytes_le : ℕ → ℕ → List ℕ
bytes_le zero v = []
bytes_le (suc n) v = v % 256 ∷ bytes_le n (v / 256)

unfoldable pub number_of : List ℕ → ℕ
number_of [] = 0
number_of (b ∷ bs) = b + 256 * number_of bs

-- operator>>( int& ): the bytes that wait, at most four, replace the first ones of the value
unfoldable pub read_int : ℕ → ByteStream → ByteStream × ℕ
read_int value s =
    let (s', got) = read 4 s in (s', number_of (got ++ drop (length got) (bytes_le 4 value)))

-- operator>> again and again, into variables that held these values
unfoldable pub read_ints : List ℕ → ByteStream → List ℕ
read_ints [] s = []
read_ints (value ∷ values) s = let (s', v) = read_int value s in v ∷ read_ints values s'

module _ (fresh : ℕ → ℕ) where
  -- operator<<( int& ) and operator<<( std::string& ), which writes no length
  unfoldable pub write_int : ℕ → ByteStream → ByteStream
  write_int value s = write fresh (bytes_le 4 value) s

  unfoldable pub write_string : List ℕ → ByteStream → ByteStream
  write_string value s = write fresh value s

  unfoldable pub write_ints : List ℕ → ByteStream → ByteStream
  write_ints [] s = s
  write_ints (v ∷ vs) s = write_ints vs (write_int v s)

-- every number has 32 bits
abbrev pub AllInts : List ℕ → Type 0
AllInts [] = Unit
AllInts (v ∷ vs) = (v < 4294967296) × AllInts vs

unfoldable all_bytes : List ℕ → List ℕ
all_bytes [] = []
all_bytes (v ∷ vs) = bytes_le 4 v ++ all_bytes vs

append_nil : (xs : List ℕ) → xs ++ [] ≡ xs
append_nil [] = refl
append_nil (x ∷ xs) = ap (λ ys. x ∷ ys) (append_nil xs)

pub append_assoc : (xs ys zs : List ℕ) → (xs ++ ys) ++ zs ≡ xs ++ (ys ++ zs)
append_assoc [] ys zs = refl
append_assoc (x ∷ xs) ys zs = ap (λ r. x ∷ r) (append_assoc xs ys zs)

number_of-bytes_le : (v : ℕ) → v < 4294967296 → number_of (bytes_le 4 v) ≡ v
unfolding number_of bytes_le
number_of-bytes_le v l = omega arith

read_int-Holds :
    (old v : ℕ) (s : ByteStream) (rest : List ℕ)
    → v < 4294967296
    → Holds s (bytes_le 4 v ++ rest)
    → ((read_int old s).1 ≡ v) × Holds (read_int old s).0 rest
unfolding read_int bytes_le
read_int-Holds old v s rest l (stream, e) =
    let (got, left) = read-Holds 4 s stream in
    (rw (got ∙ ap (take 4) e) (number_of-bytes_le v l), (left.0, left.1 ∙ ap (drop 4) e))

write_ints-Holds :
    (fresh : ℕ → ℕ) (vs : List ℕ) (s : ByteStream) (bs : List ℕ)
    → Holds s bs
    → Holds (write_ints fresh vs s) (bs ++ all_bytes vs)
unfolding write_ints write_int all_bytes
write_ints-Holds fresh [] s bs (v, e) = (v, e ∙ sym (append_nil bs))
write_ints-Holds fresh (v ∷ vs) s bs (st, e) =
    let (st', e') = write-Holds fresh (bytes_le 4 v) s st in
    let (a, b) =
      write_ints-Holds fresh vs (write fresh (bytes_le 4 v) s) (bs ++ bytes_le 4 v)
        (st', e' ∙ ap (λ r. r ++ bytes_le 4 v) e) in
    (a, b ∙ append_assoc bs (bytes_le 4 v) (all_bytes vs))

read_ints-Holds :
    (olds vs : List ℕ) (s : ByteStream)
    → length olds ≡ length vs
    → AllInts vs
    → Holds s (all_bytes vs)
    → read_ints olds s ≡ vs
unfolding read_ints all_bytes
read_ints-Holds [] [] s n l h = refl
read_ints-Holds [] (v ∷ vs) s n l h = absurd (omega (arith, n))
read_ints-Holds (o ∷ os) [] s n l h = absurd (omega (arith, n))
read_ints-Holds (o ∷ os) (v ∷ vs) s n l h =
    let (e, rest) = read_int-Holds o v s (all_bytes vs) l.0 h in
    ap (λ x. x ∷ read_ints os (read_int o s).0) e
    ∙ ap (λ r. v ∷ r) (read_ints-Holds os vs (read_int o s).0 (omega (arith, n)) l.1 rest)

-- Ints of 32 bits that operator<< puts into an empty stream, one after another, operator>> gives
-- back in their order, whatever the variables held that it reads into.
pub read_ints-write_ints :
    (fresh : ℕ → ℕ) (vs olds : List ℕ) (s : ByteStream)
    → Holds s []
    → AllInts vs
    → length olds ≡ length vs
    → read_ints olds (write_ints fresh vs s) ≡ vs
read_ints-write_ints fresh vs olds s h l n =
    read_ints-Holds olds vs (write_ints fresh vs s) n l (write_ints-Holds fresh vs s [] h)
