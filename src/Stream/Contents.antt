-- ===== src/Stream/Contents.antt =====
-- tests/dev/p2p_server/byte_stream.cpp: the bytes that wait in a stream, under each operation.
use bcp_concept_prototype.Prelude.{
  ℕ, zero, suc, ◌+◌, ◌-◌, ◌≤◌, ◌<◌, ◌≡◌, refl, ap, ◌∙◌, true, List, [], ◌∷◌, ◌++◌, arith, length,
  take, drop,
}
use bcp_concept_prototype.Stream.{slice, copy_to, ByteStream, available}

-- The positions lie in the buffer, and there is a buffer unless its size is zero.
pub record IsStream (s : ByteStream) : Type 0 where
  pub ordered : s.read_pos ≤ s.write_pos
  pub inside : s.write_pos ≤ s.buffer_size
  pub owned : 0 < s.buffer_size → s.has_buffer ≡ true

-- The bytes that wait to be read.
unfoldable pub contents : ByteStream → List ℕ
contents s = slice s.stream_buffer s.read_pos (s.write_pos - s.read_pos)

pub copy_to-before : (f : ℕ → ℕ) (at i : ℕ) (bs : List ℕ) → i < at → copy_to f at bs i ≡ f i
unfolding copy_to
copy_to-before f at i [] l = refl
copy_to-before f at i (b ∷ bs) l = ground (arith, copy_to-before f (suc at) i bs (omega arith))

slice-same :
    (f g : ℕ → ℕ) (p n : ℕ) → ((i : ℕ) → p ≤ i → i < p + n → f i ≡ g i) → slice f p n ≡ slice g p n
unfolding slice
slice-same f g p zero h = refl
slice-same f g p (suc n) h =
    ap (λ b. b ∷ slice f (suc p) n) (h p (omega arith) (omega arith))
    ∙ ap (λ r. g p ∷ r) (slice-same f g (suc p) n (λ i a b. h i (omega arith) (omega arith)))

-- Bytes written behind a slice leave it.
pub slice-past :
    (f : ℕ → ℕ) (at p n : ℕ) (bs : List ℕ) → p + n ≤ at → slice (copy_to f at bs) p n ≡ slice f p n
slice-past f at p n bs h =
    slice-same (copy_to f at bs) f p n (λ i a b. copy_to-before f at i bs (omega arith))

pub slice-written : (f : ℕ → ℕ) (at : ℕ) (bs : List ℕ) → slice (copy_to f at bs) at (length bs) ≡ bs
unfolding slice
slice-written f at [] = refl
slice-written f at (b ∷ bs) =
    ap (λ x. x ∷ slice (copy_to f at (b ∷ bs)) (suc at) (length bs)) head
    ∙ ap (λ r. b ∷ r)
        (slice-same (copy_to f at (b ∷ bs)) (copy_to f (suc at) bs) (suc at) (length bs)
            (λ i l u. later i l)
          ∙ slice-written f (suc at) bs)
  where
    head : copy_to f at (b ∷ bs) at ≡ b
    head = unfold copy_to in ground arith

    later : (i : ℕ) → suc at ≤ i → copy_to f at (b ∷ bs) i ≡ copy_to f (suc at) bs i
    later i l = unfold copy_to in ground arith

pub slice-split : (f : ℕ → ℕ) (p m n : ℕ) → slice f p (m + n) ≡ slice f p m ++ slice f (p + m) n
unfolding slice
slice-split f p zero n = ground arith
slice-split f p (suc m) n =
    ap (slice f p) (suc_plus m n)
    ∙ ap (λ r. f p ∷ r) (slice-split f (suc p) m n)
    ∙ ap (λ q. f p ∷ (slice f (suc p) m ++ slice f q n)) (shifted p m)
  where
    suc_plus : (a b : ℕ) → suc a + b ≡ suc (a + b)
    suc_plus a b = omega arith

    shifted : (a b : ℕ) → suc a + b ≡ a + suc b
    shifted a b = omega arith

pub slice-take : (f : ℕ → ℕ) (p m n : ℕ) → m ≤ n → slice f p m ≡ take m (slice f p n)
unfolding slice
slice-take f p zero n h = refl
slice-take f p (suc m) zero h = absurd (omega arith)
slice-take f p (suc m) (suc n) h = ap (λ r. f p ∷ r) (slice-take f (suc p) m n (omega arith))

pub slice-drop : (f : ℕ → ℕ) (p m n : ℕ) → slice f (p + m) (n - m) ≡ drop m (slice f p n)
unfolding slice
slice-drop f p zero n = ground arith
slice-drop f p (suc m) zero = ground arith
slice-drop f p (suc m) (suc n) = ground (arith, slice-drop f (suc p) m n)

pub length-slice : (f : ℕ → ℕ) (p n : ℕ) → length (slice f p n) ≡ n
unfolding slice
length-slice f p zero = refl
length-slice f p (suc n) = omega (arith, length-slice f (suc p) n)

pub available-length : (s : ByteStream) → IsStream s → available s ≡ s.write_pos - s.read_pos
unfolding available
available-length s v = ground (arith, v.ordered)
