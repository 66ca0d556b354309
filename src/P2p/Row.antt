-- ===== src/P2p/Row.antt =====
-- tests/dev/p2p_server/p2p_server.cpp: what a row holds after the header and the body of a message
-- have been read into it.
use bcp_concept_prototype.Prelude.{
  ℕ, zero, suc, ◌+◌, ◌<◌, ◌≡◌, refl, sym, ap, ◌∙◌, List, [], ◌∷◌, ◌++◌, arith, length, get_or, take,
  drop,
}
use bcp_concept_prototype.Message.{header_size}
use bcp_concept_prototype.Stream.{slice, copy_to}
use bcp_concept_prototype.Stream.Contents.{copy_to-before, slice-past, slice-written, slice-split}
use bcp_concept_prototype.Wire.Udp.{Memory, cast_message}
use bcp_concept_prototype.Wire.Datagrams.{cast_message-same}

copy_to-inside :
    (f : Memory) (at i : ℕ) (bs : List ℕ) → i < length bs → copy_to f at bs (at + i) ≡ get_or bs i 0
unfolding copy_to
copy_to-inside f at i [] l = absurd (omega arith)
copy_to-inside f at zero (b ∷ bs) l = ground arith
copy_to-inside f at (suc i) (b ∷ bs) l =
    ground (arith, copy_to-inside f (suc at) i bs (omega arith))

same_start :
    (f g : Memory) (i : ℕ) (bs : List ℕ) → i < length bs → copy_to f 0 bs i ≡ copy_to g 0 bs i
same_start f g i bs l =
    let z : i ≡ 0 + i = omega arith in
    ap (copy_to f 0 bs) z
    ∙ copy_to-inside f 0 i bs l
    ∙ sym (copy_to-inside g 0 i bs l)
    ∙ ap (copy_to g 0 bs) (sym z)

-- A header of 14 bytes at the start of a memory is read whatever the memory held.
pub cast_message-start :
    (f g : Memory) (header : List ℕ)
    → length header ≡ header_size
    → cast_message (copy_to f 0 header) ≡ cast_message (copy_to g 0 header)
cast_message-start f g header e =
    cast_message-same (copy_to f 0 header) (copy_to g 0 header)
      (λ i l. same_start f g i header (omega (arith, e)))

-- The body does not change it.
pub cast_message-body :
    (f : Memory) (body : List ℕ) → cast_message (copy_to f header_size body) ≡ cast_message f
cast_message-body f body =
    cast_message-same (copy_to f header_size body) f (λ i l. copy_to-before f header_size i body l)

pub slice-row :
    (f : Memory) (header body : List ℕ)
    → length header ≡ header_size
    → slice (copy_to (copy_to f 0 header) header_size body) 0 (header_size + length body)
      ≡ header ++ body
slice-row f header body e =
    let row = copy_to (copy_to f 0 header) header_size body in
    slice-split row 0 header_size (length body)
    ∙ ap (λ x. x ++ slice row header_size (length body))
        (slice-past (copy_to f 0 header) header_size 0 header_size body (omega arith)
          ∙ ap (slice (copy_to f 0 header) 0) (sym e)
          ∙ slice-written f 0 header)
    ∙ ap (λ x. header ++ x) (slice-written (copy_to f 0 header) header_size body)

module _ {ℓ} {A : Type ℓ} where
  take_nil : (n : ℕ) → take {A = A} n [] ≡ []
  take_nil zero = refl
  take_nil (suc n) = refl

  drop_nil : (n : ℕ) → drop {A = A} n [] ≡ []
  drop_nil zero = refl
  drop_nil (suc n) = refl

  pub take-drop : (m n : ℕ) (xs : List A) → take m xs ++ take n (drop m xs) ≡ take (m + n) xs
  take-drop zero n xs = ap (λ k. take k xs) (omega arith)
  take-drop (suc m) n [] = take_nil n ∙ sym (take_nil (suc m + n))
  take-drop (suc m) n (x ∷ xs) =
      ap (λ ys. x ∷ ys) (take-drop m n xs) ∙ ap (λ k. take k (x ∷ xs)) (shift m n)
    where
      shift : (m n : ℕ) → suc (m + n) ≡ suc m + n
      shift m n = omega arith

  pub drop-drop : (m n : ℕ) (xs : List A) → drop n (drop m xs) ≡ drop (m + n) xs
  drop-drop zero n xs = ap (λ k. drop k xs) (omega arith)
  drop-drop (suc m) n [] = drop_nil n ∙ sym (drop_nil (suc m + n))
  drop-drop (suc m) n (x ∷ xs) = drop-drop m n xs ∙ ap (λ k. drop k (x ∷ xs)) (shift m n)
    where
      shift : (m n : ℕ) → suc (m + n) ≡ suc m + n
      shift m n = omega arith

-- What a memory begins with after a copy to its start.
pub copy_to-start :
    (f : Memory) (i : ℕ) (bs : List ℕ) → i < length bs → copy_to f 0 bs i ≡ get_or bs i 0
copy_to-start f i bs l =
    let z : i ≡ 0 + i = omega arith in ap (copy_to f 0 bs) z ∙ copy_to-inside f 0 i bs l
