-- ===== src/P2p/Frames.antt =====
-- tests/dev/p2p_server: the messages that a sequence of bytes consists of, as their headers have
-- their sizes. This describes what the readers are for; no function of the source computes it.
use bcp_concept_prototype.Prelude.{
  false, ℕ, zero, suc, ◌+◌, ◌≤◌, ◌<◌, ◌≡◌, refl, ap, sym, ◌∙◌, Bool, true, ◌&&◌, List, [], ◌∷◌,
  ◌++◌, leb, length, length-append, length-take, length-drop, take-append-drop, Bool-cases, inl,
  inr, get_or, take, drop, arith, le→leb, if◌then◌else◌,
}
use bcp_concept_prototype.Message.{header_size, valid}
use bcp_concept_prototype.Message.Sizes.{payload_size-valid}
use bcp_concept_prototype.Stream.{slice, copy_to}
use bcp_concept_prototype.Stream.Shifts.{append_assoc}
use bcp_concept_prototype.Stream.Contents.{length-slice}
use bcp_concept_prototype.Wire.Udp.{Memory, cast_message}
use bcp_concept_prototype.Wire.Datagrams.{cast_message-same}
use bcp_concept_prototype.P2p.Row.{copy_to-start}
use bcp_concept_prototype.P2p.Header.{header_in}

-- a whole message with a valid header at the start
unfoldable pub whole : List ℕ → Bool
whole bytes =
    leb header_size (length bytes)
    && valid (header_in bytes)
    && leb (header_in bytes).size (length bytes)

-- The fuel counts messages.
unfoldable pub frames : ℕ → List ℕ → List (List ℕ)
frames zero bytes = []
frames (suc fuel) bytes =
    let rest = frames fuel (drop (header_in bytes).size bytes) in
    if whole bytes then take (header_in bytes).size bytes ∷ rest else []

-- the bytes of a message, as they are sent
abbrev pub sent : Memory → List ℕ
sent m = slice m 0 (cast_message m).size

unfoldable pub stream_of : List Memory → List ℕ
stream_of [] = []
stream_of (m ∷ ms) = sent m ++ stream_of ms

abbrev pub all_sent : List Memory → List (List ℕ)
all_sent [] = []
all_sent (m ∷ ms) = sent m ∷ all_sent ms

abbrev pub AllValid : List Memory → Type 0
AllValid [] = Unit
AllValid (m ∷ ms) = (valid (cast_message m) ≡ true) × AllValid ms

module _ {ℓ} {A : Type ℓ} where
  pub take-append : (xs ys : List A) → take (length xs) (xs ++ ys) ≡ xs
  take-append [] ys = refl
  take-append (x ∷ xs) ys = ap (λ zs. x ∷ zs) (take-append xs ys)

  pub drop-append : (xs ys : List A) → drop (length xs) (xs ++ ys) ≡ ys
  drop-append [] ys = refl
  drop-append (x ∷ xs) ys = drop-append xs ys

  take_prefix : (n : ℕ) (xs ys : List A) → n ≤ length xs → take n (xs ++ ys) ≡ take n xs
  take_prefix zero xs ys l = refl
  take_prefix (suc n) [] ys l = absurd (omega arith)
  take_prefix (suc n) (x ∷ xs) ys l = ap (λ zs. x ∷ zs) (take_prefix n xs ys (omega arith))

pub get_or-slice : (f : Memory) (at n i : ℕ) → i < n → get_or (slice f at n) i 0 ≡ f (at + i)
unfolding slice
get_or-slice f at zero i l = absurd (omega arith)
get_or-slice f at (suc n) zero l = ap f (omega arith)
get_or-slice f at (suc n) (suc i) l = get_or-slice f (suc at) n i (omega arith) ∙ ap f (omega arith)

get_or-take : (n i : ℕ) (xs : List ℕ) → i < n → get_or (take n xs) i 0 ≡ get_or xs i 0
get_or-take zero i xs l = absurd (omega arith)
get_or-take (suc n) i [] l = refl
get_or-take (suc n) zero (x ∷ xs) l = refl
get_or-take (suc n) (suc i) (x ∷ xs) l = get_or-take n i xs (omega arith)

get_or-append : (i : ℕ) (xs ys : List ℕ) → i < length xs → get_or (xs ++ ys) i 0 ≡ get_or xs i 0
get_or-append i [] ys l = absurd (omega arith)
get_or-append zero (x ∷ xs) ys l = refl
get_or-append (suc i) (x ∷ xs) ys l = get_or-append i xs ys (omega arith)

sent_fits : (m : Memory) (rest : List ℕ) → (cast_message m).size ≤ length (sent m ++ rest)
sent_fits m rest =
    omega (arith, length-append (sent m) rest, length-slice m 0 (cast_message m).size)

-- Bytes that begin with a message have its header.
header_in-sent :
    (m : Memory) (rest : List ℕ)
    → header_size ≤ (cast_message m).size
    → header_in (sent m ++ rest) ≡ cast_message m
unfolding header_in
header_in-sent m rest l =
    cast_message-same (copy_to (λ _. 0) 0 (take header_size (sent m ++ rest))) m λ i k.
      copy_to-start (λ _. 0) i (take header_size (sent m ++ rest))
        (omega (arith, length-take header_size (sent m ++ rest), sent_fits m rest))
      ∙ get_or-take header_size i (sent m ++ rest) k
      ∙ get_or-append i (sent m) rest (omega (arith, length-slice m 0 (cast_message m).size))
      ∙ get_or-slice m 0 (cast_message m).size i (omega arith)
      ∙ ap m (omega arith)

frames_cons :
    (fuel : ℕ) (m : Memory) (rest : List ℕ)
    → valid (cast_message m) ≡ true
    → frames (suc fuel) (sent m ++ rest) ≡ sent m ∷ frames fuel rest
unfolding frames whole
frames_cons fuel m rest v =
    let (e, small) = payload_size-valid (cast_message m) v in
    let n = length-slice m 0 (cast_message m).size in
    let h = header_in-sent m rest (omega (arith, e)) in
    rw
      (
        h,
        v,
        le→leb header_size (length (sent m ++ rest)) (omega (arith, e, sent_fits m rest)),
        le→leb (cast_message m).size (length (sent m ++ rest)) (sent_fits m rest),
      )
      (ap (λ k. take k (sent m ++ rest) ∷ frames fuel (drop k (sent m ++ rest))) (sym n)
        ∙ ap (λ x. x ∷ frames fuel (drop (length (sent m)) (sent m ++ rest)))
            (take-append (sent m) rest)
        ∙ ap (λ x. sent m ∷ frames fuel x) (drop-append (sent m) rest))

frames_nil : (fuel : ℕ) → frames fuel [] ≡ []
unfolding frames whole
frames_nil zero = refl
frames_nil (suc fuel) = refl

-- Messages with valid headers, one after another, are found again in their order.
pub frames-stream_of :
    (fuel : ℕ) (ms : List Memory)
    → AllValid ms
    → length ms ≤ fuel
    → frames fuel (stream_of ms) ≡ all_sent ms
unfolding stream_of
frames-stream_of fuel [] v l = frames_nil fuel
frames-stream_of zero (m ∷ ms) v l = absurd (omega arith)
frames-stream_of (suc fuel) (m ∷ ms) v l =
    frames_cons fuel m (stream_of ms) v.0
    ∙ ap (λ fs. sent m ∷ fs) (frames-stream_of fuel ms v.1 (omega arith))

-- the bytes of some messages, one after another, and the bytes behind the messages
unfoldable pub joined : List (List ℕ) → List ℕ
joined [] = []
joined (f ∷ fs) = f ++ joined fs

unfoldable pub left_over : ℕ → List ℕ → List ℕ
left_over zero bytes = bytes
left_over (suc fuel) bytes =
    let rest = left_over fuel (drop (header_in bytes).size bytes) in
    if whole bytes then rest else bytes

-- The messages and what is left are all the bytes.
pub joined-frames :
    (fuel : ℕ) (bytes : List ℕ) → joined (frames fuel bytes) ++ left_over fuel bytes ≡ bytes
unfolding joined left_over frames
joined-frames zero bytes = refl
joined-frames (suc fuel) bytes = elim (Bool-cases (whole bytes)) [
  | inl w ↦
      rw (frames, left_over, w)
        (append_assoc (take (header_in bytes).size bytes)
            (joined (frames fuel (drop (header_in bytes).size bytes)))
            (left_over fuel (drop (header_in bytes).size bytes))
          ∙ ap (λ r. take (header_in bytes).size bytes ++ r)
              (joined-frames fuel (drop (header_in bytes).size bytes))
          ∙ take-append-drop (header_in bytes).size bytes)
  | inr w ↦ rw (frames, left_over, w) refl
]

whole-long : (bytes : List ℕ) → whole bytes ≡ true → header_size ≤ (header_in bytes).size
unfolding whole
whole-long bytes w =
    let v : valid (header_in bytes) ≡ true = ground (arith, w) in
    let (e, small) = payload_size-valid (header_in bytes) v in omega (arith, e)

-- With fuel for each byte, what is left is no whole message.
pub left_over_ends :
    (fuel : ℕ) (bytes : List ℕ) → length bytes ≤ fuel → whole (left_over fuel bytes) ≡ false
unfolding left_over
left_over_ends zero [] l = unfold whole in refl
left_over_ends zero (b ∷ bs) l = absurd (omega arith)
left_over_ends (suc fuel) bytes l = elim (Bool-cases (whole bytes)) [
  | inl w ↦
      rw (left_over, w)
        (left_over_ends fuel (drop (header_in bytes).size bytes)
          (omega (arith, whole-long bytes w, length-drop (header_in bytes).size bytes)))
  | inr w ↦ rw (left_over, w) w
]
