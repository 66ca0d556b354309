-- ===== src/P2p/NotifyRead.antt =====
-- tests/dev/p2p_server/peer_message.inl and node_server.cpp: what a node reads of a notify.
use bcp_concept_prototype.Prelude.{
  ℕ, zero, suc, ◌+◌, ◌-◌, ◌/◌, ◌%◌, ◌≤◌, ◌<◌, ◌≡◌, refl, sym, ap, ◌∙◌, some, List, [], ◌∷◌, ◌++◌,
  arith, length, Option-cases, inl, inr, take, drop, get_or, length-replicate, lt→ltb,
}
use bcp_concept_prototype.Message.{
  message_header, header_size, copy_string, c_string, memset_zero, memcpy,
}
use bcp_concept_prototype.Message.Text.{IsText, copy_string-c_string}
use bcp_concept_prototype.Stream.{slice}
use bcp_concept_prototype.Stream.Contents.{slice-split, slice-take, slice-drop}
use bcp_concept_prototype.Stream.Shifts.{bytes_le}
use bcp_concept_prototype.Wire.Udp.{Memory, number_at}
use bcp_concept_prototype.P2p.Frames.{take-append, drop-append}
use bcp_concept_prototype.P2p.Session.{max_buffer_size}
use bcp_concept_prototype.P2p.Peers.{PeerInfo}
use bcp_concept_prototype.P2p.Notify.{
  header_bytes, notify_bytes, notify_size, node_message_peer_notify_id, text_at, node_id_at,
  peer_info_at, max_peer_id_length, max_host_length,
}

-- A text that ends in some bytes ends there whatever follows.
c_string-append : (xs ys s : List ℕ) → c_string xs ≡ some s → c_string (xs ++ ys) ≡ some s
unfolding c_string
c_string-append [] ys s e = absurd (ground arith)
c_string-append (x ∷ xs) ys s e = elim (Option-cases (c_string xs)) [
  | inl n ↦ ground (arith, e, n)
  | inr (t, n) ↦ ground (arith, e, n, c_string-append xs ys t n)
]

number_at-bytes_le :
    (row : Memory) (at v : ℕ) → slice row at 2 ≡ bytes_le 2 v → v < 65536 → number_at row at 2 ≡ v
unfolding slice bytes_le number_at
number_at-bytes_le row at v e l =
    let low : row at ≡ v % 256 = ap (λ bs. get_or bs 0 0) e in
    let high : row (suc at) ≡ v / 256 % 256 = ap (λ bs. get_or bs 1 0) e in omega (arith, low, high)

pub length-bytes_le : (n v : ℕ) → length (bytes_le n v) ≡ n
unfolding bytes_le
length-bytes_le zero v = refl
length-bytes_le (suc n) v = ap suc (length-bytes_le n (v / 256))

length-memcpy : (t s : List ℕ) (n : ℕ) → length (memcpy t s n) ≡ length t
unfolding memcpy
length-memcpy t s zero = refl
length-memcpy [] s (suc n) = refl
length-memcpy (b ∷ t) [] (suc n) = refl
length-memcpy (b ∷ t) (c ∷ s) (suc n) = ap suc (length-memcpy t s n)

-- What a row holds behind its first bytes.
pub slice_append :
    (row : Memory) (at m n : ℕ) (xs ys : List ℕ)
    → slice row at (m + n) ≡ xs ++ ys
    → length xs ≡ m
    → (slice row at m ≡ xs) × (slice row (at + m) n ≡ ys)
slice_append row at m n xs ys e l = (
  slice-take row at m (m + n) (omega arith)
      ∙ ap (take m) e
      ∙ ap (λ k. take k (xs ++ ys)) (sym l)
      ∙ take-append xs ys,
  ap (slice row (at + m)) (behind m n)
      ∙ slice-drop row at m (m + n)
      ∙ ap (drop m) e
      ∙ ap (λ k. drop k (xs ++ ys)) (sym l)
      ∙ drop-append xs ys,
)
  where
    behind : (m n : ℕ) → n ≡ m + n - m
    behind m n = omega arith

pub length-copy_string : (n : ℕ) (s : List ℕ) (k : ℕ) → length (copy_string n s k) ≡ n
unfolding copy_string
length-copy_string n s k = length-memcpy (memset_zero n) s _ ∙ length-replicate n 0

text_at-copy_string :
    (row : Memory) (at n : ℕ) (s : List ℕ)
    → slice row at n ≡ copy_string n s (length s)
    → IsText s
    → length s < n
    → at + n ≤ max_buffer_size + 1
    → text_at row at ≡ some s
unfolding text_at
text_at-copy_string row at n s e t l fits =
    let rest = max_buffer_size + 1 - at - n in
    let whole : max_buffer_size + 1 - at ≡ n + rest = omega arith in
    ap (λ k. c_string (slice row at k)) whole
    ∙ ap c_string (slice-split row at n rest)
    ∙ c_string-append (slice row at n) (slice row (at + n) rest) s
        (ap c_string e ∙ copy_string-c_string n s t ∙ rw (lt→ltb (length s) n l) refl)

pub length-header_bytes :
    (msgid size : ℕ) → length (header_bytes (message_header msgid size)) ≡ header_size
unfolding header_bytes message_header bytes_le
length-header_bytes msgid size = refl

-- A notify of a peer whose id has at most 31 characters and whose host at most 15, none of them
-- zero, and whose port is an unsigned short, reads back as the data of the peer, whatever the row
-- holds behind the message.
pub peer_info_at-notify_bytes :
    (row : Memory) (info : PeerInfo)
    → slice row 0 notify_size ≡ notify_bytes info
    → IsText info.peer_id
    → length info.peer_id < max_peer_id_length
    → IsText info.host
    → length info.host < max_host_length
    → info.port < 65536
    → (node_id_at row ≡ some info.peer_id) × (peer_info_at row ≡ some info)
unfolding notify_bytes node_id_at text_at peer_info_at
peer_info_at-notify_bytes row info e ti li th lh lp =
    let header = header_bytes (message_header node_message_peer_notify_id notify_size) in
    let id = copy_string max_peer_id_length info.peer_id (length info.peer_id) in
    let host = copy_string max_host_length info.host (length info.host) in
    let port = bytes_le 2 info.port in
    let (a, b) =
      slice_append row 0 14 50 header (id ++ (host ++ port)) e (length-header_bytes _ _) in
    let (c, d) = slice_append row 14 32 18 id (host ++ port) b (length-copy_string _ _ _) in
    let (f, g) = slice_append row 46 16 2 host port d (length-copy_string _ _ _) in
    let node = text_at-copy_string row 14 32 info.peer_id c ti li (omega arith) in
    let at = text_at-copy_string row 46 16 info.host f th lh (omega arith) in
    (node, rw (peer_info_at, node_id_at, node, at, number_at-bytes_le row 62 info.port g lp) refl)
