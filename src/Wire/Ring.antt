-- ===== src/Wire/Ring.antt =====
-- bryllite-core/socket_buffer.hpp: calls of next() walk the rows in a ring.
use bcp_concept_prototype.Prelude.{
  ℕ, zero, suc, ◌+◌, ◌%◌, ◌<◌, ◌≡◌, refl, sym, ap, ◌∙◌, some, arith, lt→ltb,
}
use native.Mathlib.Nat.{mod-lt, zero-mod, mod-add-mod}
use bcp_concept_prototype.Wire.{SocketBuffer, socket_buffer, get, next_pos, next}

module _ (count length : ℕ) where
  -- what a number of calls of next() makes of a new buffer
  unfoldable pub after : ℕ → SocketBuffer
  unfolding next socket_buffer
  after zero = socket_buffer
  after (suc n) = (next count length (after n)).0

  position : (n : ℕ) → (after n).current_pos ≡ n % count
  unfolding after socket_buffer next next_pos
  position zero = sym (zero-mod count)
  position (suc n) =
      ap (λ k. (k + 1) % count) (position n)
      ∙ mod-add-mod n count 1
      ∙ ap (λ k. k % count) (omega arith)

  get-inside : (b : SocketBuffer) → b.current_pos < count → get count length b ≡ some b.current_pos
  unfolding get
  get-inside b l = rw (lt→ltb _ _ l) refl

  get-after : (n : ℕ) → 0 < count → get count length (after n) ≡ some (n % count)
  get-after n p =
      get-inside (after n) (omega (arith, position n, mod-lt n p)) ∙ ap some (position n)

  -- With at least one row, n calls of next() on a new buffer leave it at the row n modulo the
  -- number of rows: get() gives that row, never a null pointer, and the call n + 1 returns the row
  -- that get() gives after it.
  pub next-mod :
      (n : ℕ)
      → 0 < count
      → (get count length (after n) ≡ some (n % count))
        × ((next count length (after n)).1 ≡ some ((n + 1) % count))
  unfolding after next next_pos
  next-mod n p = (get-after n p, get-after (suc n) p ∙ ap (λ k. some (k % count)) (omega arith))
