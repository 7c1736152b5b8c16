-- ===== src/SlotArray/Moves.antt =====
-- slot_array.h: the element-wise moves over overlapping ranges act as if done at once.
use foster_btree.Prelude.{ℕ, zero, suc, ◌+◌, ◌-◌, ◌≤◌, ◌≡◌, ◌&&◌, leb, ltb, if◌then◌else◌, arith}
use foster_btree.SlotArray.Defs.{write_at, move_forward, move_backward}

module _ {A : Type 0} where
  -- `memmove`: afterwards `to .. to + count` holds what `from .. from + count` held before.
  abbrev pub memmove : (to from count : ℕ) → (ℕ → A) → ℕ → A
  memmove to from count f i = if leb to i && ltb i (to + count) then f (from + (i - to)) else f i

  -- `std::move` to a position not after the source has the effect of a simultaneous move, though
  -- the ranges overlap.
  pub move_forward-at :
      (to from count : ℕ) (f : ℕ → A) (i : ℕ)
      → to ≤ from
      → move_forward to from count f i ≡ memmove to from count f i
  unfolding move_forward
  move_forward-at to from zero f i h = ground arith
  move_forward-at to from (suc count) f i h =
      ground (arith, move_forward-at (suc to) (suc from) count (write_at f to (f from)) i)

  -- `std::move_backward` to a position not before the source has the effect of a simultaneous move,
  -- though the ranges overlap.
  pub move_backward-at :
      (to from count : ℕ) (f : ℕ → A) (i : ℕ)
      → from ≤ to
      → move_backward to from count f i ≡ memmove to from count f i
  unfolding move_backward
  move_backward-at to from zero f i h = ground arith
  move_backward-at to from (suc count) f i h =
      ground (arith, move_backward-at to from count (write_at f (to + count) (f (from + count))) i)
