-- ===== src/Pancake/Extents.antt =====
-- How far the loop of `MakeFS` over the extent blocks comes.
use pancake_store.Base.{
  ℕ, zero, suc, ◌+◌, ◌*◌, ◌%◌, ◌^◌, ◌≤◌, ◌<◌, ◌≡◌, refl, none, some, lt→ltb, le→ltb, arith,
}
use native.Mathlib.Decide.{dec_lt}
use pancake_store.Block.Bytes.{k_block_size}
use pancake_store.Layout.{k_extent_block_size, PancakeFsLayoutItem}
use pancake_store.Pancake.{dev_offset, init_extents}

dev_offset_fits :
    (extent_blocks : PancakeFsLayoutItem) (i : ℕ)
    → i < 32
    → (o : ℕ) × (dev_offset extent_blocks i ≡ some o)
unfolding dev_offset
dev_offset_fits extent_blocks i h = (
  (extent_blocks.block_index * k_block_size % 2 ^ 64 + k_extent_block_size * i) % 2 ^ 64,
  rw (lt→ltb (k_extent_block_size * i) (2 ^ 31) (omega (arith, h))) refl,
)

dev_offset_overflows :
    (extent_blocks : PancakeFsLayoutItem) (i : ℕ) → 32 ≤ i → dev_offset extent_blocks i ≡ none
unfolding dev_offset
dev_offset_overflows extent_blocks i h =
    rw (le→ltb (k_extent_block_size * i) (2 ^ 31) (omega (arith, h))) refl

pub init_extents_done :
    (rounds i : ℕ) (extent_blocks : PancakeFsLayoutItem)
    → i + rounds ≤ 32
    → init_extents rounds i extent_blocks ≡ some tt
unfolding init_extents
init_extents_done zero i extent_blocks h = refl
init_extents_done (suc rounds) i extent_blocks h =
    rw ((dev_offset_fits extent_blocks i (omega arith)).1, init_extents)
      (init_extents_done rounds (i + 1) extent_blocks (omega arith))

pub init_extents_overflows :
    (rounds i : ℕ) (extent_blocks : PancakeFsLayoutItem)
    → i ≤ 32
    → 32 < i + rounds
    → init_extents rounds i extent_blocks ≡ none
unfolding init_extents
init_extents_overflows zero i extent_blocks h k = absurd (omega arith)
init_extents_overflows (suc rounds) i extent_blocks h k = elim (dec_lt i 32) [
  | yes l ↦
      rw ((dev_offset_fits extent_blocks i l).1, init_extents)
        (init_extents_overflows rounds (i + 1) extent_blocks (omega arith) (omega arith))
  | no l ↦ rw (dev_offset_overflows extent_blocks i (omega (arith, l)), init_extents) refl
]
