-- ===== src/Layout/Regions.antt =====
-- How the regions of a layout lie to one another and to the device.
use pancake_store.Base.{ℕ, ◌+◌, ◌*◌, ◌/◌, ◌^◌, ◌≤◌, ◌<◌, ◌≡◌, ◌↔◌, arith}
use pancake_store.Block.Bytes.{k_block_size, k_block_data_size}
use pancake_store.Layout.{
  k_extent_block_size, k_min_device_size, PancakeFsLayoutItem, extent_block_count,
  bitmap_block_count, build_layout,
}

extent_block_count-lt : (size : ℕ) → extent_block_count size < 2 ^ 32
unfolding extent_block_count
extent_block_count-lt size = omega arith

-- The blocks counted for a bitmap have one byte for each extent block, and there is none to spare.
pub bitmap_block_count_fits :
    (count : ℕ)
    → (count ≤ bitmap_block_count count * k_block_data_size)
      × (bitmap_block_count count * k_block_data_size < count + k_block_data_size)
unfolding bitmap_block_count
bitmap_block_count_fits count = ground arith

-- A region ends where the next begins.
abbrev pub Follows : PancakeFsLayoutItem → PancakeFsLayoutItem → Type 0
Follows a b = a.block_index + a.block_count ≡ b.block_index

-- On a device of any size the first four regions and the padding behind them follow one another
-- from block 0 on, and the extents begin at block 16384, 64 MiB into the device. The bitmap region
-- has one byte for each extent block, and no block to spare.
pub build_layout_contiguous :
    (size : ℕ)
    → let l = build_layout size in
      (l.start_padding_item.block_index ≡ 0)
      × Follows l.start_padding_item l.super_block_item
      × Follows l.super_block_item l.super_block_backup_item
      × Follows l.super_block_backup_item l.extent_bit_map_item
      × Follows l.extent_bit_map_item l.padding_blocks_item
      × (l.extent_blocks_item.block_index * k_block_size ≡ k_extent_block_size)
      × (l.extent_blocks_item.block_count ≤ l.extent_bit_map_item.block_count * k_block_data_size)
      × (l.extent_bit_map_item.block_count * k_block_data_size
          < l.extent_blocks_item.block_count + k_block_data_size)
unfolding build_layout
build_layout_contiguous size =
    omega (arith, bitmap_block_count_fits (extent_block_count size), extent_block_count-lt size)

-- On a device of any size the bitmap ends before the extents begin, and the padding between them
-- ends where they begin, exactly when there are at most 66560192 extent blocks: 16378 blocks of
-- bitmap with 4064 bytes each.
pub build_layout_disjoint_iff :
    (size : ℕ)
    → let l = build_layout size in
      (l.extent_bit_map_item.block_index + l.extent_bit_map_item.block_count
          ≤ l.extent_blocks_item.block_index)
        × Follows l.padding_blocks_item l.extent_blocks_item
      ↔ (extent_block_count size ≤ 66560192)
unfolding build_layout
build_layout_disjoint_iff size = (
  λ h. omega (arith, bitmap_block_count_fits (extent_block_count size), extent_block_count-lt size),
  λ h. omega (arith, bitmap_block_count_fits (extent_block_count size)),
)

-- The extent blocks that are laid out do not fit a device that `MakeFS` accepts and whose blocks
-- can be counted in 32 bits: they end beyond it.
pub build_layout_exceeds_device :
    (size : ℕ)
    → k_min_device_size ≤ size
    → size / k_block_data_size ≤ 2 ^ 32
    → let l = build_layout size in
      size
      < l.extent_blocks_item.block_index * k_block_size
        + l.extent_blocks_item.block_count * k_extent_block_size
unfolding build_layout extent_block_count
build_layout_exceeds_device size big small =
    omega (arith, bitmap_block_count_fits (extent_block_count size))
