-- ===== src/ExtentMgr/FromLayout.antt =====
-- The manager of the regions that `BuildLayout` lays out.
use pancake_store.Base.{
  ℕ, ◌+◌, ◌*◌, ◌%◌, ◌^◌, ◌≤◌, ◌<◌, ◌≡◌, refl, sym, ap, false, [], ltb, le→ltb, eq→==, arith,
}
use mathlib.Core.Path.{subst}
use pancake_store.Comm.ErrorCode.{ErrorCode, pancake_store_ok}
use pancake_store.Block.Bytes.{k_block_size, k_block_data_size}
use pancake_store.Io.{is_block_align}
use pancake_store.Layout.{
  sizeof_uint8, k_extent_block_size, extent_block_count, bitmap_block_count, build_layout,
  PancakeLayout,
}
use pancake_store.Layout.Regions.{bitmap_block_count_fits}
use pancake_store.ExtentMgr.{ExtentManager, new_manager, init, resize}
use pancake_store.ExtentMgr.Init.{valid}
use pancake_store.ExtentMgr.Calls.{Laid}

-- `Init` with the bitmap's and the extents' regions of a layout, in bytes where it takes offsets.
abbrev pub init_of : PancakeLayout → ErrorCode × ExtentManager
init_of l =
    init new_manager (l.extent_bit_map_item.block_index * k_block_size)
      l.extent_bit_map_item.block_count l.extent_blocks_item.block_count k_extent_block_size
      (l.extent_blocks_item.block_index * k_block_size)

-- The manager after an `Init` that is accepted.
abbrev managed : ℕ → ℕ → ℕ → ℕ → ExtentManager
managed offset bitmap_blocks extent_blocks extents_offset = record new_manager {
  offset = offset;
  bitmap_block_count = bitmap_blocks;
  extent_block_count = extent_blocks;
  extent_block_size = k_extent_block_size;
  extent_blocks_offset = extents_offset;
  bitmap = resize [] extent_blocks;
}

module _ (offset bitmap_blocks extent_blocks extents_offset : ℕ)
    (room : extent_blocks ≤ bitmap_blocks * k_block_data_size)
    (within : bitmap_blocks * k_block_size < 2 ^ 32) (offset_aligned : offset % k_block_size ≡ 0)
    (extents_aligned : extents_offset % k_block_size ≡ 0) where
  fits : ltb (bitmap_blocks * (k_block_data_size * sizeof_uint8) % 2 ^ 32) extent_blocks ≡ false
  fits = le→ltb _ _ (omega (arith, room, within))

  accepted :
      init new_manager offset bitmap_blocks extent_blocks k_extent_block_size extents_offset
      ≡ (pancake_store_ok, managed offset bitmap_blocks extent_blocks extents_offset)
  unfolding init is_block_align
  accepted =
      rw
        (
          fits,
          eq→== (offset % k_block_size) 0 offset_aligned,
          eq→== (extents_offset % k_block_size) 0 extents_aligned,
        )
        refl

  managed-Laid :
      0 < bitmap_blocks
      → bitmap_blocks ≤ extent_blocks
      → extent_blocks < 2 ^ 31
      → offset + bitmap_blocks * k_block_size ≤ extents_offset
      → extent_blocks * k_extent_block_size + extents_offset < 2 ^ 64
      → Laid (managed offset bitmap_blocks extent_blocks extents_offset)
  managed-Laid positive enough few before inside = record {
    valid =
        valid new_manager offset bitmap_blocks extent_blocks k_extent_block_size extents_offset fits
          (eq→== _ _ offset_aligned) (eq→== _ _ extents_aligned);
    positive = positive;
    enough = enough;
    few = few;
    regions = record { bitmap_within = within; bitmap_before = before; end_within = inside };
  }

-- On a device on which `BuildLayout` counts at least one extent block and at most 66560192, `Init`
-- accepts the bitmap's and the extents' regions that are laid out, and leaves a manager that is
-- valid, with a bitmap block at least and no more of these than extent blocks, of which there are fewer
-- than 2^31;
-- its bitmap region is counted in 32 bits and stands in front of the extent blocks, and these end
-- within 64 bits.
pub init-build_layout-Laid :
    (size : ℕ)
    → 0 < extent_block_count size
    → extent_block_count size ≤ 66560192
    → ((init_of (build_layout size)).0 ≡ pancake_store_ok) × Laid (init_of (build_layout size)).1
unfolding build_layout
init-build_layout-Laid size some_blocks few =
    let count = extent_block_count size in
    let room = bitmap_block_count_fits count in
    let l = build_layout size in
    let offset = l.extent_bit_map_item.block_index * k_block_size in
    let extents = l.extent_blocks_item.block_index * k_block_size in
    let within : bitmap_block_count count * k_block_size < 2 ^ 32 = omega (arith, room) in
    let at =
      accepted offset (bitmap_block_count count) count extents room.0 within (omega arith)
        (omega arith) in
    (
      ap (λ (r : ErrorCode × ExtentManager). r.0) at,
      subst (λ (r : ErrorCode × ExtentManager). Laid r.1) (sym at)
          (managed-Laid offset (bitmap_block_count count) count extents room.0 within (omega arith)
            (omega arith) (omega (arith, room)) (omega (arith, room)) (omega (arith, few))
            (omega (arith, room)) (omega (arith, room))),
    )
