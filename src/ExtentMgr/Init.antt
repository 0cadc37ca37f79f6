-- ===== src/ExtentMgr/Init.antt =====
-- What `Init` accepts, and the invariant that it establishes.
use pancake_store.Base.{
  ℕ, ◌-◌, ◌*◌, ◌%◌, ◌^◌, ◌≤◌, ◌<◌, ◌≡◌, ◌⊎◌, inl, inr, refl, sym, ◌∙◌, Bool, true, false, List, [],
  length, take, replicate, ltb, ◌==◌, arith, Bool-cases, eq→==, ==→eq, ltb→lt, ◌≢◌, length-append,
  length-take, length-replicate,
}
use mathlib.Core.Bool.{true≢false}
use pancake_store.Comm.ErrorCode.{pancake_store_ok, datanode_storage_fs_init_failed}
use pancake_store.Block.Bytes.{k_block_size, k_block_data_size}
use pancake_store.Io.{is_block_align}
use pancake_store.Layout.{sizeof_uint8}
use pancake_store.ExtentMgr.{ExtentManager, init, resize}

-- The bitmap in memory has a bit for each extent block, the bitmap blocks on the device have room
-- for them all, and both regions start at a block.
pub record IsValid (m : ExtentManager) : Type 0 where
  pub bitmap_length : length m.bitmap ≡ m.extent_block_count
  pub bitmap_room : m.extent_block_count ≤ m.bitmap_block_count * k_block_data_size
  pub offset_aligned : m.offset % k_block_size ≡ 0
  pub extent_blocks_offset_aligned : m.extent_blocks_offset % k_block_size ≡ 0

ltb_false→le : (a b : ℕ) → ltb a b ≡ false → b ≤ a
ltb_false→le a b h = ground arith

length-resize : (bits : List Bool) (n : ℕ) → length (resize bits n) ≡ n
unfolding resize
length-resize bits n = omega (
  arith,
  length-append (take n bits) (replicate (n - length bits) false),
  length-take n bits,
  length-replicate (n - length bits) false,
)

module _ (m : ExtentManager) (offset bitmap_blocks extent_blocks size extents_offset : ℕ) where
  pub valid :
      ltb (bitmap_blocks * (k_block_data_size * sizeof_uint8) % 2 ^ 32) extent_blocks ≡ false
      → (offset % k_block_size == 0) ≡ true
      → (extents_offset % k_block_size == 0) ≡ true
      → IsValid (record m {
        offset = offset;
        bitmap_block_count = bitmap_blocks;
        extent_block_count = extent_blocks;
        extent_block_size = size;
        extent_blocks_offset = extents_offset;
        bitmap = resize m.bitmap extent_blocks;
        extent_offset_map = [];
      })
  valid e f g = record {
    bitmap_length = length-resize m.bitmap extent_blocks;
    bitmap_room = omega (arith, ltb_false→le _ _ e);
    offset_aligned = ==→eq _ _ f;
    extent_blocks_offset_aligned = ==→eq _ _ g;
  }

  -- `Init` either answers FS_INIT_FAILED and changes nothing, and then the bitmap blocks, their bits
  -- counted in 32 bits, have no room for the extent blocks or one of the two offsets is not block
  -- aligned; or it answers OK, and then they have room and both offsets are aligned, and the manager
  -- is valid, with the counts, the offsets and the block size given, no extent in its map and the
  -- used count that it had.
  pub init-IsValid :
      ((init m offset bitmap_blocks extent_blocks size extents_offset
          ≡ (datanode_storage_fs_init_failed, m))
        × ((bitmap_blocks * k_block_data_size % 2 ^ 32 < extent_blocks)
            ⊎ ((offset % k_block_size ≢ 0) ⊎ (extents_offset % k_block_size ≢ 0))))
      ⊎ (((init m offset bitmap_blocks extent_blocks size extents_offset).0 ≡ pancake_store_ok)
          × IsValid (init m offset bitmap_blocks extent_blocks size extents_offset).1
          × ((init m offset bitmap_blocks extent_blocks size extents_offset).1.extent_block_count
              ≡ extent_blocks)
          × ((init m offset bitmap_blocks extent_blocks size extents_offset).1.bitmap_block_count
              ≡ bitmap_blocks)
          × ((init m offset bitmap_blocks extent_blocks size extents_offset).1.extent_offset_map
              ≡ [])
          × ((init m offset bitmap_blocks extent_blocks size extents_offset).1.used_cnt
              ≡ m.used_cnt)
          × ((init m offset bitmap_blocks extent_blocks size extents_offset).1.offset ≡ offset)
          × ((init m offset bitmap_blocks extent_blocks size extents_offset).1.extent_block_size
              ≡ size)
          × ((init m offset bitmap_blocks extent_blocks size extents_offset).1.extent_blocks_offset
              ≡ extents_offset)
          × (extent_blocks ≤ bitmap_blocks * k_block_data_size % 2 ^ 32)
          × (offset % k_block_size ≡ 0)
          × (extents_offset % k_block_size ≡ 0))
  unfolding init is_block_align
  init-IsValid =
      elim (Bool-cases
        (ltb (bitmap_blocks * (k_block_data_size * sizeof_uint8) % 2 ^ 32) extent_blocks)) [
          | inl e ↦ inl (rw e refl, inl (ltb→lt _ _ e))
          | inr e ↦ elim (Bool-cases (offset % k_block_size == 0)) [
            | inr f ↦ inl (rw (e, f) refl, inr (inl (λ z. true≢false (sym (eq→== _ _ z) ∙ f))))
            | inl f ↦ elim (Bool-cases (extents_offset % k_block_size == 0)) [
              | inr g ↦ inl (rw (e, f, g) refl, inr (inr (λ z. true≢false (sym (eq→== _ _ z) ∙ g))))
              | inl g ↦ inr (
                  rw (e, f, g)
                    (
                      refl,
                      valid e f g,
                      refl,
                      refl,
                      refl,
                      refl,
                      refl,
                      refl,
                      refl,
                      ltb_false→le _ _ e,
                      ==→eq _ _ f,
                      ==→eq _ _ g,
                    ))
            ]
          ]
        ]
