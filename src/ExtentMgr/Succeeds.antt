-- ===== src/ExtentMgr/Succeeds.antt =====
-- `AddExtent` succeeds where it can.
use pancake_store.Base.{
  ℕ, zero, suc, ◌+◌, ◌*◌, ◌%◌, ◌^◌, ◌≤◌, ◌<◌, ◌≡◌, ◌≢◌, inl, inr, refl, sym, ap, ◌∙◌, true, false,
  Option, none, some, List, length, get_elem?, eq→==, ne→==, arith,
}
use mathlib.Core.Bool.{true≢false}
use mathlib.Core.Option.{some-injective}
use native.Mathlib.Nat.{suc-mul}
use pancake_store.Comm.ErrorCode.{pancake_store_ok, is_not_ok}
use pancake_store.Block.Host.{Host}
use pancake_store.Block.Bytes.{k_block_size, k_block_data_size}
use pancake_store.Block.Bitmap.RoundTrip.{deserialize-serialize_bitmap}
use pancake_store.Block.ExtentHeader.{ExtentHeaderBlock, HeaderFits}
use pancake_store.Block.ExtentHeader.Write.{length-header_bytes}
use pancake_store.Io.{File, write_at, is_block_align, write_result}
use pancake_store.ExtentMgr.{
  ExtentManager, Answer, add_extent, place_extent, contains, extent_block_device_offset,
  bitmap_block_device_offset, bitmap_index, clone_bit_map_block,
}
use pancake_store.ExtentMgr.Clone.{copied_block, clone_bit_map_block-some}
use pancake_store.ExtentMgr.Answers.{marked, updated-BitMapFits, HeaderFits-placed}
use pancake_store.ExtentMgr.Init.{IsValid}
use pancake_store.ExtentMgr.Cursor.{find_unused_complete}
use pancake_store.ExtentMgr.AddExtent.{search_step, get_elem?_full}
use pancake_store.ExtentMgr.Writes.{
  new_header, new_bitmap, header_write, place_extent_done, placed_answer,
}

-- A device on which every write succeeds.
abbrev pub NeverFails : {S : Type 0} → File S → Type 0
NeverFails {S} file =
    (s : S) (off : ℕ) (bytes : List ℕ) → (file.dma_write s off bytes).1 ≡ some (length bytes)

multiple_aligned : (i size : ℕ) → size % k_block_size ≡ 0 → i * size % k_block_size ≡ 0
multiple_aligned zero size h = omega arith
multiple_aligned (suc i) size h = omega (arith, h, multiple_aligned i size h, suc-mul i size)

extent_block_aligned :
    (m : ExtentManager) (i : ℕ)
    → m.extent_block_size % k_block_size ≡ 0
    → m.extent_blocks_offset % k_block_size ≡ 0
    → extent_block_device_offset m i % k_block_size ≡ 0
unfolding extent_block_device_offset
extent_block_aligned m i h k = omega (arith, h, k, multiple_aligned i m.extent_block_size h)

bitmap_block_aligned :
    (m : ExtentManager) (k : ℕ)
    → m.offset % k_block_size ≡ 0
    → bitmap_block_device_offset m k % k_block_size ≡ 0
unfolding bitmap_block_device_offset
bitmap_block_aligned m k h = omega (arith, h)

module _ {S : Type 0} (host : Host) (file : File S) (works : NeverFails file) where
  write_result_done :
      (r : S × Option ℕ) (n : ℕ) → r.1 ≡ some n → is_not_ok (write_result file r n).0 ≡ false
  unfolding write_result
  write_result_done (s, none) n e = cc
  write_result_done (s, some len) n e = ground (arith, e)

  write_at_done :
      (s : S) (off : ℕ) (bytes : List ℕ)
      → off % k_block_size ≡ 0
      → length bytes ≡ k_block_size
      → is_not_ok (write_at file s off bytes).0 ≡ false
  unfolding write_at is_block_align
  write_at_done s off bytes a n =
      rw (eq→== (off % k_block_size) 0 a, n)
        (write_result_done (file.dma_write s off bytes) k_block_size
          (works s off bytes ∙ ap some n))

  -- What follows the search answers OK.
  pub place_extent_done_here :
      (m : ExtentManager) (device : S) (header : ExtentHeaderBlock) (i : ℕ)
      (fits : HeaderFits header) (small : i < 256 ^ 4)
      → i < length m.bitmap
      → clone_bit_map_block m i ≡ some (copied_block m i)
      → m.extent_block_size % k_block_size ≡ 0
      → m.extent_blocks_offset % k_block_size ≡ 0
      → m.offset % k_block_size ≡ 0
      → place_extent host file m device header i
        ≡ some (placed_answer host file m device header i fits small)
  place_extent_done_here m device header i fits small inside made size extents offset =
      let w1 =
        write_at_done device (extent_block_device_offset m i)
          (new_header host file m device header i fits small)
          (extent_block_aligned m i size extents)
          (length-header_bytes host (record header { bitmap_ext_index = i })
            (HeaderFits-placed header i fits small)) in
      let w2 =
        write_at_done (header_write host file m device header i fits small).1
          (bitmap_block_device_offset m (bitmap_index i))
          (new_bitmap host file m device header i fits small)
          (bitmap_block_aligned m (bitmap_index i) offset)
          (deserialize-serialize_bitmap host (marked m i) (marked m i)
            (updated-BitMapFits true m i)).1.size in
      place_extent_done host file m device header i fits small inside made w1 w2

  -- On a device on which every write succeeds, `AddExtent` answers OK to an extent that is not in
  -- the map, with a header whose fields are in range, and puts it there: as long as the manager is
  -- valid, its extent blocks have a size of whole blocks, there are fewer than 2^32 of them and at
  -- least as many as bitmap blocks, of which there are fewer than 2^31 - 4064, the used count is not their number, and one of the first
  -- `bitmap_block_count_` bits is clear.
  pub add_extent-contains :
      (m : ExtentManager) (device : S) (header : ExtentHeaderBlock) (j : ℕ)
      → IsValid m
      → m.extent_block_size % k_block_size ≡ 0
      → m.bitmap_block_count ≤ m.extent_block_count
      → m.extent_block_count < 2 ^ 32
      → m.bitmap_block_count + k_block_data_size < 2 ^ 31
      → HeaderFits header
      → contains m.extent_offset_map header.extent_id ≡ false
      → m.used_cnt ≢ m.extent_block_count
      → j < m.bitmap_block_count
      → get_elem? m.bitmap j ≡ some false
      → (a : Answer S) × (add_extent host file m device header ≡ some a)
        × (a.code ≡ pancake_store_ok)
        × (contains a.manager.extent_offset_map header.extent_id ≡ true)
  unfolding contains
  add_extent-contains m device header j v size enough few ints fits fresh used h clear =
      let search = search_step host file m device header fresh (ne→== _ _ used) in
      elim (find_unused_complete m.extent_block_count m.bitmap_block_count m.bitmap m.cursor
        (omega (arith, h)) (omega (arith, v.bitmap_length)) enough) [
          | inr (c, s, full) ↦
              absurd (true≢false (some-injective _ _ (sym (get_elem?_full _ _ j full h) ∙ clear)))
          | inl (i, s, below, free) ↦
              let small : i < 256 ^ 4 = omega arith in
              let m1 : ExtentManager = record m { cursor = i + 1 } in
              (
                placed_answer host file m1 device header i fits small,
                search.1 i (i + 1) s
                    ∙ place_extent_done_here m1 device header i fits small
                        (omega (arith, v.bitmap_length))
                        (clone_bit_map_block-some m1 i v.bitmap_length (omega arith)) size
                        v.extent_blocks_offset_aligned v.offset_aligned,
                refl,
                rw (eq→== header.extent_id header.extent_id refl) refl,
              )
        ]
