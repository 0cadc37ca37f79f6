-- ===== src/ExtentMgr/Answers.antt =====
-- `AddExtent` answers: it neither aborts nor reads or writes past the bitmap.
use pancake_store.Base.{
  ℕ, ◌+◌, ◌^◌, ◌≤◌, ◌<◌, ◌≡◌, inl, inr, refl, sym, ◌∙◌, Bool, true, false, some, List, ◌∷◌, length,
  set, lt→ltb, ◌==◌, IsByte, All-replicate, arith, Bool-cases,
}
use mathlib.Core.Path.{subst}
use pancake_store.Comm.ErrorCode.{ErrorCode, pancake_store_ok, is_not_ok}
use pancake_store.Block.Host.{Host}
use pancake_store.Block.Bytes.{k_block_data_size}
use pancake_store.Block.Footer.{FooterFits, fill_without_extent_id}
use pancake_store.Block.Bitmap.{BitMapBlock, BitMapFits}
use pancake_store.Block.Bitmap.RoundTrip.{deserialize-serialize_bitmap}
use pancake_store.Block.ExtentHeader.{ExtentHeaderBlock, HeaderFits}
use pancake_store.Block.ExtentHeader.Read.{deserialize-serialize_header}
use pancake_store.Io.{File, write_at}
use pancake_store.ExtentMgr.{
  ExtentManager, Answer, contains, commit_bit, finish_commit, finish_place, place_extent,
  add_extent, clone_bit_map_block, zero_block, mark_extent_block_used, mark_extent_block_unused,
  bitmap_index, bitmap_block_device_offset, extent_block_device_offset,
}
use pancake_store.ExtentMgr.Bits.{changed}
use pancake_store.ExtentMgr.Clone.{copied_block, changed-copied_block, clone_bit_map_block-some}
use pancake_store.ExtentMgr.Init.{IsValid}
use pancake_store.ExtentMgr.Cursor.{find_unused_complete}
use pancake_store.ExtentMgr.AddExtent.{early_stop, search_step}

-- The block as it is handed to `Serialize`, with the bit of the extent block set or cleared.
abbrev pub updated : Bool → ExtentManager → ℕ → BitMapBlock
updated used m i =
    let block : BitMapBlock = changed used (copied_block m i) i in
    record block { footer = fill_without_extent_id k_block_data_size block.footer }

abbrev pub marked : ExtentManager → ℕ → BitMapBlock
marked = updated true

zero_footer :
    (used : Bool) (m : ExtentManager) (i : ℕ)
    → (changed used (copied_block m i) i).footer ≡ zero_block.footer
unfolding mark_extent_block_used mark_extent_block_unused copied_block
zero_footer true m i = refl
zero_footer false m i = refl

filled-FooterFits : FooterFits (fill_without_extent_id k_block_data_size zero_block.footer)
unfolding fill_without_extent_id
filled-FooterFits = record {
  version_fits = omega arith;
  flag_fits = omega arith;
  length_fits = omega arith;
  extent_id_fits = omega arith;
  reserved_size = refl;
  reserved_bytes = All-replicate IsByte 12 0 (omega arith);
}

pub updated-BitMapFits : (used : Bool) (m : ExtentManager) (i : ℕ) → BitMapFits (updated used m i)
updated-BitMapFits used m i = record {
  data_size = (changed-copied_block m i used).0;
  data_bytes = (changed-copied_block m i used).1;
  footer_fits =
      subst (λ f. FooterFits (fill_without_extent_id k_block_data_size f))
        (sym (zero_footer used m i)) filled-FooterFits;
}

-- Its bytes.
abbrev pub updated_bytes : Host → Bool → ExtentManager → ℕ → List ℕ
updated_bytes host used m i =
    (deserialize-serialize_bitmap host (updated used m i) (updated used m i)
      (updated-BitMapFits used m i)).1.bytes

pub HeaderFits-placed :
    (header : ExtentHeaderBlock) (i : ℕ)
    → HeaderFits header
    → i < 256 ^ 4
    → HeaderFits (record header { bitmap_ext_index = i })
HeaderFits-placed header i fits small = record {
  version_fits = fits.version_fits;
  shard_id_fits = fits.shard_id_fits;
  data_shard_cnt_fits = fits.data_shard_cnt_fits;
  code_shard_cnt_fits = fits.code_shard_cnt_fits;
  device_id_fits = fits.device_id_fits;
  extent_id_fits = fits.extent_id_fits;
  extent_capacity_fits = fits.extent_capacity_fits;
  extent_phy_used_fits = fits.extent_phy_used_fits;
  extent_logic_used_fits = fits.extent_logic_used_fits;
  redundant_type_fits = fits.redundant_type_fits;
  sealed_fits = fits.sealed_fits;
  is_migrating_fits = fits.is_migrating_fits;
  corrupted_fits = fits.corrupted_fits;
  bitmap_ext_index_fits = small;
  reserved_size = fits.reserved_size;
  reserved_bytes = fits.reserved_bytes;
  footer_fits = fits.footer_fits;
}

module _ {S : Type 0} (host : Host) (file : File S) where
  finish_commit_answers :
      (m : ExtentManager) (header : ExtentHeaderBlock) (i : ℕ) (used : Bool) (map : List (ℕ × ℕ))
      (result : ErrorCode × S)
      → i < length m.bitmap
      → (a : Answer S) × (finish_commit host file m header i used map result ≡ some a)
  unfolding finish_commit
  finish_commit_answers m header i used map result h = elim (Bool-cases (is_not_ok result.0)) [
    | inl e ↦
        (record { code = result.0; manager = m; device = result.1; header = header }, rw e refl)
    | inr e ↦ (
      record {
        code = pancake_store_ok;
        manager = record m { bitmap = set m.bitmap i used; extent_offset_map = map };
        device = result.1;
        header = header;
      },
      rw (e, lt→ltb i (length m.bitmap) h) refl,
    )
  ]

  finish_place_answers :
      (m : ExtentManager) (header : ExtentHeaderBlock) (i : ℕ) (result : ErrorCode × S)
      → i < length m.bitmap
      → clone_bit_map_block m i ≡ some (copied_block m i)
      → (a : Answer S) × (finish_place host file m header i result ≡ some a)
  unfolding finish_place commit_bit
  finish_place_answers m header i result h made = elim (Bool-cases (is_not_ok result.0)) [
    | inl e ↦
        (record { code = result.0; manager = m; device = result.1; header = header }, rw e refl)
    | inr e ↦
        let (crc, s) =
          deserialize-serialize_bitmap host (marked m i) (marked m i)
            (updated-BitMapFits true m i) in
        let map = (header.extent_id, extent_block_device_offset m i) ∷ m.extent_offset_map in
        let (a, at) =
          finish_commit_answers m header i true map
            (write_at file result.1 (bitmap_block_device_offset m (bitmap_index i)) s.bytes) h in
        (a, rw (e, made, finish_place, s.written, commit_bit) at)
  ]

  place_extent_answers :
      (m : ExtentManager) (device : S) (header : ExtentHeaderBlock) (i : ℕ)
      → i < length m.bitmap
      → i < 256 ^ 4
      → clone_bit_map_block m i ≡ some (copied_block m i)
      → HeaderFits header
      → (a : Answer S) × (place_extent host file m device header i ≡ some a)
  unfolding place_extent
  place_extent_answers m device header i h small made fits =
      let placed : ExtentHeaderBlock = record header { bitmap_ext_index = i } in
      let placed_fits : HeaderFits placed = HeaderFits-placed header i fits small in
      let (x, written, _) = deserialize-serialize_header host placed placed_fits placed in
      let (a, at) =
        finish_place_answers m x.0 i (write_at file device (extent_block_device_offset m i) x.1) h
          made in
      (a, rw (written, place_extent) at)

  -- On a valid manager with as many bitmap blocks as extent blocks at most, but one at least, and
  -- extent blocks that 32 bits count, of bitmap blocks fewer than 2^31 - 4064, `AddExtent` answers
  -- whatever header it is given, as long as the header's fields are in the ranges of their types:
  -- it does not abort at an assertion, neither the search nor the loop that makes the bitmap block
  -- reads past the bitmap, nothing is written past it, and no index leaves the range of `int`.
  pub add_extent_answers :
      (m : ExtentManager) (device : S) (header : ExtentHeaderBlock)
      → IsValid m
      → 0 < m.bitmap_block_count
      → m.bitmap_block_count ≤ m.extent_block_count
      → m.extent_block_count < 2 ^ 32
      → m.bitmap_block_count + k_block_data_size < 2 ^ 31
      → HeaderFits header
      → (a : Answer S) × (add_extent host file m device header ≡ some a)
  add_extent_answers m device header v positive enough few ints fits =
      elim (Bool-cases (contains m.extent_offset_map header.extent_id)) [
        | inl h ↦ (_, (early_stop host file m device header).0 h)
        | inr h ↦ elim (Bool-cases (m.used_cnt == m.extent_block_count)) [
          | inl u ↦ (_, (early_stop host file m device header).1 h u)
          | inr u ↦
              elim (find_unused_complete m.extent_block_count m.bitmap_block_count m.bitmap m.cursor
                positive (omega (arith, v.bitmap_length)) enough) [
                  | inl t ↦
                      let (i, s, below, clear) = t in
                      let (a, at) =
                        place_extent_answers (record m { cursor = i + 1 }) device header i
                          (omega (arith, v.bitmap_length)) (omega arith)
                          (clone_bit_map_block-some (record m { cursor = i + 1 }) i v.bitmap_length
                            (omega arith))
                          fits in
                      (a, (search_step host file m device header h u).1 i (i + 1) s ∙ at)
                  | inr t ↦
                      let (c, s, full) = t in (_, (search_step host file m device header h u).0 c s)
                ]
        ]
      ]
