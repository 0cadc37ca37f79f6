-- ===== src/ExtentMgr/Writes.antt =====
-- The two writes of an `AddExtent` that answers OK.
use pancake_store.Base.{
  ℕ, ◌+◌, ◌^◌, ◌≤◌, ◌<◌, ◌≡◌, inl, inr, refl, sym, ap, ◌∙◌, true, false, none, some, List, ◌∷◌,
  length, set, get_elem?, lt→ltb, ◌==◌, Bool-cases, Option-cases, arith,
}
use mathlib.Core.Bool.{true≢false}
use mathlib.Core.Option.{some-injective, none-ne-some}
use pancake_store.Comm.ErrorCode.{ErrorCode, pancake_store_ok, is_not_ok, ok_of}
use pancake_store.Block.Host.{Host}
use pancake_store.Block.Bytes.{k_block_magic}
use pancake_store.Block.Bitmap.RoundTrip.{deserialize-serialize_bitmap}
use pancake_store.Block.ExtentHeader.{ExtentHeaderBlock, HeaderFits}
use pancake_store.Block.ExtentHeader.Write.{header_checksum, header_bytes, serialize-header_bytes}
use pancake_store.Io.{File, write_at}
use pancake_store.ExtentMgr.{
  ExtentManager, Answer, contains, add_extent, place_extent, finish_place, commit_bit,
  clone_bit_map_block, finish_commit, extent_block_device_offset, bitmap_block_device_offset,
  bitmap_index,
}
use pancake_store.ExtentMgr.Clone.{copied_block, clone_bit_map_block_made}
use pancake_store.ExtentMgr.Answers.{marked, updated-BitMapFits, HeaderFits-placed}
use pancake_store.ExtentMgr.Cursor.{find_unused_complete}
use pancake_store.ExtentMgr.AddExtent.{early_stop, search_step}

module _ {S : Type 0} (host : Host) (file : File S) (m : ExtentManager) (device : S)
    (header : ExtentHeaderBlock) (i : ℕ) (fits : HeaderFits header) (small : i < 256 ^ 4) where
  abbrev placed : ExtentHeaderBlock
  placed = record header { bitmap_ext_index = i }

  abbrev placed_fits : HeaderFits placed
  placed_fits = HeaderFits-placed header i fits small

  -- The extent header's block.
  abbrev pub new_header : List ℕ
  new_header = header_bytes host placed placed_fits

  -- The bitmap's block.
  abbrev pub new_bitmap : List ℕ
  new_bitmap =
      (deserialize-serialize_bitmap host (marked m i) (marked m i)
        (updated-BitMapFits true m i)).1.bytes

  abbrev pub header_write : ErrorCode × S
  header_write = write_at file device (extent_block_device_offset m i) new_header

  abbrev pub bitmap_write : ErrorCode × S
  bitmap_write =
      write_at file header_write.1 (bitmap_block_device_offset m (bitmap_index i)) new_bitmap

  abbrev pub placed_answer : Answer S
  placed_answer = record {
    code = pancake_store_ok;
    manager = record m {
      bitmap = set m.bitmap i true;
      extent_offset_map = (header.extent_id, extent_block_device_offset m i) ∷ m.extent_offset_map;
    };
    device = bitmap_write.1;
    header = record placed {
      magic = k_block_magic;
      footer = record header.footer {
        magic = k_block_magic;
        crc = header_checksum host placed placed_fits;
      };
    };
  }

  -- When both writes answer OK, so does what follows the search.
  pub place_extent_done :
      i < length m.bitmap
      → clone_bit_map_block m i ≡ some (copied_block m i)
      → is_not_ok header_write.0 ≡ false
      → is_not_ok bitmap_write.0 ≡ false
      → place_extent host file m device header i ≡ some placed_answer
  unfolding place_extent finish_place commit_bit finish_commit
  place_extent_done inside made w1 w2 =
      let (crc, s) =
        deserialize-serialize_bitmap host (marked m i) (marked m i) (updated-BitMapFits true m i) in
      rw
        (
          serialize-header_bytes host placed placed_fits,
          place_extent,
          w1,
          finish_place,
          made,
          s.written,
          commit_bit,
          w2,
          finish_commit,
          lt→ltb i (length m.bitmap) inside,
        )
        refl

  -- Where it answers anything after the first write, a bitmap block was made.
  place_extent_made :
      (a : Answer S)
      → place_extent host file m device header i ≡ some a
      → is_not_ok header_write.0 ≡ false
      → clone_bit_map_block m i ≡ some (copied_block m i)
  unfolding place_extent finish_place
  place_extent_made a e w1 = elim (Option-cases (clone_bit_map_block m i)) [
    | inl f ↦
        let at : place_extent host file m device header i ≡ none =
          rw (serialize-header_bytes host placed placed_fits, place_extent, w1, f, finish_place)
            refl in
        absurd (none-ne-some a (sym at ∙ e))
    | inr (cloned, f) ↦ f ∙ ap some (clone_bit_map_block_made m i cloned f)
  ]

  -- It answers OK only then.
  pub place_extent_writes :
      (a : Answer S)
      → i < length m.bitmap
      → place_extent host file m device header i ≡ some a
      → a.code ≡ pancake_store_ok
      → (is_not_ok header_write.0 ≡ false)
        × (is_not_ok bitmap_write.0 ≡ false)
        × (a ≡ placed_answer)
  unfolding place_extent finish_place commit_bit finish_commit
  place_extent_writes a inside e ok =
      let (crc, s) =
        deserialize-serialize_bitmap host (marked m i) (marked m i) (updated-BitMapFits true m i) in
      let at = serialize-header_bytes host placed placed_fits in
      let failed =
        λ (b : Answer S) (f : is_not_ok b.code ≡ true)
            (g : place_extent host file m device header i ≡ some b).
          let same : b ≡ a = some-injective _ _ (sym g ∙ e) in
          true≢false (sym f ∙ ap (λ (r : Answer S). is_not_ok r.code) same ∙ ap is_not_ok ok) in
      elim (Bool-cases (is_not_ok header_write.0)) [
        | inl w1 ↦ absurd (
            failed
              (record {
                code = header_write.0;
                manager = m;
                device = header_write.1;
                header = placed_answer.header;
              })
              w1 (rw (at, place_extent, w1, finish_place) refl))
        | inr w1 ↦
            let made = place_extent_made a e w1 in
            elim (Bool-cases (is_not_ok bitmap_write.0)) [
              | inl w2 ↦ absurd (
                  failed
                    (record {
                      code = bitmap_write.0;
                      manager = m;
                      device = bitmap_write.1;
                      header = placed_answer.header;
                    })
                    w2
                    (rw
                      (
                        at, place_extent, w1, finish_place, made, s.written, commit_bit, w2,
                        finish_commit,
                      )
                      refl))
              | inr w2 ↦ (w1, w2, some-injective _ _ (sym e ∙ place_extent_done inside made w1 w2))
            ]
      ]

module _ {S : Type 0} (host : Host) (file : File S) (m : ExtentManager) (device : S)
    (header : ExtentHeaderBlock) (fits : HeaderFits header) where
  -- The answer is the one to an index below `bitmap_block_count_` whose bit was clear, with both
  -- writes answered OK.
  abbrev pub Written : Answer S → ℕ → Type 0
  Written a i =
      (small : i < 256 ^ 4) × (i < m.bitmap_block_count)
      × (get_elem? m.bitmap i ≡ some false)
      × ((header_write host file (record m { cursor = i + 1 }) device header i fits small).0
          ≡ pancake_store_ok)
      × ((bitmap_write host file (record m { cursor = i + 1 }) device header i fits small).0
          ≡ pancake_store_ok)
      × (a ≡ placed_answer host file (record m { cursor = i + 1 }) device header i fits small)

  pub add_extent_writes :
      (a : Answer S)
      → 0 < m.bitmap_block_count
      → m.bitmap_block_count ≤ m.extent_block_count
      → length m.bitmap ≡ m.extent_block_count
      → m.extent_block_count < 2 ^ 32
      → add_extent host file m device header ≡ some a
      → a.code ≡ pancake_store_ok
      → (i : ℕ) × Written a i
  add_extent_writes a positive enough len few e ok =
      let stops =
        λ (b : Answer S) (f : is_not_ok b.code ≡ true)
            (g : add_extent host file m device header ≡ some b).
          let same : b ≡ a = some-injective _ _ (sym g ∙ e) in
          true≢false (sym f ∙ ap (λ (r : Answer S). is_not_ok r.code) same ∙ ap is_not_ok ok) in
      let early = early_stop host file m device header in
      elim (Bool-cases (contains m.extent_offset_map header.extent_id)) [
        | inl h ↦ absurd (stops _ refl (early.0 h))
        | inr h ↦ elim (Bool-cases (m.used_cnt == m.extent_block_count)) [
          | inl u ↦ absurd (stops _ refl (early.1 h u))
          | inr u ↦
              let search = search_step host file m device header h u in
              elim (find_unused_complete m.extent_block_count m.bitmap_block_count m.bitmap m.cursor
                positive (omega (arith, len)) enough) [
                  | inr (c, s, full) ↦ absurd (stops _ refl (search.0 c s))
                  | inl (i, s, below, clear) ↦
                      let small : i < 256 ^ 4 = omega arith in
                      let (w1, w2, same) =
                        place_extent_writes host file (record m { cursor = i + 1 }) device header i
                          fits small a (omega (arith, len)) (sym (search.1 i (i + 1) s) ∙ e) ok in
                      (i, (small, below, clear, ok_of _ w1, ok_of _ w2, same))
                ]
        ]
      ]
