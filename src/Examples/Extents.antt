-- ===== src/Examples/Extents.antt =====
-- The theorems on the extent manager at a concrete manager.
use pancake_store.Base.{
  ℕ, ◌+◌, ◌<◌, ◌≤◌, ◌≢◌, ◌≡◌, ◌%◌, ◌^◌, ◌⊎◌, ◌*◌, sym, ap, ◌∙◌, refl, Bool, true, false, some, List,
  [], ◌∷◌, replicate, take, length, get_or, get_elem?, arith,
}
use pancake_store.Comm.ErrorCode.{
  ErrorCode, pancake_store_ok, pancake_store_code_error, datanode_storage_fs_init_failed,
  datanode_storage_fs_full, datanode_storage_extent_already_exists, is_not_ok,
}
use pancake_store.Block.Bytes.{k_block_size, k_block_data_size}
use pancake_store.Io.{slice, overlay, is_block_align}
use pancake_store.Block.ExtentHeader.Write.{
  header_bytes, length-header_bytes, serialize-header_bytes,
}
use pancake_store.ExtentMgr.Answers.{add_extent_answers}
use pancake_store.Io.Laws.{slice-overlay_self}
use pancake_store.ExtentMgr.{
  ExtentManager, Answer, new_manager, init, resize, contains, find_unused, add_extent, del_extent,
  current_alloc_count, current_free_count, extent_block_device_offset, clone_bit_map_block,
}
use pancake_store.Block.Bitmap.{BitMapBlock}
use pancake_store.ExtentMgr.Clone.{cloned_byte, clone_bit_map_block_lem}
use pancake_store.ExtentMgr.Init.{IsValid, init-IsValid}
use pancake_store.ExtentMgr.Turns.{turns, first_clear, search_of, find_unused-first_clear}
use pancake_store.ExtentMgr.Add.{Places}
use pancake_store.ExtentMgr.AddExtent.{stopped, add_extent_lem}
use pancake_store.ExtentMgr.Reach.{Runs, started, added, Runs-IsValid}
use pancake_store.Layout.{extent_block_count, build_layout}
use pancake_store.ExtentMgr.Calls.{Laid}
use pancake_store.ExtentMgr.FromLayout.{init_of, init-build_layout-Laid}
use pancake_store.ExtentMgr.Delete.{del_extent_refuses}
use pancake_store.Examples.{big_endian, memory, empty_device, a_header, a_header-HeaderFits}

abbrev two_of_three : List Bool
two_of_three = true ∷ false ∷ false ∷ []

-- From the index 1 on: the bit there is clear.
find_unused-first_clear_example :
    find_unused 3 3 two_of_three 4 ≡ search_of 3 3 4 (first_clear two_of_three (turns 3 3 4))
find_unused-first_clear_example =
    find_unused-first_clear 3 3 two_of_three 4 (omega arith) (omega arith) (omega arith)

-- Two extent blocks, and a bitmap of one block.
abbrev a_manager : ExtentManager
a_manager = record new_manager {
  offset = 24576;
  bitmap_block_count = 1;
  extent_block_count = 2;
  extent_block_size = 67108864;
  extent_blocks_offset = 67108864;
  bitmap = false ∷ false ∷ [];
}

init-IsValid_example :
    ((init new_manager 24576 1 2 67108864 67108864 ≡ (datanode_storage_fs_init_failed, new_manager))
      × ((1 * k_block_data_size % 2 ^ 32 < 2)
          ⊎ ((24576 % k_block_size ≢ 0) ⊎ (67108864 % k_block_size ≢ 0))))
    ⊎ (((init new_manager 24576 1 2 67108864 67108864).0 ≡ pancake_store_ok)
        × IsValid (init new_manager 24576 1 2 67108864 67108864).1
        × ((init new_manager 24576 1 2 67108864 67108864).1.extent_block_count ≡ 2)
        × ((init new_manager 24576 1 2 67108864 67108864).1.bitmap_block_count ≡ 1)
        × ((init new_manager 24576 1 2 67108864 67108864).1.extent_offset_map ≡ [])
        × ((init new_manager 24576 1 2 67108864 67108864).1.used_cnt ≡ new_manager.used_cnt)
        × ((init new_manager 24576 1 2 67108864 67108864).1.offset ≡ 24576)
        × ((init new_manager 24576 1 2 67108864 67108864).1.extent_block_size ≡ 67108864)
        × ((init new_manager 24576 1 2 67108864 67108864).1.extent_blocks_offset ≡ 67108864)
        × (2 ≤ 1 * k_block_data_size % 2 ^ 32)
        × (24576 % k_block_size ≡ 0)
        × (67108864 % k_block_size ≡ 0))
init-IsValid_example = init-IsValid new_manager 24576 1 2 67108864 67108864

a_manager-IsValid : IsValid a_manager
a_manager-IsValid = record {
  bitmap_length = refl;
  bitmap_room = omega arith;
  offset_aligned = refl;
  extent_blocks_offset_aligned = refl;
}

add_extent_answers_example :
    (a : Answer (ℕ → ℕ)) × (add_extent big_endian memory a_manager empty_device a_header ≡ some a)
add_extent_answers_example =
    add_extent_answers big_endian memory a_manager empty_device a_header a_manager-IsValid
      (omega arith) (omega arith) (omega arith) (omega arith) a_header-HeaderFits

-- The first extent, added to the manager.
abbrev first_answer : Answer (ℕ → ℕ)
first_answer =
    (add_extent_answers big_endian memory a_manager empty_device a_header a_manager-IsValid
      (omega arith) (omega arith) (omega arith) (omega arith) a_header-HeaderFits).0

first_added : add_extent big_endian memory a_manager empty_device a_header ≡ some first_answer
first_added =
    (add_extent_answers big_endian memory a_manager empty_device a_header a_manager-IsValid
      (omega arith) (omega arith) (omega arith) (omega arith) a_header-HeaderFits).1

add_extent_lem_example :
    ((contains a_manager.extent_offset_map a_header.extent_id ≡ true)
      × (first_answer
          ≡ stopped big_endian memory a_manager empty_device a_header
              datanode_storage_extent_already_exists a_manager))
    ⊎ (((a_manager.used_cnt ≡ a_manager.extent_block_count)
          × (first_answer
              ≡ stopped big_endian memory a_manager empty_device a_header datanode_storage_fs_full
                  a_manager))
        ⊎ (((take 1 a_manager.bitmap ≡ replicate 1 true)
              × ((c : ℕ) × (first_answer
                    ≡ stopped big_endian memory a_manager empty_device a_header
                        pancake_store_code_error
                        (record a_manager { cursor = c }))))
            ⊎ ((contains a_manager.extent_offset_map a_header.extent_id ≡ false)
                × ((i : ℕ) × (i < 1)
                    × (get_elem? a_manager.bitmap i ≡ some false)
                    × Places big_endian memory
                        (record a_manager { cursor = i + 1 })
                        a_header
                        i
                        first_answer))))
add_extent_lem_example =
    add_extent_lem big_endian memory a_manager empty_device a_header first_answer (omega arith)
      (omega arith) refl first_added

-- The first of the two extent blocks is in use.
abbrev half_full : ExtentManager
half_full = record a_manager { bitmap = true ∷ false ∷ [] }

a_manager-Runs : Runs big_endian memory a_manager
unfolding init is_block_align resize
a_manager-Runs = started 24576 1 2 67108864 67108864 refl

Runs-IsValid_example :
    IsValid first_answer.manager
    × (current_alloc_count first_answer.manager ≡ 0)
    × (current_free_count first_answer.manager ≡ first_answer.manager.extent_block_count % 2 ^ 32)
Runs-IsValid_example =
    Runs-IsValid big_endian memory first_answer.manager
      (added empty_device a_header first_answer a_manager-Runs first_added)

-- A device that has the header's bytes at the first extent block.
abbrev header_bytes_of : List ℕ
header_bytes_of = header_bytes big_endian a_header a_header-HeaderFits

abbrev device_with_header : ℕ → ℕ
device_with_header = overlay empty_device 67108864 header_bytes_of

header_there :
    slice device_with_header (extent_block_device_offset a_manager 0) k_block_size ≡ header_bytes_of
unfolding extent_block_device_offset
header_there =
    ap (slice device_with_header 67108864)
      (sym (length-header_bytes big_endian a_header a_header-HeaderFits))
    ∙ slice-overlay_self empty_device 67108864 header_bytes_of

del_extent_refuses_example :
    (c : ErrorCode) × (is_not_ok c ≡ true)
    × (del_extent big_endian memory a_manager device_with_header a_header a_header
        ≡ some (record {
          code = c;
          manager = a_manager;
          device = device_with_header;
          header = a_header;
        }))
del_extent_refuses_example =
    del_extent_refuses big_endian memory a_manager device_with_header a_header a_header a_header _
      a_header-HeaderFits (serialize-header_bytes big_endian a_header a_header-HeaderFits)
      header_there

init-build_layout-Laid_example :
    ((init_of (build_layout 200000000)).0 ≡ pancake_store_ok)
    × Laid (init_of (build_layout 200000000)).1
unfolding extent_block_count
init-build_layout-Laid_example = init-build_layout-Laid 200000000 (omega arith) (omega arith)

clone_bit_map_block_lem_example :
    (b : BitMapBlock) × (clone_bit_map_block a_manager 1 ≡ some b)
    × (length b.bitmap ≡ k_block_data_size)
    × (get_or b.bitmap 0 0 ≡ cloned_byte a_manager 1 0)
clone_bit_map_block_lem_example =
    clone_bit_map_block_lem a_manager 1 0 refl (omega arith) (omega arith)
